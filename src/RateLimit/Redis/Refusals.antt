-- ===== src/RateLimit/Redis/Refusals.antt =====
-- What a refused connection leaves behind (crates/websocket-proxy/src/rate_limit.rs).
use rollup_boost.Prelude.{
  ℕ, ◌+◌, Bool, true, false, List, [], ◌∷◌, ◌++◌, Option, none, some, leb, if◌then◌else◌, Result,
  ok, err, ◌≡◌, refl, ap, ◌∙◌, Any, ◌⊎◌, inl, inr, Bool-cases,
}
use rollup_boost.Auth.{Text}
use rollup_boost.RateLimit.{Semaphore}
use rollup_boost.RateLimit.Redis.Commands.{
  Command, keys, get_count, incr, RedisEnv, ◌>>=◌, pure, send_keys, send_get,
}
use rollup_boost.RateLimit.Redis.Ensures.{
  Ensures, Always, Post, IsKeptBy, bind-Ensures, send_keys-Ensures,
}
use rollup_boost.RateLimit.Redis.{
  Limiter, Refusal, operation_failed, connections_key, star, total, below, or_none, count_one,
  count_both, ticket_or_refusal, with_permit, try_acquire,
}

pub Any-append :
    (k : Command) (log : List Command) (c : Command)
    → Any (λ x. x ≡ k) log
    → Any (λ x. x ≡ k) (log ++ (c ∷ []))
Any-append k [] c h = absurd h
Any-append k (x ∷ xs) c (inl h) = inl h
Any-append k (x ∷ xs) c (inr h) = inr (Any-append k xs c h)

pub Any-last : (k : Command) (log : List Command) → Any (λ x. x ≡ k) (log ++ (k ∷ []))
Any-last k [] = inl refl
Any-last k (x ∷ xs) = inr (Any-last k xs)

module _ (sem : Semaphore) (redis : RedisEnv) where
  refusal_keeps :
      (before : sem.State) (addr : Text) (app : Option Text)
      (x : Result Refusal (Unit {0}) × List Command) (l : Limiter sem redis) (e : Refusal)
      → sem.available_permits l.semaphore + 1 ≡ sem.available_permits before
      → (ticket_or_refusal sem redis addr app x l).0 ≡ err e
      → sem.available_permits (ticket_or_refusal sem redis addr app x l).1.semaphore
        ≡ sem.available_permits before
  refusal_keeps before addr app (ok u, log) l e h k = absurd cc
  refusal_keeps before addr app (err e', log) l e h k = sem.available-release l.semaphore ∙ h

  -- A connection that is refused, for whatever reason, gives its permit back.
  pub refused_keeps_permits :
      (addr : Text) (app : Option Text) (l : Limiter sem redis) (log : List Command) (e : Refusal)
      → (try_acquire sem redis addr app l log).0 ≡ err e
      → sem.available_permits (try_acquire sem redis addr app l log).1.semaphore
        ≡ sem.available_permits l.semaphore
  unfolding try_acquire
  refused_keeps_permits addr app l log e h =
      go (sem.try_acquire_owned l.semaphore) (sem.try_acquire_cases l.semaphore) h
    where
      started : Limiter sem redis
      started = record l { background_tasks_started = true }

      go :
          (o : Option sem.State)
          → ((sem.available_permits l.semaphore ≡ 0) × (o ≡ none))
            ⊎ ((t : sem.State) × (o ≡ some t)
                × (sem.available_permits t + 1 ≡ sem.available_permits l.semaphore))
          → (with_permit sem redis o addr app started log).0 ≡ err e
          → sem.available_permits (with_permit sem redis o addr app started log).1.semaphore
            ≡ sem.available_permits l.semaphore
      go none c k = refl
      go (some taken) (inl c) k = absurd cc
      go (some taken) (inr (t, same, c)) k =
          refusal_keeps l.semaphore addr app (count_both sem redis addr app started log)
            (record started { semaphore = taken }) e
            (ap (λ s. sem.available_permits s + 1) (let f : some taken ≡ some t = same in cc) ∙ c) k

  module _ (r : List Command → Type 0) (f : Refusal → Type 0) where
    total-Ensures :
        ((k : Text) → IsKeptBy r (get_count k))
        → (ks : List Text) → Ensures r Always f (total sem redis ks)
    unfolding total
    total-Ensures h [] log i = (i, tt)
    total-Ensures h (k ∷ ks) log i =
        bind-Ensures r Always Always f (send_get redis k)
          (λ n. total sem redis ks >>= λ m. pure (or_none n + m)) (λ log i. (h k log i, tt))
          (λ n log i j.
            bind-Ensures r Always Always f (total sem redis ks) (λ m. pure (or_none n + m))
              (total-Ensures h ks) (λ m log i j. (i, tt)) log i)
          log i

    below-Ensures :
        (e : Refusal) (n limit : ℕ) → f e → Ensures r Always f (below sem redis e n limit)
    below-Ensures e n limit h log i = elim (Bool-cases (leb limit n)) [
      | inl k ↦ rw (k) (i, h)
      | inr k ↦ rw (k) (i, tt)
    ]

    pub count_one-Ensures :
        (e : Refusal) (kind name : Text) (limit : ℕ) (l : Limiter sem redis)
        → f e
        → f operation_failed
        → ((k : Text) → IsKeptBy r (get_count k))
        → ((k : Text) → IsKeptBy r (keys k))
        → IsKeptBy r (incr (connections_key l.key_prefix kind name l.instance_id))
        → Ensures r
            (λ u log.
              Any (λ c. c ≡ incr (connections_key l.key_prefix kind name l.instance_id)) log)
            f
            (count_one sem redis e kind name limit l)
    unfolding count_one
    count_one-Ensures e kind name limit l a b c d k log i =
        let own = connections_key l.key_prefix kind name l.instance_id in
        bind-Ensures r _ (λ u log. Any (λ c. c ≡ incr own) log) f
          (send_keys redis operation_failed (connections_key l.key_prefix kind name star)) _
          (send_keys-Ensures redis r f operation_failed
            (connections_key l.key_prefix kind name star) b
            (d (connections_key l.key_prefix kind name star)))
          (λ found log i j.
            bind-Ensures r Always (λ u log. Any (λ c. c ≡ incr own) log) f (total sem redis found) _
              (total-Ensures c found)
              (λ n log i j.
                bind-Ensures r Always (λ u log. Any (λ c. c ≡ incr own) log) f
                  (below sem redis e n limit) _ (below-Ensures e n limit a)
                  (λ u log i j. (k log i, written own log (redis.succeeds (incr own) log))) log i)
              log i)
          log i
      where
        written :
            (own : Text) (log : List Command) (ok? : Bool)
            → Post
                (λ u log'. Any (λ c. c ≡ incr own) log')
                f
                ((if ok? then ok tt else err operation_failed), log ++ (incr own ∷ []))
        written own log true = Any-last (incr own) log
        written own log false = b
