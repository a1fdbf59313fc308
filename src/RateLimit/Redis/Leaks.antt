-- ===== src/RateLimit/Redis/Leaks.antt =====
-- What an application's refusal leaves in Redis (crates/websocket-proxy/src/rate_limit.rs).
use rollup_boost.Prelude.{
  ℕ, ◌<◌, Bool, true, false, List, [], ◌∷◌, Option, none, some, ltb, if◌then◌else◌, Result, ok, err,
  ◌≡◌, ap, All, Any, inl, inr, arith, All-append, Bool-cases, subst,
}
use rollup_boost.Auth.{Text}
use rollup_boost.RateLimit.{Semaphore}
use rollup_boost.RateLimit.Redis.Commands.{
  Command, keys, get_count, incr, decr, RedisEnv, Action, and_then, ◌>>=◌, get_connection,
}
use rollup_boost.RateLimit.Redis.Ensures.{Post, IsKeptBy}
use rollup_boost.RateLimit.Redis.{
  Limiter, Refusal, connection_failed, ip_limit_reached, app_limit_reached, connections_key,
  ip_word, app_word, count_one, count_ip, count_app, count_both, ticket_or_refusal, with_permit,
  try_acquire,
}
use rollup_boost.RateLimit.Redis.Refusals.{Any-append, count_one-Ensures}

abbrev pub IsNoDecr : Command → Type 0
IsNoDecr (decr k) = ⊥
IsNoDecr _ = Unit {0}

abbrev IsNoAppLimit : Refusal → Type 0
IsNoAppLimit app_limit_reached = ⊥
IsNoAppLimit _ = Unit {0}

abbrev AnyRefusal : Refusal → Type 0
AnyRefusal e = Unit {0}

module _ (sem : Semaphore) (redis : RedisEnv) where
  -- Once the address is counted, its counter stays raised by what follows.
  app-Keeps :
      (key : Text) (app : Option Text) (l : Limiter sem redis) (log : List Command)
      → Any (λ c. c ≡ incr key) log
      → Any (λ c. c ≡ incr key) (count_app sem redis app l log).1
  unfolding count_app
  app-Keeps key none l log h = h
  app-Keeps key (some app) l log h =
      (count_one-Ensures sem redis (λ log. Any (λ c. c ≡ incr key) log) AnyRefusal app_limit_reached
        app_word app _ l tt tt (λ k log. Any-append (incr key) log (get_count k))
        (λ k log. Any-append (incr key) log (keys k)) (λ log. Any-append (incr key) log _) log h).0

  after_ip :
      (key : Text) (app : Option Text) (l : Limiter sem redis)
      (x : Result Refusal (Unit {0}) × List Command)
      → Post (λ u log. Any (λ c. c ≡ incr key) log) IsNoAppLimit x
      → (and_then x (λ u. count_app sem redis app l)).0 ≡ err app_limit_reached
      → Any (λ c. c ≡ incr key) (and_then x (λ u. count_app sem redis app l)).1
  after_ip key app l (ok u, log) h k = app-Keeps key app l log h
  after_ip key app l (err e, log) h k =
      let same : e ≡ app_limit_reached = cc in absurd (subst IsNoAppLimit same h)

  ip-Ensures :
      (addr : Text) (l : Limiter sem redis) (log : List Command)
      → 0 < l.per_ip_limit
      → Post
          (λ u log.
            Any (λ c. c ≡ incr (connections_key l.key_prefix ip_word addr l.instance_id)) log)
          IsNoAppLimit
          (count_ip sem redis addr l log)
  unfolding count_ip
  ip-Ensures addr l log h =
      let on : ltb 0 l.per_ip_limit ≡ true = ground (arith, h) in
      rw (on)
        (count_one-Ensures sem redis (λ log. Unit {0}) IsNoAppLimit ip_limit_reached ip_word addr
          l.per_ip_limit l tt tt (λ k log i. tt) (λ k log i. tt) (λ log i. tt) log tt).1

  both-Leaks :
      (connects : Bool) (addr : Text) (app : Option Text) (l : Limiter sem redis)
      (log : List Command)
      → 0 < l.per_ip_limit
      → (and_then {E = Refusal}
          (if connects then ok tt else err connection_failed, log)
          (λ u. count_ip sem redis addr l >>= λ v. count_app sem redis app l)).0
        ≡ err app_limit_reached
      → Any
          (λ c. c ≡ incr (connections_key l.key_prefix ip_word addr l.instance_id))
          (and_then {E = Refusal}
            (if connects then ok tt else err connection_failed, log)
            (λ u. count_ip sem redis addr l >>= λ v. count_app sem redis app l)).1
  both-Leaks true addr app l log h k =
      after_ip (connections_key l.key_prefix ip_word addr l.instance_id) app l
        (count_ip sem redis addr l log) (ip-Ensures addr l log h) k
  both-Leaks false addr app l log h k = absurd cc

  quiet : (c : Command) → IsNoDecr c → IsKeptBy (All IsNoDecr) c
  quiet c h log i = All-append IsNoDecr log (c ∷ []) i (h, tt)

  count_one-Quiet :
      (e : Refusal) (kind name : Text) (limit : ℕ) (l : Limiter sem redis) (log : List Command)
      → All IsNoDecr log
      → All IsNoDecr (count_one sem redis e kind name limit l log).1
  count_one-Quiet e kind name limit l log h =
      (count_one-Ensures sem redis (All IsNoDecr) AnyRefusal e kind name limit l tt tt
        (λ k. quiet (get_count k) tt) (λ k. quiet (keys k) tt) (quiet (incr _) tt) log h).0

  count_app-Quiet :
      (app : Option Text) (l : Limiter sem redis) (log : List Command)
      → All IsNoDecr log
      → All IsNoDecr (count_app sem redis app l log).1
  unfolding count_app
  count_app-Quiet none l log h = h
  count_app-Quiet (some app) l log h = count_one-Quiet app_limit_reached app_word app _ l log h

  count_ip-Quiet :
      (addr : Text) (l : Limiter sem redis) (log : List Command)
      → All IsNoDecr log
      → All IsNoDecr (count_ip sem redis addr l log).1
  unfolding count_ip
  count_ip-Quiet addr l log h = elim (Bool-cases (ltb 0 l.per_ip_limit)) [
    | inl on ↦ rw (on) (count_one-Quiet ip_limit_reached ip_word addr l.per_ip_limit l log h)
    | inr off ↦ rw (off) h
  ]

  then-Quiet :
      {E A B : Type 0} (x : Result E A × List Command) (k : A → Action E B)
      → All IsNoDecr x.1
      → ((a : A) (log : List Command) → All IsNoDecr log → All IsNoDecr (k a log).1)
      → All IsNoDecr (and_then x k).1
  then-Quiet (ok a, log) k h g = g a log h
  then-Quiet (err e, log) k h g = h

  count_both-Quiet :
      (addr : Text) (app : Option Text) (l : Limiter sem redis) (log : List Command)
      → All IsNoDecr log
      → All IsNoDecr (count_both sem redis addr app l log).1
  unfolding count_both
  count_both-Quiet addr app l log h =
      then-Quiet (get_connection redis connection_failed log) _ h (λ u log i.
        then-Quiet (count_ip sem redis addr l log) (λ v. count_app sem redis app l)
          (count_ip-Quiet addr l log i) (λ v log i. count_app-Quiet app l log i))

  ticket-Leaks :
      (addr : Text) (app : Option Text) (x : Result Refusal (Unit {0}) × List Command)
      (l : Limiter sem redis) (key : Text)
      → (x.0 ≡ err app_limit_reached → Any (λ c. c ≡ incr key) x.1)
      → All IsNoDecr x.1
      → (ticket_or_refusal sem redis addr app x l).0 ≡ err app_limit_reached
      → Any (λ c. c ≡ incr key) (ticket_or_refusal sem redis addr app x l).2
        × All IsNoDecr (ticket_or_refusal sem redis addr app x l).2
  ticket-Leaks addr app (ok u, log) l key h k e = absurd cc
  ticket-Leaks addr app (err x, log) l key h k e =
      let same : x ≡ app_limit_reached = cc in (h (ap err same), k)

  -- Where addresses are limited, a connection that its application's limit refuses has raised the
  -- counter of its address in Redis, and nothing lowers it.
  pub redis_refusal_leaks :
      (addr : Text) (app : Option Text) (l : Limiter sem redis)
      → 0 < l.per_ip_limit
      → (try_acquire sem redis addr app l []).0 ≡ err app_limit_reached
      → Any
          (λ c. c ≡ incr (connections_key l.key_prefix ip_word addr l.instance_id))
          (try_acquire sem redis addr app l []).2
        × All (λ c. IsNoDecr c) (try_acquire sem redis addr app l []).2
  unfolding try_acquire
  redis_refusal_leaks addr app l h e = go (sem.try_acquire_owned l.semaphore) e
    where
      started : Limiter sem redis
      started = record l { background_tasks_started = true }

      counted :
          (count_both sem redis addr app started []).0 ≡ err app_limit_reached
          → Any
              (λ c. c ≡ incr (connections_key l.key_prefix ip_word addr l.instance_id))
              (count_both sem redis addr app started []).1
      counted k = unfold count_both in both-Leaks (redis.connects []) addr app started [] h k

      go :
          (o : Option sem.State)
          → (with_permit sem redis o addr app started []).0 ≡ err app_limit_reached
          → Any
              (λ c. c ≡ incr (connections_key l.key_prefix ip_word addr l.instance_id))
              (with_permit sem redis o addr app started []).2
            × All (λ c. IsNoDecr c) (with_permit sem redis o addr app started []).2
      go none k = absurd cc
      go (some taken) k =
          ticket-Leaks addr app (count_both sem redis addr app started [])
            (record started { semaphore = taken })
            (connections_key l.key_prefix ip_word addr l.instance_id) counted
            (count_both-Quiet addr app started [] tt) k
