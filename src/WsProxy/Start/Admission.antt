-- ===== src/WsProxy/Start/Admission.antt =====
-- Whom the started proxy admits: crates/websocket-proxy/src/main.rs, auth.rs, server.rs and
-- rate_limit.rs together.
use rollup_boost.Prelude.{
  ℕ, ◌≤◌, ◌≡◌, ◌≢◌, ◌⊎◌, refl, List, [], ◌∷◌, Option, none, some, All, Any, inl, inr, Bool-cases,
  arith, subst, sym, ap, ◌∙◌, length, string_eq, nat_eq, ◌==◌,
}
use rollup_boost.Prelude.Keys.{get}
use rollup_boost.Auth.{
  Text, text_eq, same_text_iff, Authentication, Parsed, done, failed, panicked, parse, try_from,
  get_rate_limits,
}
use rollup_boost.Auth.Entries.{printed, try_from_enters}
use rollup_boost.RateLimit.{Semaphore}
use rollup_boost.RateLimit
use rollup_boost.RateLimit.Counters.{count}
use rollup_boost.RateLimit.Bounds.{live_ip, live_app}
use rollup_boost.RateLimit.Redis.Commands.{RedisEnv}
use rollup_boost.WsProxy.Server.{Event}
use rollup_boost.WsProxy.Server
use rollup_boost.WsProxy.Server.Admission.{sockets_within_limits}
use rollup_boost.WsProxy.Server.Keys.{HasKey, sockets_have_keys}
use rollup_boost.WsProxy.Start.{
  Args, Start, started, died, assert, not_empty, accepted, authentication_of, read_keys, limits_of,
  Libraries, RateLimiter, in_memory, in_redis, Proxy, named_limits, limiter_at, rate_limiter_of,
  some_upstream, assembled, start,
}
use rollup_boost.WsProxy.Start

then_started :
    {A B : Type 0} (x : Start A) (f : A → Start B) {b : B}
    → Start.◌>>=◌ x f ≡ started b
    → (a : A) × (x ≡ started a) × (f a ≡ started b)
then_started (started a) f h = (a, refl, h)
then_started died f h = absurd cc

not_empty-Any :
    (t : Text) (ts : List Text) → t ≢ [] → Any (λ u. u ≡ t) ts → Any (λ u. u ≡ t) (not_empty ts)
unfolding not_empty
not_empty-Any t [] h i = i
not_empty-Any t ([] ∷ ts) h (inl e) = absurd (h (sym e))
not_empty-Any t ([] ∷ ts) h (inr i) = not_empty-Any t ts h i
not_empty-Any t ((c ∷ cs) ∷ ts) h (inl e) = inl e
not_empty-Any t ((c ∷ cs) ∷ ts) h (inr i) = inr (not_empty-Any t ts h i)

printed_full : (app key limit : Text) → printed app key limit ≢ []
printed_full [] key limit = λ e. absurd cc
printed_full (c ∷ cs) key limit = λ e. absurd cc

only_done :
    (x : Parsed Authentication) (o : Option Authentication)
    → accepted x ≡ started o
    → (auth : Authentication) × (x ≡ done auth) × (o ≡ some auth)
only_done (done auth) o h = (auth, refl, ground arith)
only_done (failed e) o h = absurd cc
only_done panicked o h = absurd cc

-- With an argument that is not empty, there are keys.
keys_read :
    (t : Text) (ts : List Text) (o : Option Authentication)
    → Any (λ u. u ≡ t) ts
    → authentication_of ts ≡ started o
    → (auth : Authentication) × (try_from ts ≡ done auth) × (o ≡ some auth)
keys_read t [] o i h = absurd i
keys_read t (u ∷ us) o i h = only_done (try_from (u ∷ us)) o h

module _ (sem : Semaphore) (redis : RedisEnv) (lib : Libraries)
    (distinct : (s t : Text) → lib.name s ≡ lib.name t → s ≡ t) where
  get-named :
      (app : Text) (m : List (Text × ℕ))
      → get (lib.name app) (named_limits sem redis lib m) ≡ get app m
  unfolding get
  get-named app [] = refl
  get-named app ((t, n) ∷ m) = elim (Bool-cases (t == app)) [
    | inl e ↦
        let same : lib.name t ≡ lib.name app = ap lib.name ((same_text_iff t app).0 e) in
        rw e (rw ((string_eq.decides (lib.name t) (lib.name app)).1 same) refl)
    | inr e ↦ elim (Bool-cases (lib.name t == lib.name app)) [
      | inl k ↦
          let same = distinct t app ((string_eq.decides (lib.name t) (lib.name app)).0 k) in
          absurd (let bad = (same_text_iff t app).1 same in cc)
      | inr k ↦ rw e (rw k (get-named app m))
    ]
  ]

  count-named :
      (app : Text) (n : ℕ) (m : List (Text × ℕ))
      → get app m ≡ some n
      → count (lib.name app) (named_limits sem redis lib m) ≡ n
  unfolding count
  count-named app n m h = rw (get-named app m) (rw h refl)

  memory_start :
      (o : Option Text) (args : Args) (limits : List (Text × ℕ)) (l : RateLimit.Limiter sem)
      → limiter_at sem redis lib o args limits ≡ in_memory l
      → RateLimit.new sem args.instance_connection_limit args.per_ip_connection_limit
          (named_limits sem redis lib limits)
        ≡ l
  memory_start none args limits l h = ground arith
  memory_start (some url) args limits l h = elim (Bool-cases (lib.opens url)) [
    | inl e ↦ absurd (let bad = (rw e at h) in cc)
    | inr e ↦ let k = (rw e at h) in ground arith
  ]

  assembled_of :
      (args : Args) (proxy : Proxy sem redis lib)
      → start sem redis lib args ≡ started proxy
      → (auth : Option Authentication) × (read_keys args.api_keys ≡ started auth)
        × (assembled sem redis lib args auth ≡ proxy)
  unfolding start
  assembled_of args proxy h =
      let (auth, e, h1) = then_started (read_keys args.api_keys) _ h in
      let (_, _, h2) = then_started (assert lib.installs_metrics) _ h1 in
      let (_, _, h3) = then_started (assert (some_upstream args.upstream_ws)) _ h2 in
      let (_, _, h4) = then_started (assert (lib.channel_holds args.message_buffer_size)) _ h3 in
      (auth, e, ground arith)

  module _ (to_str : List ℕ → Option Text) (parse_ip : Text → Option ℕ) where
    abbrev pub sockets :
        RateLimit.Limiter sem
        → Option Authentication
        → List (Event sem to_str parse_ip lib.name)
        → List RateLimit.Ticket
    sockets l auth es =
        (Server.run sem to_str parse_ip lib.name es
          (Server.new sem to_str parse_ip lib.name l auth, [])).1

    -- Where the proxy starts with its limits in memory and one of its key arguments is an
    -- application, a key and a limit without colons in them, that limit is a number. After any
    -- history of the server, the WebSockets that are open are then at most the instance limit; those of an
    -- address at most its limit, unless that is 0; those of this application at most that number;
    -- and each is counted for an application that a key leads to.
    pub argument_limits_hold :
        (args : Args) (proxy : Proxy sem redis lib) (l : RateLimit.Limiter sem)
        (es : List (Event sem to_str parse_ip lib.name)) (addr : ℕ) (app key limit : Text)
        → All (λ x. x ≢ 58) app
        → All (λ x. x ≢ 58) key
        → All (λ x. x ≢ 58) limit
        → Any (λ t. t ≡ printed app key limit) args.api_keys
        → start sem redis lib args ≡ started proxy
        → proxy.rate_limiter ≡ in_memory l
        → let live = sockets l proxy.authentication es in
          (n : ℕ) × (auth : Authentication) × (parse limit ≡ some n)
          × (proxy.authentication ≡ some auth)
          × (length live ≤ args.instance_connection_limit)
          × ((args.per_ip_connection_limit ≡ 0)
              ⊎ (live_ip addr live ≤ args.per_ip_connection_limit))
          × (live_app (lib.name app) live ≤ n)
          × All (λ t. HasKey sem to_str parse_ip lib.name auth t) live
    unfolding read_keys rate_limiter_of
    argument_limits_hold args proxy l es addr app key limit a b c i h m =
        let (o, e, same) = assembled_of args proxy h in
        let kept =
          not_empty-Any (printed app key limit) args.api_keys (printed_full app key limit) i in
        let (auth, t, k) = keys_read (printed app key limit) (not_empty args.api_keys) o kept e in
        let (n, p, _, lim) =
          try_from_enters app key limit a b c (not_empty args.api_keys) auth kept t in
        let authenticated : proxy.authentication ≡ some auth =
          sym (ap (λ x. x.authentication) same) ∙ k in
        let limits = named_limits sem redis lib (get_rate_limits auth) in
        let made = memory_start args.redis_url args (get_rate_limits auth) l (
          subst (λ z. limiter_at sem redis lib args.redis_url args (limits_of z) ≡ in_memory l) k
            (ap (λ x. x.rate_limiter) same ∙ m)) in
        let (x, y, z) =
          sockets_within_limits sem to_str parse_ip lib.name args.instance_connection_limit
            args.per_ip_connection_limit limits proxy.authentication es addr (lib.name app) in
        let live_at : RateLimit.Limiter sem → List RateLimit.Ticket =
          λ q. sockets q proxy.authentication es in
        (
          n,
          auth,
          p,
          authenticated,
          subst (λ q. length (live_at q) ≤ args.instance_connection_limit) made x,
          subst
              (λ q.
                (args.per_ip_connection_limit ≡ 0)
                ⊎ (live_ip addr (live_at q) ≤ args.per_ip_connection_limit))
              made y,
          subst (λ q. live_app (lib.name app) (live_at q) ≤ n) made
              (subst
                (λ r.
                  live_app (lib.name app) (
                    live_at (
                      RateLimit.new sem args.instance_connection_limit args.per_ip_connection_limit
                        limits))
                  ≤ r)
                (count-named app n (get_rate_limits auth) lim) z),
          subst (λ r. All (λ t. HasKey sem to_str parse_ip lib.name auth t) (sockets l r es))
              (sym authenticated) (sockets_have_keys sem to_str parse_ip lib.name auth l es),
        )
