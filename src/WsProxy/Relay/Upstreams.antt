-- ===== src/WsProxy/Relay/Upstreams.antt =====
-- The whole proxy, from its upstreams to a client: the subscribers and the ping task of
-- crates/websocket-proxy/src/main.rs send to one channel, which registry.rs serves clients from.
use rollup_boost.Prelude.{
  ℕ, Bool, List, [], ◌∷◌, ◌++◌, map, All, ◌≡◌, refl, sym, ap, ◌∙◌, subst, Bool-cases, inl, inr,
}
use rollup_boost.Sockets.{Message, ping, Backoff}
use rollup_boost.WsProxy.Registry.{subscribe}
use rollup_boost.WsProxy.Registry
use rollup_boost.WsProxy.Registry.Delivery.{Feed, subscribe-gapless}
use rollup_boost.WsProxy.Subscriber.{Round, run, new}
use rollup_boost.WsProxy.Start.{
  Args, PingEvent, tick, cancelled, send_pings, ping_task, subscriber_options,
}
use rollup_boost.WsProxy.Relay.{relay}
use rollup_boost.WsProxy.Relay.Rounds.{IsFrom, prefix-IsFrom, run-Hands}
use rollup_boost.WsProxy.Relay.Merge.{IsPrefix, ArePrefixes, Merges, merged_prefix, map-prefix}

-- Every message is an empty ping.
abbrev pub ArePings : List Message → Type 0
ArePings ms = All (λ m. m ≡ ping []) ms

send_pings-ArePings : (es : List PingEvent) → ArePings (send_pings es).0
unfolding send_pings
send_pings-ArePings [] = tt
send_pings-ArePings (cancelled ∷ es) = tt
send_pings-ArePings (tick ∷ es) = (refl, send_pings-ArePings es)

ping_task-ArePings :
    (timer_runs : ℕ → Bool) (args : Args) (es : List PingEvent)
    → ArePings (ping_task timer_runs args es).0
unfolding ping_task
ping_task-ArePings timer_runs args es = elim (Bool-cases args.client_ping_enabled) [
  | inl e ↦ elim (Bool-cases (timer_runs args.client_ping_interval_ms)) [
    | inl k ↦ rw (e, ping_task) (rw k (send_pings-ArePings es))
    | inr k ↦ rw (e, ping_task) (rw k tt)
  ]
  | inr e ↦ rw (e, ping_task) tt
]

prefix-ArePings : (ms ns : List Message) → IsPrefix ms ns → ArePings ns → ArePings ms
prefix-ArePings [] ns p a = tt
prefix-ArePings (m ∷ ms) [] (later, e) a = absurd cc
prefix-ArePings (m ∷ ms) (n ∷ ns) (later, e) a =
    let same : m ≡ n = cc in
    let tail : ms ++ later ≡ ns = cc in (same ∙ a.0, prefix-ArePings ms ns (later, tail) a.1)

-- What is sent of each upstream comes from its rounds.
abbrev pub AreFrom : {E : Type 0} → List (List (Round E)) → List (List (List ℕ)) → Type 0
AreFrom [] [] = Unit {0}
AreFrom [] (xs ∷ xss) = ⊥
AreFrom (rs ∷ us) [] = ⊥
AreFrom (rs ∷ us) (xs ∷ xss) = IsFrom [] rs xs × AreFrom us xss

module _ (compress : List ℕ → List ℕ) (timer_runs : ℕ → Bool) (backoff : Backoff) {E : Type 0}
    (connection_closed : E) (args : Args) where
  -- What a subscriber with the proxy's options puts on the channel over its rounds.
  abbrev pub relayed : List (Round E) → List Message
  relayed rs =
      map (relay compress args.enable_compression)
        (run backoff connection_closed rs
          (new backoff connection_closed (subscriber_options args))).1.handled

  -- What all senders together put on the channel.
  abbrev pub senders : List (List (Round E)) → List PingEvent → List (List Message)
  senders us pings = (ping_task timer_runs args pings).0 ∷ map relayed us

  handled-IsFrom :
      (rs : List (Round E))
      → IsFrom [] rs
          (run backoff connection_closed rs
            (new backoff connection_closed (subscriber_options args))).1.handled
  unfolding new
  handled-IsFrom rs =
      let (xs, e, f) =
        run-Hands backoff connection_closed rs
          (new backoff connection_closed (subscriber_options args)) in
      subst (IsFrom [] rs) (sym e) f

  prefixes-AreFrom :
      (us : List (List (Round E))) (sent : List (List Message))
      → ArePrefixes sent (map relayed us)
      → (xss : List (List (List ℕ))) × AreFrom us xss
        × (map (map (relay compress args.enable_compression)) xss ≡ sent)
  prefixes-AreFrom [] [] p = ([], tt, refl)
  prefixes-AreFrom [] (ms ∷ sent) p = absurd p
  prefixes-AreFrom (rs ∷ us) [] p = absurd p
  prefixes-AreFrom (rs ∷ us) (ms ∷ sent) (p, ps) =
      let (xs, q, e) = map-prefix (relay compress args.enable_compression) _ ms p in
      let (xss, a, k) = prefixes-AreFrom us sent ps in
      (
        xs ∷ xss,
        (prefix-IsFrom xs (handled-IsFrom rs) q, a),
        ap (λ z. z ∷ map (map (relay compress args.enable_compression)) xss) e ∙ ap (λ z. ms ∷ z) k,
      )

  -- However the subscribers and the ping task come to send to the channel, a client that is
  -- subscribed from the start is sent empty pings and, for each upstream, of each of its connections
  -- a first part of the contents of its text and binary frames, compressed or not: in their order
  -- and each once, connection after connection.
  pub merged_upstreams :
      (us : List (List (Round E))) (pings : List PingEvent) (channel : List Message)
      (events : List Registry.Event)
      → Merges (senders us pings) channel
      → Feed channel events
      → (sent_pings : List Message) × (contents : List (List (List ℕ))) × ArePings sent_pings
        × AreFrom us contents
        × Merges
            (sent_pings ∷ map (map (relay compress args.enable_compression)) contents)
            (subscribe events).sent
  merged_upstreams us pings channel events m f =
      let gapless = subscribe-gapless channel events f in
      let (sent, ps, n) =
        merged_prefix (senders us pings) (subscribe events).sent channel gapless m in
      go sent ps n
    where
      go :
          (sent : List (List Message))
          → ArePrefixes sent (senders us pings)
          → Merges sent (subscribe events).sent
          → (sent_pings : List Message) × (contents : List (List (List ℕ))) × ArePings sent_pings
            × AreFrom us contents
            × Merges
                (sent_pings ∷ map (map (relay compress args.enable_compression)) contents)
                (subscribe events).sent
      go [] p n = absurd p
      go (ms ∷ sent) (p, ps) (rest, i, n) =
          let (xss, a, k) = prefixes-AreFrom us sent ps in
          (
            ms,
            xss,
            prefix-ArePings ms _ p (ping_task-ArePings timer_runs args pings),
            a,
            (rest, i, subst (λ z. Merges z rest) (sym k) n),
          )
