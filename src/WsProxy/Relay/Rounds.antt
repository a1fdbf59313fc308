-- ===== src/WsProxy/Relay/Rounds.antt =====
-- What a subscriber hands on over all its connections (crates/websocket-proxy/src/subscriber.rs).
use rollup_boost.Prelude.{
  ℕ, Bool, true, false, List, [], ◌∷◌, ◌++◌, append-nil, append_assoc, Option, none, some, Result,
  ok, err, ◌≡◌, refl, sym, ap, ◌∙◌, subst,
}
use rollup_boost.Sockets.{Backoff}
use rollup_boost.WsProxy.Subscriber.{
  Connection, refused, established, Round, cancelled, connect, Progress, returned, listening,
  connecting, WebsocketSubscriber, run, connect_and_listen, after, after_backoff, back_off, failed,
  waited,
}
use rollup_boost.WsProxy.Relay.Merge.{IsPrefix}
use rollup_boost.WsProxy.Subscriber.Handled.{payloads, connection-IsHandled}

abbrev pub payloads_of : {E : Type 0} → Connection E → List (List ℕ)
payloads_of (refused e) = []
payloads_of (established now es) = payloads es

-- What may come of contents still to be read on a connection and of the rounds after it: some of
-- these contents from the first on, then some of each later connection's from its first on.
pub data IsFrom {E : Type 0} : List (List ℕ) → List (Round E) → List (List ℕ) → Type 0 where
  stop : {ps : List (List ℕ)} {rs : List (Round E)} → IsFrom ps rs []
  take :
      {p : List ℕ} {ps xs : List (List ℕ)} {rs : List (Round E)}
      → IsFrom ps rs xs
      → IsFrom (p ∷ ps) rs (p ∷ xs)
  reconnect :
      {c : Connection E} {b : Bool} {ps xs : List (List ℕ)} {rs : List (Round E)}
      → IsFrom (payloads_of c) rs xs
      → IsFrom ps (connect c b ∷ rs) xs

pub prefix-IsFrom :
    {E : Type 0} (xs : List (List ℕ)) {ps zs : List (List ℕ)} {rs : List (Round E)}
    → IsFrom ps rs zs
    → IsPrefix xs zs
    → IsFrom ps rs xs
prefix-IsFrom [] f h = stop
prefix-IsFrom (x ∷ xs) stop (later, e) = absurd cc
prefix-IsFrom (x ∷ xs) (take {p = p} {ps = ps} {xs = zs} {rs = rs} f) (later, e) =
    let same : p ≡ x = cc in
    let tail : xs ++ later ≡ zs = cc in
    subst (λ z. IsFrom (p ∷ ps) rs (z ∷ xs)) same (take (prefix-IsFrom xs f (later, tail)))
prefix-IsFrom (x ∷ xs) (reconnect f) h = reconnect (prefix-IsFrom (x ∷ xs) f h)

-- Contents that are left unread do not matter.
any_left :
    {E : Type 0} {rs : List (Round E)} {xs : List (List ℕ)} (ps : List (List ℕ))
    → IsFrom [] rs xs
    → IsFrom ps rs xs
any_left ps stop = stop
any_left ps (reconnect f) = reconnect f

read_some :
    {E : Type 0} {rs : List (Round E)} {xs : List (List ℕ)} (now later : List (List ℕ))
    → IsFrom [] rs xs
    → IsFrom (now ++ later) rs (now ++ xs)
read_some [] later f = any_left later f
read_some (p ∷ now) later f = take (read_some now later f)

module _ (backoff : Backoff) {E : Type 0} (connection_closed : E) where
  -- What has been handled since `before` comes from the rounds.
  abbrev Hands :
      List (List ℕ)
      → List (List ℕ)
      → List (Round E)
      → Progress × WebsocketSubscriber backoff connection_closed
      → Type 0
  Hands before ps rs r = (xs : List (List ℕ)) × (r.1.handled ≡ before ++ xs) × IsFrom ps rs xs

  nothing-Hands :
      (p : Progress) (rs : List (Round E)) (s : WebsocketSubscriber backoff connection_closed)
      → Hands s.handled [] rs (p, s)
  nothing-Hands p rs s = ([], sym (append-nil s.handled), stop)

  after_backoff-Hands :
      (o : Option ℕ) (b : Bool)
      (rest : WebsocketSubscriber backoff connection_closed
        → Progress × WebsocketSubscriber backoff connection_closed)
      (rs : List (Round E)) (s : WebsocketSubscriber backoff connection_closed)
      → ((t : WebsocketSubscriber backoff connection_closed) → Hands t.handled [] rs (rest t))
      → Hands s.handled [] rs (after_backoff backoff connection_closed o b rest s)
  after_backoff-Hands none b rest rs s k = k s
  after_backoff-Hands (some duration) true rest rs s k = nothing-Hands returned rs s
  after_backoff-Hands (some duration) false rest rs s k =
      k (waited backoff connection_closed duration s)

  after-Hands :
      (o : Option (Result E (Unit {0}))) (b : Bool)
      (rest : WebsocketSubscriber backoff connection_closed
        → Progress × WebsocketSubscriber backoff connection_closed)
      (rs : List (Round E)) (s : WebsocketSubscriber backoff connection_closed)
      → ((t : WebsocketSubscriber backoff connection_closed) → Hands t.handled [] rs (rest t))
      → Hands s.handled [] rs (after backoff connection_closed (o, s) b rest)
  after-Hands none b rest rs s k = nothing-Hands listening rs s
  after-Hands (some (ok u)) b rest rs s k = k s
  after-Hands (some (err e)) b rest rs s k =
      after_backoff-Hands
        (back_off backoff connection_closed (failed backoff connection_closed s)).0 b rest rs
        (back_off backoff connection_closed (failed backoff connection_closed s)).1 k

  connection_hands :
      (c : Connection E) (s : WebsocketSubscriber backoff connection_closed)
      → (now : List (List ℕ)) × (later : List (List ℕ)) × ((connect_and_listen backoff
            connection_closed c s).1.handled
          ≡ s.handled ++ now)
        × (now ++ later ≡ payloads_of c)
  unfolding connect_and_listen
  connection_hands (refused e) s = ([], [], sym (append-nil s.handled), refl)
  connection_hands (established started es) s =
      let (now, later, e, k, _) = connection-IsHandled backoff connection_closed started es s in
      (now, later, e, k)

  pub run-Hands :
      (rs : List (Round E)) (s : WebsocketSubscriber backoff connection_closed)
      → Hands s.handled [] rs (run backoff connection_closed rs s)
  unfolding run
  run-Hands [] s = nothing-Hands connecting [] s
  run-Hands (cancelled ∷ rs) s = nothing-Hands returned (cancelled ∷ rs) s
  run-Hands (connect c b ∷ rs) s =
      let (now, later, e, k) = connection_hands c s in
      let r = connect_and_listen backoff connection_closed c s in
      let (xs, h, f) =
        after-Hands r.0 b (run backoff connection_closed rs) rs r.1 (λ t. run-Hands rs t) in
      (
        now ++ xs,
        h ∙ ap (λ z. z ++ xs) e ∙ append_assoc s.handled now xs,
        reconnect (subst (λ z. IsFrom z rs (now ++ xs)) k (read_some now later f)),
      )
