-- ===== src/WsProxy/Subscriber/Gauge.antt =====
-- The gauge of upstream connections (crates/websocket-proxy/src/subscriber.rs).
use rollup_boost.Prelude.{
  ℕ, ◌+◌, false, List, [], ◌∷◌, Option, none, some, ◌≡◌, refl, ap, ◌∙◌, arith,
}
use rollup_boost.Sockets.{Backoff}
use rollup_boost.WsProxy.Subscriber.{
  SubscriberOptions, refused, Round, connect, Progress, WebsocketSubscriber, new,
  connect_and_listen, run, not_connected, attempted, failed, back_off, after_backoff, waited,
}

abbrev pub unreachable : {E : Type 0} → List E → List (Round E)
unreachable [] = []
unreachable (e ∷ es) = connect (refused e) false ∷ unreachable es

abbrev pub count : {A : Type 0} → List A → ℕ
count [] = 0
count (x ∷ xs) = count xs + 1

module _ (backoff : Backoff) {E : Type 0} (connection_closed : E) where
  abbrev IsDown : WebsocketSubscriber backoff connection_closed → ℕ → ℕ → Type 0
  IsDown s up down =
      (s.metrics.upstream_connections_up ≡ up) × (s.metrics.upstream_connections_down ≡ down)

  -- After a refused connection.
  abbrev refusal :
      WebsocketSubscriber backoff connection_closed → WebsocketSubscriber backoff connection_closed
  refusal s =
      (back_off backoff connection_closed (
        failed backoff connection_closed
          (not_connected backoff connection_closed (attempted backoff connection_closed s)))).1

  after_backoff-IsDown :
      (o : Option ℕ)
      (rest : WebsocketSubscriber backoff connection_closed
        → Progress × WebsocketSubscriber backoff connection_closed)
      (s : WebsocketSubscriber backoff connection_closed) (up down up' down' : ℕ)
      → ((t : WebsocketSubscriber backoff connection_closed)
          → IsDown t up down
          → IsDown (rest t).1 up' down')
      → IsDown s up down
      → IsDown (after_backoff backoff connection_closed o false rest s).1 up' down'
  after_backoff-IsDown none rest s up down up' down' k h = k s h
  after_backoff-IsDown (some d) rest s up down up' down' k h =
      k (waited backoff connection_closed d s) h

  run-IsDown :
      (es : List E) (s : WebsocketSubscriber backoff connection_closed) (up down total : ℕ)
      → count es + down ≡ total
      → IsDown s up down
      → IsDown (run backoff connection_closed (unreachable es) s).1 up total
  unfolding run connect_and_listen
  run-IsDown [] s up down total e h = (h.0, h.1 ∙ omega (arith, e))
  run-IsDown (x ∷ es) s up down total e h =
      after_backoff-IsDown (backoff.next_backoff s.backoff_state).0
        (run backoff connection_closed (unreachable es)) (refusal s) up (down + 1) up total
        (λ t i. run-IsDown es t up (down + 1) total (omega (arith, e)) i) (h.0, ap (λ n. n + 1) h.1)

  -- An upstream that refuses every connection lowers the gauge of upstream connections once for
  -- each, although none of them had raised it.
  pub refused_gauge :
      (es : List E) (options : SubscriberOptions)
      → ((run backoff connection_closed
            (unreachable es)
            (new backoff connection_closed options)).1.metrics.upstream_connections_up
          ≡ 0)
        × ((run backoff connection_closed
              (unreachable es)
              (new backoff connection_closed options)).1.metrics.upstream_connections_down
            ≡ count es)
  unfolding new
  refused_gauge es options =
      run-IsDown es (new backoff connection_closed options) 0 0 (count es) (omega arith)
        (refl, refl)
