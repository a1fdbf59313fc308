-- ===== src/WsProxy/Relay.antt =====
-- The proxy as a whole, for one upstream: the listener of crates/websocket-proxy/src/main.rs, which
-- puts what the subscriber hands it on the channel that the registry serves clients from.
pub mod Rounds
pub mod Merge
pub mod Upstreams
use rollup_boost.Prelude.{
  ℕ, Bool, List, [], ◌++◌, map, map-append, append_assoc, if◌then◌else◌, ◌≡◌, sym, ap, ◌∙◌,
}
use rollup_boost.Sockets.{Message, binary, Backoff}
use rollup_boost.WsProxy.Registry.{subscribe}
use rollup_boost.WsProxy.Registry
use rollup_boost.WsProxy.Registry.Delivery.{Feed, subscribe-gapless}
use rollup_boost.WsProxy.Subscriber.{WebsocketSubscriber, Event, connect_and_listen, established}
use rollup_boost.WsProxy.Subscriber.Handled.{payloads, connection-IsHandled}

-- The message that the listener sends to the channel.
unfoldable pub relay : (List ℕ → List ℕ) → Bool → List ℕ → Message
relay compress enable_compression bytes =
    binary (if enable_compression then compress bytes else bytes)

module _ (compress : List ℕ → List ℕ) (enable_compression : Bool) (backoff : Backoff) {E : Type 0}
    (connection_closed : E) where
  -- With one upstream and no pings to clients, a client subscribed from the start is sent the contents of the upstream's text
  -- and binary frames as binary messages, compressed or not, in their order,
  -- each once and none left out, up to an end.
  pub relayed_in_order :
      (started : ℕ) (es : List (ℕ × Event E)) (s : WebsocketSubscriber backoff connection_closed)
      (events : List Registry.Event)
      → s.handled ≡ []
      → Feed
          (map
            (relay compress enable_compression)
            (connect_and_listen backoff connection_closed (established started es) s).1.handled)
          events
      → (rest : List Message) × ((subscribe events).sent ++ rest
          ≡ map (relay compress enable_compression) (payloads es))
  relayed_in_order started es s events h f =
      let (now, later, e, k, c) = connection-IsHandled backoff connection_closed started es s in
      let (left, sent) = subscribe-gapless _ events f in
      let relayed = map (relay compress enable_compression) in
      (
        left ++ relayed later,
        sym (append_assoc (subscribe events).sent left (relayed later))
            ∙ ap (λ z. z ++ relayed later) (sent ∙ ap relayed (e ∙ ap (λ z. z ++ now) h))
            ∙ sym (map-append (relay compress enable_compression) now later)
            ∙ ap relayed k,
      )
