-- ===== src/WsProxy/Registry/Delivery.antt =====
-- What a client of the proxy is sent (crates/websocket-proxy/src/registry.rs).
use rollup_boost.Prelude.{
  ◌+◌, Bool, true, false, List, [], ◌∷◌, ◌++◌, append_assoc, append-nil, if◌then◌else◌, ◌≡◌, refl,
  sym, ap, ◌∙◌, arith,
}
use rollup_boost.Sockets.{Message, next, closed, lagged}
use rollup_boost.WsProxy.Registry.{Event, broadcast, disconnect, Session, opened, serve, subscribe}

-- The results a receiver gets while the channel carries `ms` from its subscription on: the messages
-- one by one, until it has fallen behind or the channel is closed.
pub data Feed : List Message → List Event → Type 0 where
  nothing : {ms : List Message} → Feed ms []
  some_message :
      {m : Message} {b : Bool} {ms : List Message} {es : List Event}
      → Feed ms es
      → Feed (m ∷ ms) (broadcast (next m) b ∷ es)
  fallen_behind :
      {b : Bool} {ms : List Message} {es : List Event} → Feed ms (broadcast lagged b ∷ es)
  channel_closed : {b : Bool} {es : List Event} → Feed [] (broadcast closed b ∷ es)
  reader_left : {ms : List Message} {es : List Event} → Feed ms (disconnect ∷ es)

-- What is not sent follows what is.
abbrev IsPrefixFrom : List Message → List Message → Session → Type 0
IsPrefixFrom before ms s =
    (sent rest : List Message) × (s.sent ≡ before ++ sent) × (sent ++ rest ≡ ms)

serve-IsPrefixFrom :
    (ms : List Message) (es : List Event) (s : Session)
    → Feed ms es
    → IsPrefixFrom s.sent ms (serve es s)
unfolding serve
serve-IsPrefixFrom ms [] s f = ([], ms, sym (append-nil s.sent), refl)
serve-IsPrefixFrom ms (disconnect ∷ es) s f = ([], ms, sym (append-nil s.sent), refl)
serve-IsPrefixFrom ms (broadcast closed b ∷ es) s f = ([], ms, sym (append-nil s.sent), refl)
serve-IsPrefixFrom ms (broadcast lagged b ∷ es) s f = ([], ms, sym (append-nil s.sent), refl)
serve-IsPrefixFrom ms (broadcast (next m) false ∷ es) s f = ([], ms, sym (append-nil s.sent), refl)
serve-IsPrefixFrom ms (broadcast (next m) true ∷ es) s (some_message {ms = rest} f) =
    let (sent, left, e, k) =
      serve-IsPrefixFrom rest es (record s { sent = s.sent ++ (m ∷ []) }) f in
    (m ∷ sent, left, e ∙ append_assoc s.sent (m ∷ []) sent, ap (λ z. m ∷ z) k)

-- However the events of a client fall, what it is sent is a prefix of what the channel carries from
-- its subscription on: nothing is left out, repeated or swapped.
pub subscribe-gapless :
    (ms : List Message) (es : List Event)
    → Feed ms es
    → (rest : List Message) × ((subscribe es).sent ++ rest ≡ ms)
unfolding subscribe
subscribe-gapless ms es f =
    let (sent, rest, e, k) = serve-IsPrefixFrom ms es opened f in (rest, ap (λ z. z ++ rest) e ∙ k)

-- Of a client's connection, the opening and the closing are counted once each.
serve-counts :
    (es : List Event) (s : Session)
    → s.new_connections ≡ s.closed_connections + 1
    → s.is_over ≡ false
    → (serve es s).new_connections
      ≡ (serve es s).closed_connections + (if (serve es s).is_over then 0 else 1)
unfolding serve
serve-counts [] s h k = ground (arith, h, k)
serve-counts (disconnect ∷ es) s h k = ground (arith, h)
serve-counts (broadcast closed b ∷ es) s h k = ground (arith, h)
serve-counts (broadcast lagged b ∷ es) s h k = ground (arith, h)
serve-counts (broadcast (next m) false ∷ es) s h k = ground (arith, h)
serve-counts (broadcast (next m) true ∷ es) s h k =
    serve-counts es (record s { sent = s.sent ++ (m ∷ []) }) h k
