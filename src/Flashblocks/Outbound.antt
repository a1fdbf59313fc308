-- ===== src/Flashblocks/Outbound.antt =====
-- `WebSocketPublisher` of crates/rollup-boost/src/flashblocks/outbound.rs: flashblocks go through a
-- broadcast channel of tokio to a task for each client. Printing a flashblock is a parameter.
pub mod Ends
pub mod Order
use rollup_boost.Prelude.{
  ℕ, ◌+◌, ◌-◌, Bool, true, false, List, [], ◌∷◌, ◌++◌, Option, none, some, if◌then◌else◌, Result,
  ok, err,
}
use rollup_boost.Flashblocks.{FlashblocksPayloadV1}
use rollup_boost.Sockets.{Frame, message, failure, ended, Received, next, closed, lagged}

pub data PublishError : Type 0 where
  not_serialized connection_aborted : PublishError

-- What the channel carries after an attempt to send, which fails if it has no receiver.
abbrev pub send_to : Bool → List ℕ → List (List ℕ) → Result PublishError (Unit {0}) × List (List ℕ)
send_to true bytes pipe = (ok tt, pipe ++ (bytes ∷ []))
send_to false bytes pipe = (err connection_aborted, pipe)

abbrev pub publish_text :
    Option (List ℕ) → Bool → List (List ℕ) → Result PublishError (Unit {0}) × List (List ℕ)
publish_text none has_receiver pipe = (err not_serialized, pipe)
publish_text (some bytes) has_receiver pipe = send_to has_receiver bytes pipe

unfoldable pub publish :
    (FlashblocksPayloadV1 → Option (List ℕ))
    → FlashblocksPayloadV1
    → Bool
    → List (List ℕ)
    → Result PublishError (Unit {0}) × List (List ℕ)
publish to_string payload has_receiver pipe = publish_text (to_string payload) has_receiver pipe

-- A branch of a client's `select!`: the termination flag has changed, a frame was read, or a result
-- of the channel, with whether the client could be sent to.
pub data Event : Type 0 where
  term_changed : Bool → Event
  inbound : Frame (Unit {0}) → Event
  payload : Received (List ℕ) → Bool → Event

-- One client: what it was sent, what its task has added to the counter of sent messages, and
-- whether the task has ended.
pub record Subscription : Type 0 where
  pub received : List (List ℕ)
  pub sent : ℕ
  pub is_over : Bool

abbrev pub subscribed : Subscription
subscribed = record { received = []; sent = 0; is_over = false }

abbrev pub finish : Subscription → Subscription
finish s = record s { is_over = true }

abbrev pub count_sent : Subscription → Subscription
count_sent s = record s { sent = s.sent + 1 }

unfoldable pub broadcast_loop : List Event → Subscription → Subscription
broadcast_loop [] s = s
broadcast_loop (term_changed true ∷ es) s = finish s
broadcast_loop (term_changed false ∷ es) s = broadcast_loop es s
broadcast_loop (inbound (message m) ∷ es) s = broadcast_loop es s
broadcast_loop (inbound (failure e) ∷ es) s = finish s
broadcast_loop (inbound ended ∷ es) s = finish s
broadcast_loop (payload (next p) true ∷ es) s =
    broadcast_loop es (record (count_sent s) { received = s.received ++ (p ∷ []) })
broadcast_loop (payload (next p) false ∷ es) s = finish (count_sent s)
broadcast_loop (payload closed b ∷ es) s = finish s
broadcast_loop (payload lagged b ∷ es) s = broadcast_loop es s

-- What the listener meets: the termination flag has changed, or a connection, whose handshake
-- failed or whose task then meets some events.
pub data ListenerEvent : Type 0 where
  listener_term_changed : Bool → ListenerEvent
  handshake_failed : ListenerEvent
  accepted : List Event → ListenerEvent

-- The counters, which the tasks share, and whether the listener has ended.
pub record Publisher : Type 0 where
  pub sent : ℕ
  pub subs : ℕ
  pub is_over : Bool

abbrev pub new_publisher : Publisher
new_publisher = record { sent = 0; subs = 0; is_over = false }

-- The task of a client raises `subs`, and lowers it when its loop has ended.
abbrev pub attend : Subscription → Publisher → Publisher
attend s p = record p {
  sent = p.sent + s.sent;
  subs = if s.is_over then p.subs + 1 - 1 else p.subs + 1;
}

unfoldable pub listener_loop : List ListenerEvent → Publisher → Publisher
unfolding broadcast_loop
listener_loop [] p = p
listener_loop (listener_term_changed true ∷ es) p = record p { is_over = true }
listener_loop (listener_term_changed false ∷ es) p = listener_loop es p
listener_loop (handshake_failed ∷ es) p = listener_loop es p
listener_loop (accepted session ∷ es) p =
    listener_loop es (attend (broadcast_loop session subscribed) p)
