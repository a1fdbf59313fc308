-- ===== src/WsProxy/Registry.antt =====
-- `Registry` of crates/websocket-proxy/src/registry.rs: one subscribed client, as its two tasks.
-- Tokio's broadcast channel gives the results of `recv`, in the order of the events.
pub mod Delivery
pub mod Silence
use rollup_boost.Prelude.{
  ℕ, ◌+◌, ◌-◌, ◌/◌, Bool, true, false, ◌&&◌, List, [], ◌∷◌, ◌++◌, Option, none, some, ltb, ◌==◌,
  nat_eq, if◌then◌else◌,
}
use rollup_boost.Sockets.{
  Message, text, binary, ping, pong, close, Frame, message, failure, ended, Received, next, closed,
  lagged,
}

-- A branch of the `select!`: a result of the channel, with whether the client could be sent to, or
-- the signal of the client's reader.
pub data Event : Type 0 where
  broadcast : Received Message → Bool → Event
  disconnect : Event

-- What was sent to the client, the connection's metrics, and whether the loop has ended.
pub record Session : Type 0 where
  pub sent : List Message
  pub new_connections : ℕ
  pub closed_connections : ℕ
  pub failed_messages : ℕ
  pub lagged_connections : ℕ
  pub is_over : Bool

abbrev pub opened : Session
opened = record {
  sent = [];
  new_connections = 1;
  closed_connections = 0;
  failed_messages = 0;
  lagged_connections = 0;
  is_over = false;
}

-- What follows the loop.
abbrev pub leave : Session → Session
leave s = record s { closed_connections = s.closed_connections + 1; is_over = true }

unfoldable pub serve : List Event → Session → Session
serve [] s = s
serve (disconnect ∷ es) s = leave s
serve (broadcast closed sendable ∷ es) s = leave s
serve (broadcast lagged sendable ∷ es) s =
    leave (record s { lagged_connections = s.lagged_connections + 1 })
serve (broadcast (next m) false ∷ es) s =
    leave (record s { failed_messages = s.failed_messages + 1 })
serve (broadcast (next m) true ∷ es) s = serve es (record s { sent = s.sent ++ (m ∷ []) })

unfoldable pub subscribe : List Event → Session
unfolding serve
subscribe es = serve es opened

-- A branch of the reader's `select!`: a frame of the client, or the timeout checker's timeout_check.
pub data ReaderEvent (E : Type 0) : Type 0 where
  frame : Frame E → ReaderEvent E
  timeout_check : ReaderEvent E

-- Why the reader has ended. Each way ends the client's session: dropping the sender of the signal
-- wakes the loop as well.
pub data Reason : Type 0 where
  client_closed client_failed client_ended timed_out panicked : Reason

-- The reader's loop over its events and their instants in milliseconds; `none` as long as it runs.
unfoldable pub read : {E : Type 0} → Bool → ℕ → List (ℕ × ReaderEvent E) → ℕ → Option Reason
read enabled timeout [] last_pong = none
read enabled timeout ((now, frame (message (pong b))) ∷ es) last_pong =
    read enabled timeout es (if enabled then now else last_pong)
read enabled timeout ((now, frame (message close)) ∷ es) last_pong = some client_closed
read enabled timeout ((now, frame (message (text b))) ∷ es) last_pong =
    read enabled timeout es last_pong
read enabled timeout ((now, frame (message (binary b))) ∷ es) last_pong =
    read enabled timeout es last_pong
read enabled timeout ((now, frame (message (ping b))) ∷ es) last_pong =
    read enabled timeout es last_pong
read enabled timeout ((now, frame (failure e)) ∷ es) last_pong = some client_failed
read enabled timeout ((now, frame ended) ∷ es) last_pong = some client_ended
read enabled timeout ((now, timeout_check) ∷ es) last_pong =
    let rest = read enabled timeout es last_pong in
    if enabled && ltb timeout (now - last_pong) then some timed_out else rest

-- `start_reader`. `interval` panics on a period of zero, which the quarter of a short timeout is.
unfoldable pub start_reader : {E : Type 0} → Bool → ℕ → ℕ → List (ℕ × ReaderEvent E) → Option Reason
unfolding read
start_reader enabled timeout started es =
    if timeout / 4 == 0 then some panicked else read enabled timeout es started
