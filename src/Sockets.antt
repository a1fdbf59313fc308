-- ===== src/Sockets.antt =====
-- The frames of a WebSocket, of the libraries tungstenite and axum.
use rollup_boost.Prelude.{ℕ, List, Option}

-- A frame of a WebSocket, its content as bytes.
pub data Message : Type 0 where
  text binary ping pong : List ℕ → Message
  close : Message

-- What `next` on the reading half gives.
pub data Frame (E : Type 0) : Type 0 where
  message : Message → Frame E
  failure : E → Frame E
  ended : Frame E

-- `ExponentialBackoff`, made of an initial and a greatest interval; `next_backoff` gives the time to
-- wait.
pub record Backoff : Type 1 where
  pub State : Type 0
  pub new : ℕ → ℕ → State
  pub reset : State → State
  pub next_backoff : State → Option ℕ × State

-- What `recv` of tokio's broadcast channel resolves to.
pub data Received (A : Type 0) : Type 0 where
  next : A → Received A
  closed lagged : Received A
