-- ===== src/Flashblocks/Inbound.antt =====
-- `FlashblocksReceiverService` of crates/rollup-boost/src/flashblocks/inbound.rs: the connection
-- from which flashblocks are received, with its pings, and how it is made again. The cache of
-- outstanding pings, the backoff and the parsing of flashblocks and of ids are parameters.
pub mod Forwarded
pub mod Pongs
use rollup_boost.Prelude.{
  ℕ, ◌+◌, ◌-◌, Bool, true, false, ◌||◌, List, [], ◌∷◌, ◌++◌, Option, none, some, leb, ◌==◌, nat_eq,
  if◌then◌else◌, Result, ok, err,
}
use rollup_boost.Payload.Trace.{CacheOps}
use rollup_boost.Flashblocks.{FlashblocksPayloadV1}
use rollup_boost.Sockets.{
  Message, text, binary, ping, pong, close, Frame, message, failure, ended, Backoff,
}

-- `FlashblocksWebsocketConfig` of crates/rollup-boost/src/flashblocks/args.rs, in milliseconds.
pub record FlashblocksWebsocketConfig : Type 0 where
  pub initial_reconnect : ℕ
  pub max_reconnect : ℕ
  pub connect_timeout : ℕ
  pub ping_interval : ℕ
  pub pong_timeout : ℕ

-- The text of a connection's error is left out. No holder of the lock on the pings panics, so that
-- it is never poisoned.
pub data FlashblocksReceiverError : Type 0 where
  connection ping_failed pong_timeout message_missing connection_error : FlashblocksReceiverError
  connection_closed task_panic send_error : FlashblocksReceiverError

-- What the two tasks of a connection meet: the ping interval's tick, with the id that is sent and
-- whether it could be; what is read, with whether the channel of flashblocks is still open; a look
-- at the timer.
pub data Event : Type 0 where
  ping_tick : ℕ → Bool → Event
  read : Frame (Unit {0}) → Bool → Event
  timer : Event

-- What connecting comes to: an error or the timeout, or a connection from an instant on.
pub data Connection : Type 0 where
  refused : Connection
  established : ℕ → List (ℕ × Event) → Connection

module _ (pings : CacheOps ℕ (Unit {0})) (backoff : Backoff)
    (from_str : List ℕ → Option FlashblocksPayloadV1) (from_slice : List ℕ → Option ℕ) where
  -- `sent` are the flashblocks handed on, `next_tick` the instant at which the pong interval ticks.
  pub record Receiver : Type 0 where
    pub config : FlashblocksWebsocketConfig
    pub sent : List FlashblocksPayloadV1
    pub messages_received : ℕ
    pub ping_cache : pings.Cache
    pub next_tick : ℕ

  -- A flashblock that does not parse is logged.
  unfoldable pub forward :
      Option FlashblocksPayloadV1 → Bool → Receiver → Option FlashblocksReceiverError × Receiver
  forward none is_open r = (none, r)
  forward (some p) true r = (none, record r { sent = r.sent ++ (p ∷ []) })
  forward (some p) false r = (some send_error, r)

  abbrev pub restarted : Option (Unit {0}) → ℕ → Receiver → ℕ
  restarted none now r = r.next_tick
  restarted (some u) now r = now + r.config.pong_timeout

  -- `cache.pop(&uuid)`, which restarts the interval if the ping was outstanding.
  unfoldable pub on_pong : Option ℕ → ℕ → Receiver → Receiver
  on_pong none now r = r
  on_pong (some uuid) now r = record r {
    ping_cache = pings.remove uuid r.ping_cache;
    next_tick = restarted (pings.get uuid r.ping_cache) now r;
  }

  -- What is done with a frame that is read: the error that ends the task, or none.
  unfoldable pub on_frame :
      Frame (Unit {0}) → Bool → ℕ → Receiver → Option FlashblocksReceiverError × Receiver
  unfolding forward on_pong
  on_frame (message (text t)) is_open now r =
      forward (from_str t) is_open (record r { messages_received = r.messages_received + 1 })
  on_frame (message close) is_open now r = (some connection_closed, r)
  on_frame (message (pong bytes)) is_open now r = (none, on_pong (from_slice bytes) now r)
  on_frame (message (ping bytes)) is_open now r = (none, r)
  on_frame (message (binary bytes)) is_open now r = (none, r)
  on_frame (failure e) is_open now r = (some connection_error, r)
  on_frame ended is_open now r = (some message_missing, r)

  abbrev pub go_on :
      Option FlashblocksReceiverError × Receiver
      → ℕ
      → Option (ℕ × FlashblocksReceiverError) × Receiver
      → Option (ℕ × FlashblocksReceiverError) × Receiver
  go_on (none, r) now rest = rest
  go_on (some e, r) now rest = (some (now, e), r)

  -- `connect_and_handle` over both tasks of a connection: it returns when one of them ends, with the
  -- instant and the error, or none while they run. A reading task that outlives a failed ping goes on,
  -- since its handle is dropped and it is not aborted: `reader` is its whole life.
  unfoldable pub handle :
      List (ℕ × Event) → Receiver → Option (ℕ × FlashblocksReceiverError) × Receiver
  unfolding on_frame
  handle [] r = (none, r)
  handle ((now, ping_tick uuid true) ∷ es) r =
      handle es (record r { ping_cache = pings.insert uuid tt r.ping_cache })
  handle ((now, ping_tick uuid false) ∷ es) r = (some (now, ping_failed), r)
  handle ((now, timer) ∷ es) r =
      let rest = handle es r in if leb r.next_tick now then (some (now, pong_timeout), r) else rest
  handle ((now, read f is_open) ∷ es) r =
      let handled = on_frame f is_open now r in
      let rest = handle es handled.1 in go_on handled now rest

  -- The reading task, until it ends of itself, with the pings that the other task has sent.
  unfoldable pub reader :
      List (ℕ × Event) → Receiver → Option (ℕ × FlashblocksReceiverError) × Receiver
  unfolding on_frame
  reader [] r = (none, r)
  reader ((now, ping_tick uuid true) ∷ es) r =
      reader es (record r { ping_cache = pings.insert uuid tt r.ping_cache })
  reader ((now, ping_tick uuid false) ∷ es) r = reader es r
  reader ((now, timer) ∷ es) r =
      let rest = reader es r in if leb r.next_tick now then (some (now, pong_timeout), r) else rest
  reader ((now, read f is_open) ∷ es) r =
      let handled = on_frame f is_open now r in
      let rest = reader es handled.1 in go_on handled now rest

  abbrev pub connected : ℕ → Receiver → Receiver
  connected now r = record r { ping_cache = pings.empty; next_tick = now + r.config.pong_timeout }

  -- Only a connection that has lasted resets the backoff.
  abbrev pub reset_if_stable : ℕ → ℕ → backoff.State → Receiver → backoff.State
  reset_if_stable start now b r =
      if leb r.config.max_reconnect (now - start) then backoff.reset b else b

  -- How `connect_and_handle` comes out, as far as it has: it lasts, returns an error, or panics.
  pub data Outcome : Type 0 where
    lasts panics : Outcome
    fails : FlashblocksReceiverError → Outcome

  abbrev pub finish :
      ℕ
      → backoff.State
      → Option (ℕ × FlashblocksReceiverError) × Receiver
      → Outcome × backoff.State × Receiver
  finish start b (none, r) = (lasts, b, r)
  finish start b (some (now, e), r) = (fails e, reset_if_stable start now b r, r)

  -- `connect_and_handle`. An interval of zero panics: that of the pings here, that of the pongs in
  -- its task.
  unfoldable pub connect_and_handle :
      Connection → backoff.State → Receiver → Outcome × backoff.State × Receiver
  unfolding handle
  connect_and_handle refused b r = (fails connection, b, r)
  connect_and_handle (established start es) b r =
      if r.config.ping_interval == 0
      then (panics, b, r)
      else (if r.config.pong_timeout == 0
          then (fails task_panic, b, r)
          else finish start b (handle es (connected start r)))

  -- Whether `run` is about to connect, waits for a connection that lasts, or has panicked.
  pub data Progress : Type 0 where
    connecting lasting panicked : Progress

  abbrev pub slept_then :
      Option ℕ × backoff.State
      → List ℕ
      → (backoff.State → List ℕ → Progress × List ℕ × Receiver)
      → Receiver
      → Progress × List ℕ × Receiver
  slept_then (none, b) slept rest r = (panicked, slept, r)
  slept_then (some interval, b) slept rest r = rest b (slept ++ (interval ∷ []))

  -- `run` over what connecting comes to, with the intervals that it has slept.
  unfoldable pub run :
      List Connection → backoff.State → List ℕ → Receiver → Progress × List ℕ × Receiver
  unfolding connect_and_handle
  run [] b slept r = (connecting, slept, r)
  run (c ∷ cs) b slept r =
      let handled = connect_and_handle c b r in
      elim handled.0 [
        | lasts ↦ (lasting, slept, handled.2)
        | panics ↦ (panicked, slept, handled.2)
        | fails e ↦
            slept_then (backoff.next_backoff handled.1) slept
              (λ b' slept'. run cs b' slept' handled.2) handled.2
      ]
