-- ===== src/WsProxy/Subscriber.antt =====
-- `WebsocketSubscriber` of crates/websocket-proxy/src/subscriber.rs: the connection to one upstream,
-- and how it is made again. The errors and the exponential backoff are those of libraries.
pub mod Handled
pub mod Gauge
use rollup_boost.Prelude.{
  ℕ, ◌+◌, ◌/◌, Bool, true, false, List, [], ◌∷◌, ◌++◌, Option, none, some, leb, if◌then◌else◌,
  Result, ok, err,
}
use rollup_boost.Sockets.{
  Backoff, Message, text, binary, ping, pong, close, Frame, message, failure, ended,
}

-- Durations are in milliseconds.
pub record SubscriberOptions : Type 0 where
  pub max_backoff_interval : ℕ
  pub backoff_initial_interval : ℕ
  pub ping_interval : ℕ
  pub pong_timeout : ℕ
  pub initial_grace_period : ℕ

abbrev pub default_options : SubscriberOptions
default_options = record {
  max_backoff_interval = 20000;
  backoff_initial_interval = 500;
  ping_interval = 2000;
  pong_timeout = 4000;
  initial_grace_period = 5000;
}

abbrev pub with_max_backoff_interval : ℕ → SubscriberOptions → SubscriberOptions
with_max_backoff_interval n o = record o { max_backoff_interval = n }

abbrev pub with_ping_interval : ℕ → SubscriberOptions → SubscriberOptions
with_ping_interval n o = record o { ping_interval = n }

abbrev pub with_pong_timeout : ℕ → SubscriberOptions → SubscriberOptions
with_pong_timeout n o = record o { pong_timeout = n }

abbrev pub with_backoff_initial_interval : ℕ → SubscriberOptions → SubscriberOptions
with_backoff_initial_interval n o = record o { backoff_initial_interval = n }

abbrev pub with_initial_grace_period : ℕ → SubscriberOptions → SubscriberOptions
with_initial_grace_period n o = record o { initial_grace_period = n }

-- The counters, and how often the gauge of upstream connections went up and down.
pub record Metrics : Type 0 where
  pub upstream_connection_attempts : ℕ
  pub upstream_connection_successes : ℕ
  pub upstream_connection_failures : ℕ
  pub upstream_errors : ℕ
  pub upstream_connections_up : ℕ
  pub upstream_connections_down : ℕ
  pub messages_received : ℕ

abbrev pub no_metrics : Metrics
no_metrics = record {
  upstream_connection_attempts = 0;
  upstream_connection_successes = 0;
  upstream_connection_failures = 0;
  upstream_errors = 0;
  upstream_connections_up = 0;
  upstream_connections_down = 0;
  messages_received = 0;
}

-- A branch of the `select!` of a connection: a tick of the deadline check, the failure of the ping
-- task, or what is read.
pub data Event (E : Type 0) : Type 0 where
  deadline_check : Event E
  ping_failed : E → Event E
  read : Frame E → Event E

-- What `connect_async` comes to: an error, or a connection from an instant on with its events and
-- their instants.
pub data Connection (E : Type 0) : Type 0 where
  refused : E → Connection E
  established : ℕ → List (ℕ × Event E) → Connection E

-- What the loop of `run` meets: the cancellation, or a connection, with whether the cancellation
-- comes in the backoff after it.
pub data Round (E : Type 0) : Type 0 where
  cancelled : Round E
  connect : Connection E → Bool → Round E

-- Whether `run` has returned, waits for a connection that is open, or is about to connect.
pub data Progress : Type 0 where
  returned listening connecting : Progress

module _ (backoff : Backoff) {E : Type 0} (connection_closed : E) where
  -- `handled` is what the handler was called with, `slept` the times that `run` has waited.
  pub record WebsocketSubscriber : Type 0 where
    pub backoff_state : backoff.State
    pub options : SubscriberOptions
    pub metrics : Metrics
    pub handled : List (List ℕ)
    pub slept : List ℕ

  unfoldable pub new : SubscriberOptions → WebsocketSubscriber
  new options = record {
    backoff_state = backoff.new options.backoff_initial_interval options.max_backoff_interval;
    options = options;
    metrics = no_metrics;
    handled = [];
    slept = [];
  }

  abbrev pub handle : List ℕ → WebsocketSubscriber → WebsocketSubscriber
  handle bytes s = record s {
    handled = s.handled ++ (bytes ∷ []);
    metrics = record (s.metrics) { messages_received = s.metrics.messages_received + 1 };
  }

  -- `handle_message` at an instant: its result, the deadline for the next pong, and the subscriber.
  unfoldable pub handle_message :
      Message → ℕ → ℕ → WebsocketSubscriber → Result E (Unit {0}) × ℕ × WebsocketSubscriber
  handle_message (text bytes) now pong_deadline s = (ok tt, pong_deadline, handle bytes s)
  handle_message (binary bytes) now pong_deadline s = (ok tt, pong_deadline, handle bytes s)
  handle_message (pong bytes) now pong_deadline s = (ok tt, now + s.options.pong_timeout, s)
  handle_message close now pong_deadline s = (err connection_closed, pong_deadline, s)
  handle_message (ping bytes) now pong_deadline s = (ok tt, pong_deadline, s)

  -- The loop of `connect_and_listen`: its result, none while it goes on.
  unfoldable pub listen :
      List (ℕ × Event E)
      → ℕ
      → WebsocketSubscriber
      → Option (Result E (Unit {0})) × WebsocketSubscriber
  unfolding handle_message
  listen [] pong_deadline s = (none, s)
  listen ((now, deadline_check) ∷ es) pong_deadline s =
      let rest = listen es pong_deadline s in
      if leb pong_deadline now then (some (err connection_closed), s) else rest
  listen ((now, ping_failed e) ∷ es) pong_deadline s = (some (err e), s)
  listen ((now, read ended) ∷ es) pong_deadline s = (some (ok tt), s)
  listen ((now, read (failure e)) ∷ es) pong_deadline s = (some (err e), s)
  listen ((now, read (message m)) ∷ es) pong_deadline s =
      let handled_message = handle_message m now pong_deadline s in
      let rest = listen es handled_message.1 handled_message.2 in
      elim handled_message.0 [ ok u ↦ rest | err e ↦ (some (err e), handled_message.2) ]

  abbrev pub attempted : WebsocketSubscriber → WebsocketSubscriber
  attempted s = record s {
    metrics = record (s.metrics) {
      upstream_connection_attempts = s.metrics.upstream_connection_attempts + 1;
    };
  }

  abbrev pub connected : WebsocketSubscriber → WebsocketSubscriber
  connected s = record s {
    metrics = record (s.metrics) {
      upstream_connection_successes = s.metrics.upstream_connection_successes + 1;
      upstream_connections_up = s.metrics.upstream_connections_up + 1;
    };
    backoff_state = backoff.reset s.backoff_state;
  }

  abbrev pub not_connected : WebsocketSubscriber → WebsocketSubscriber
  not_connected s = record s {
    metrics = record (s.metrics) {
      upstream_connection_failures = s.metrics.upstream_connection_failures + 1;
    };
  }

  unfoldable pub connect_and_listen :
      Connection E → WebsocketSubscriber → Option (Result E (Unit {0})) × WebsocketSubscriber
  unfolding listen
  connect_and_listen (refused e) s = (some (err e), not_connected (attempted s))
  connect_and_listen (established now es) s =
      listen es (now + s.options.initial_grace_period) (connected (attempted s))

  abbrev pub failed : WebsocketSubscriber → WebsocketSubscriber
  failed s = record s {
    metrics = record (s.metrics) {
      upstream_errors = s.metrics.upstream_errors + 1;
      upstream_connections_down = s.metrics.upstream_connections_down + 1;
    };
  }

  abbrev pub waited : ℕ → WebsocketSubscriber → WebsocketSubscriber
  waited duration s = record s { slept = s.slept ++ (duration ∷ []) }

  abbrev pub back_off : WebsocketSubscriber → Option ℕ × WebsocketSubscriber
  back_off s = (
    (backoff.next_backoff s.backoff_state).0,
    record s { backoff_state = (backoff.next_backoff s.backoff_state).1 },
  )

  -- The loop of `run` from what a connection came to: `rest` is what it does from a subscriber on.
  abbrev pub after_backoff :
      Option ℕ
      → Bool
      → (WebsocketSubscriber → Progress × WebsocketSubscriber)
      → WebsocketSubscriber
      → Progress × WebsocketSubscriber
  after_backoff none is_cancelled rest s = rest s
  after_backoff (some duration) is_cancelled rest s =
      if is_cancelled then (returned, s) else rest (waited duration s)

  abbrev pub after :
      Option (Result E (Unit {0})) × WebsocketSubscriber
      → Bool
      → (WebsocketSubscriber → Progress × WebsocketSubscriber)
      → Progress × WebsocketSubscriber
  after (none, s) is_cancelled rest = (listening, s)
  after (some (ok u), s) is_cancelled rest = rest s
  after (some (err e), s) is_cancelled rest =
      after_backoff (back_off (failed s)).0 is_cancelled rest (back_off (failed s)).1

  unfoldable pub run : List (Round E) → WebsocketSubscriber → Progress × WebsocketSubscriber
  unfolding connect_and_listen
  run [] s = (connecting, s)
  run (cancelled ∷ rs) s = (returned, s)
  run (connect c is_cancelled ∷ rs) s = after (connect_and_listen c s) is_cancelled (run rs)
