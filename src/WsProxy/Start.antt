-- ===== src/WsProxy/Start.antt =====
-- The start of the WebSocket proxy, `main` of crates/websocket-proxy/src/main.rs: what the arguments
-- make of keys, limits, subscribers and pings. Reading the command line and installing the metrics
-- are libraries, as are the channel, the timer and the client of Redis; a `Uri` is its text.
pub mod Admission
use rollup_boost.Prelude.{
  ℕ, ◌*◌, Bool, true, false, List, [], ◌∷◌, Option, none, some, map, if◌then◌else◌, String,
}
use rollup_boost.Auth.{
  Text, Authentication, Parsed, done, failed, panicked, try_from, get_rate_limits,
}
use rollup_boost.RateLimit.{Semaphore}
use rollup_boost.RateLimit
use rollup_boost.RateLimit.Redis.Commands.{RedisEnv}
use rollup_boost.RateLimit.Redis
use rollup_boost.Sockets.{Message, ping}
use rollup_boost.WsProxy.Subscriber.{
  SubscriberOptions, default_options, with_max_backoff_interval, with_ping_interval,
  with_pong_timeout, with_backoff_initial_interval, with_initial_grace_period,
}

-- The arguments but those for logs and the listening addresses.
pub record Args : Type 0 where
  pub upstream_ws : List Text
  pub message_buffer_size : ℕ
  pub instance_connection_limit : ℕ
  pub per_ip_connection_limit : ℕ
  pub enable_compression : Bool
  pub ip_addr_http_header : Text
  pub api_keys : List Text
  pub subscriber_max_interval_ms : ℕ
  pub subscriber_ping_interval_ms : ℕ
  pub subscriber_pong_timeout_ms : ℕ
  pub redis_url : Option Text
  pub redis_key_prefix : Text
  pub client_ping_enabled : Bool
  pub client_ping_interval_ms : ℕ
  pub client_pong_timeout_ms : ℕ

-- What `main` comes to before it waits.
pub data Start (A : Type 0) : Type 0 where
  started : A → Start A
  died : Start A

infixl 5 ◌>>=◌
abbrev pub ◌>>=◌ : {A B : Type 0} → Start A → (A → Start B) → Start B
started a >>= f = f a
died >>= f = died

abbrev pub assert : Bool → Start (Unit {0})
assert true = started tt
assert false = died

-- `filter(|s| !s.is_empty())`.
unfoldable pub not_empty : List Text → List Text
not_empty [] = []
not_empty ([] ∷ ts) = not_empty ts
not_empty ((c ∷ cs) ∷ ts) = (c ∷ cs) ∷ not_empty ts

abbrev pub accepted : Parsed Authentication → Start (Option Authentication)
accepted (done auth) = started (some auth)
accepted (failed e) = died
accepted panicked = died

abbrev pub authentication_of : List Text → Start (Option Authentication)
authentication_of [] = started none
authentication_of (k ∷ ks) = accepted (try_from (k ∷ ks))

unfoldable pub read_keys : List Text → Start (Option Authentication)
unfolding not_empty try_from
read_keys api_keys = authentication_of (not_empty api_keys)

-- `app_rate_limits`.
abbrev pub limits_of : Option Authentication → List (Text × ℕ)
limits_of none = []
limits_of (some auth) = get_rate_limits auth

-- Whether there is an upstream.
abbrev pub some_upstream : List Text → Bool
some_upstream [] = false
some_upstream (u ∷ us) = true

-- The options of every subscriber.
unfoldable pub subscriber_options : Args → SubscriberOptions
subscriber_options args = with_initial_grace_period (5 * 1000) (
    with_backoff_initial_interval 500 (
      with_pong_timeout args.subscriber_pong_timeout_ms (
        with_ping_interval args.subscriber_ping_interval_ms
          (with_max_backoff_interval args.subscriber_max_interval_ms default_options))))

-- What the ping sender meets: a tick, or the cancellation.
pub data PingEvent : Type 0 where
  tick cancelled : PingEvent

unfoldable pub send_pings : List PingEvent → List Message × Bool
send_pings [] = ([], false)
send_pings (cancelled ∷ es) = ([], true)
send_pings (tick ∷ es) = let rest = send_pings es in (ping [] ∷ rest.0, rest.1)

-- The ping task: what it sends to the channel, and whether it has ended. A timer may refuse its
-- period, which ends the task; one that is disabled never ends.
unfoldable pub ping_task : (ℕ → Bool) → Args → List PingEvent → List Message × Bool
unfolding send_pings
ping_task timer_runs args es =
    if args.client_ping_enabled
    then (if timer_runs args.client_ping_interval_ms then send_pings es else ([], true))
    else ([], false)

-- The libraries: whether the metrics are set up, whether a channel may have a capacity, and whether
-- a URL makes a client of Redis; the id is the new instance's. `name` gives the string of a text.
pub record Libraries : Type 0 where
  pub installs_metrics : Bool
  pub channel_holds : ℕ → Bool
  pub opens : Text → Bool
  pub instance_id : Text
  pub name : Text → String

module _ (sem : Semaphore) (redis : RedisEnv) (lib : Libraries) where
  pub data RateLimiter : Type 0 where
    in_memory : RateLimit.Limiter sem → RateLimiter
    in_redis : Redis.Limiter sem redis → RateLimiter

  -- A subscriber of each upstream has these options; the listener compresses or not.
  pub record Proxy : Type 0 where
    pub subscribers : List (Text × SubscriberOptions)
    pub compresses : Bool
    pub channel_capacity : ℕ
    pub pings_clients : Bool
    pub pong_timeout : ℕ
    pub rate_limiter : RateLimiter
    pub authentication : Option Authentication
    pub ip_addr_http_header : Text

  abbrev pub named_limits : List (Text × ℕ) → List (String × ℕ)
  named_limits = map (λ e. (lib.name e.0, e.1))

  abbrev pub memory_limiter : Args → List (Text × ℕ) → RateLimiter
  memory_limiter args limits = in_memory (
      RateLimit.new sem args.instance_connection_limit args.per_ip_connection_limit
        (named_limits limits))

  abbrev pub limiter_at : Option Text → Args → List (Text × ℕ) → RateLimiter
  limiter_at none args limits = memory_limiter args limits
  limiter_at (some redis_url) args limits =
      if lib.opens redis_url
      then in_redis (
          Redis.new sem redis args.instance_connection_limit args.per_ip_connection_limit limits
            args.redis_key_prefix lib.instance_id)
      else memory_limiter args limits

  -- The limiter: of Redis where there is a URL for it that makes a client, else in memory.
  unfoldable pub rate_limiter_of : Args → List (Text × ℕ) → RateLimiter
  rate_limiter_of args limits = limiter_at args.redis_url args limits

  abbrev pub assembled : Args → Option Authentication → Proxy
  assembled args auth = record {
    subscribers = map (λ uri. (uri, subscriber_options args)) args.upstream_ws;
    compresses = args.enable_compression;
    channel_capacity = args.message_buffer_size;
    pings_clients = args.client_ping_enabled;
    pong_timeout = args.client_pong_timeout_ms;
    rate_limiter = rate_limiter_of args (limits_of auth);
    authentication = auth;
    ip_addr_http_header = args.ip_addr_http_header;
  }

  -- `main`, up to where it waits for the tasks.
  unfoldable pub start : Args → Start Proxy
  unfolding read_keys rate_limiter_of subscriber_options
  start args = do
    auth ← read_keys args.api_keys
    _ ← assert lib.installs_metrics
    _ ← assert (some_upstream args.upstream_ws)
    _ ← assert (lib.channel_holds args.message_buffer_size)
    started (assembled args auth)
