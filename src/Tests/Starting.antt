-- ===== src/Tests/Starting.antt =====
-- The proxy started with the key `k` for the application `a`, which may have two sockets.
use rollup_boost.Prelude.{
  ℕ, zero, suc, ◌≤◌, ◌≡◌, ◌≢◌, ◌⊎◌, inl, inr, refl, true, false, List, [], ◌∷◌, Option, none, some,
  All, String, string_eq, length, ap, arith,
}
use rollup_boost.Prelude.Keys
use rollup_boost.Auth.{
  Text, Authentication, parse, split, try_from, read_all, read_argument, read_parts, read_key,
  read_rest, enter, none_read, get_rate_limits, text_eq,
}
use rollup_boost.RateLimit
use rollup_boost.RateLimit.Bounds.{live_ip, live_app}
use rollup_boost.RateLimit.Redis.Commands.{RedisEnv}
use rollup_boost.WsProxy.Server.{Event, request, ws_key}
use rollup_boost.WsProxy.Server.Keys.{HasKey}
use rollup_boost.WsProxy.Start.{
  Args, started, Libraries, Proxy, in_memory, start, read_keys, not_empty, rate_limiter_of,
  subscriber_options,
}
use rollup_boost.WsProxy.Start.Admission.{sockets, argument_limits_hold}
use rollup_boost.Tests.Samples.{permits}
use Prim.Native.Char.{code}

-- A name for each text: every number as that many `a`s and a `b`.
abbrev put : ℕ → String → String
put zero s = String.◌∷◌ "b" s
put (suc n) s = String.◌∷◌ "a" (put n s)

abbrev name : Text → String
name [] = ""
name (c ∷ cs) = put c (name cs)

abbrev first_code : String → ℕ
first_code String.[] = 0
first_code (String.◌∷◌ c s) = code c

put-distinct : (m n : ℕ) (s t : String) → put m s ≡ put n t → (m ≡ n) × (s ≡ t)
put-distinct zero zero s t h = (refl, cc)
put-distinct zero (suc n) s t h = absurd (let bad : 98 ≡ 97 = ap first_code h in omega (arith, bad))
put-distinct (suc m) zero s t h = absurd (let bad : 97 ≡ 98 = ap first_code h in omega (arith, bad))
put-distinct (suc m) (suc n) s t h = let (e, k) = put-distinct m n s t cc in (ap suc e, k)

put_full : (n : ℕ) (s : String) → put n s ≢ ""
put_full zero s = λ e. absurd cc
put_full (suc n) s = λ e. absurd cc

name-distinct : (s t : Text) → name s ≡ name t → s ≡ t
name-distinct [] [] h = refl
name-distinct [] (c ∷ cs) h = absurd (put_full c (name cs) cc)
name-distinct (c ∷ cs) [] h = absurd (put_full c (name cs) h)
name-distinct (c ∷ cs) (d ∷ ds) h =
    let (e, k) = put-distinct c d (name cs) (name ds) h in let tail = name-distinct cs ds k in cc

abbrev redis : RedisEnv
redis = record {
  connects = λ log. false;
  found = λ p log. none;
  count = λ k log. none;
  succeeds = λ c log. false;
}

abbrev lib : Libraries
lib = record {
  installs_metrics = true;
  channel_holds = λ n. true;
  opens = λ url. false;
  instance_id = [];
  name = name;
}

-- "a:k:2" next to an empty argument, and a URL of Redis that is none.
abbrev pub args : Args
args = record {
  upstream_ws = (117 ∷ []) ∷ [];
  message_buffer_size = 20;
  instance_connection_limit = 3;
  per_ip_connection_limit = 2;
  enable_compression = false;
  ip_addr_http_header = [];
  api_keys = [] ∷ (97 ∷ 58 ∷ 107 ∷ 58 ∷ 50 ∷ []) ∷ [];
  subscriber_max_interval_ms = 20000;
  subscriber_ping_interval_ms = 2000;
  subscriber_pong_timeout_ms = 4000;
  redis_url = some (120 ∷ []);
  redis_key_prefix = [];
  client_ping_enabled = false;
  client_ping_interval_ms = 15000;
  client_pong_timeout_ms = 30000;
}

abbrev keyring : Authentication
keyring = record {
  key_to_application = (107 ∷ [], 97 ∷ []) ∷ [];
  app_to_rate_limit = (97 ∷ [], 2) ∷ [];
}

abbrev limiter : RateLimit.Limiter permits
limiter = RateLimit.new permits 3 2 ((name (97 ∷ []), 2) ∷ [])

abbrev proxy : Proxy permits redis lib
proxy = record {
  subscribers =
      (
        117 ∷ [],
        record {
          max_backoff_interval = 20000;
          backoff_initial_interval = 500;
          ping_interval = 2000;
          pong_timeout = 4000;
          initial_grace_period = 5000;
        },
      )
      ∷ [];
  compresses = false;
  channel_capacity = 20;
  pings_clients = false;
  pong_timeout = 30000;
  rate_limiter = in_memory limiter;
  authentication = some keyring;
  ip_addr_http_header = [];
}

runs : start permits redis lib args ≡ started proxy
unfolding start read_keys not_empty rate_limiter_of subscriber_options try_from read_all
    read_argument read_parts read_key read_rest enter split parse none_read get_rate_limits Keys.get
    Keys.insert Keys.remove
runs = refl

abbrev to_str : List ℕ → Option Text
to_str bytes = some bytes

abbrev parse_ip : Text → Option ℕ
parse_ip t = none

abbrev history : List (Event permits to_str parse_ip name)
history = request (ws_key (107 ∷ [])) 1 none ∷ request (ws_key (108 ∷ [])) 1 none ∷ []

abbrev a_key : ℕ → Text
a_key c = c ∷ []

no_colon : (c : ℕ) → (c ≢ 58) → All (λ x. x ≢ 58) (a_key c)
no_colon c h = (h, tt)

argument_limits_hold_example :
    let live =
      sockets permits redis lib name-distinct to_str parse_ip limiter (some keyring) history in
    (n : ℕ) × (auth : Authentication) × (parse (50 ∷ []) ≡ some n)
    × (some keyring ≡ some auth)
    × (length live ≤ 3)
    × ((args.per_ip_connection_limit ≡ 0) ⊎ (live_ip 1 live ≤ 2))
    × (live_app (name (97 ∷ [])) live ≤ n)
    × All (λ t. HasKey permits to_str parse_ip name auth t) live
argument_limits_hold_example =
    argument_limits_hold permits redis lib name-distinct to_str parse_ip args proxy limiter history
      1 (97 ∷ []) (107 ∷ []) (50 ∷ []) (no_colon 97 (λ e. ground arith))
      (no_colon 107 (λ e. ground arith)) (no_colon 50 (λ e. ground arith)) (inr (inl refl)) runs
      refl
