-- ===== src/Tests/Proxying.antt =====
-- The theorems on the server of the WebSocket proxy and on counting in Redis.
use rollup_boost.Prelude.{
  string_eq, ℕ, ◌≡◌, refl, true, false, List, [], ◌∷◌, Option, none, some, err, arith, nat_eq,
  String, All, Any,
}
use rollup_boost.Prelude.Keys
use rollup_boost.Auth.{get_application_for_key, Text, Authentication}
use rollup_boost.RateLimit.{try_acquire, acquire_ip, acquire_app}
use rollup_boost.RateLimit
use rollup_boost.RateLimit.Release
use rollup_boost.RateLimit.Redis.{
  Refusal, app_limit_reached, connections_key, ip_word, part, count_both, count_ip, count_app,
  count_one, total,
}
use rollup_boost.RateLimit.Redis
use rollup_boost.RateLimit.Redis.Commands.{RedisEnv, incr}
use rollup_boost.RateLimit.Redis.Keys.{part-ipv6_key}
use rollup_boost.RateLimit.Redis.Leaks.{IsNoDecr, redis_refusal_leaks}
use rollup_boost.WsProxy.Server.{
  ServerState, Event, request, finished, ws_key, trim, unwrap_or, extract_addr,
}
use rollup_boost.WsProxy.Server
use rollup_boost.WsProxy.Server.Address.{last_address_counts}
use rollup_boost.WsProxy.Server.Admission.{run-refines}
use rollup_boost.Tests.Samples.{permits}

-- Headers are texts as they stand, an address is its first character.
abbrev to_str : List ℕ → Option Text
to_str bytes = some bytes

abbrev parse_ip : Text → Option ℕ
parse_ip [] = none
parse_ip (c ∷ cs) = some c

abbrev name : Text → String
name t = "app"

-- The key `k` for the application `a`.
abbrev keyring : Authentication
keyring = record {
  key_to_application = ((107 ∷ []), (97 ∷ [])) ∷ [];
  app_to_rate_limit = ((97 ∷ []), 2) ∷ [];
}

abbrev server : ServerState permits to_str parse_ip name
server =
    Server.new permits to_str parse_ip name (RateLimit.new permits 3 2 (("app", 2) ∷ []))
      (some keyring)

abbrev history : List (Event permits to_str parse_ip name)
history = request (ws_key (107 ∷ [])) 1 none ∷ request (ws_key (108 ∷ [])) 1 none ∷ finished 0 ∷ []

last_address_counts_example :
    extract_addr permits to_str parse_ip name (49 ∷ 44 ∷ 32 ∷ 50 ∷ []) 7
    ≡ unwrap_or (parse_ip (trim (32 ∷ 50 ∷ []))) 7
last_address_counts_example =
    last_address_counts to_str parse_ip name permits 49 (44 ∷ 32 ∷ 50 ∷ []) (49 ∷ []) (32 ∷ 50 ∷ [])
      7 refl (ground arith)

-- One client connects for the application; the other's key is nobody's.
run-refines_example :
    ((
      (Server.run permits to_str parse_ip name history (server, [])).0.rate_limiter,
      (Server.run permits to_str parse_ip name history (server, [])).1,
    )
      ≡ Release.run permits
          (Release.connect 1 (some "app") ∷ Release.disconnect 0 ∷ [])
          (server.rate_limiter, []))
    × ((Server.run permits to_str parse_ip name history (server, [])).0.authentication
        ≡ some keyring)
unfolding Server.new get_application_for_key Keys.get
run-refines_example = run-refines permits to_str parse_ip name history (server, [])

abbrev two : ℕ
two = 2

-- A Redis that finds a counter of another instance, under whatever pattern.
abbrev redis : RedisEnv
redis = record {
  connects = λ log. true;
  found = λ pattern_text log. some (connections_key (112 ∷ []) ip_word (49 ∷ []) (106 ∷ []) ∷ []);
  count = λ key log. none;
  succeeds = λ c log. true;
}

abbrev limiter : Redis.Limiter permits redis
limiter = record {
  instance_limit = 3;
  per_ip_limit = 2;
  per_app_limit = [];
  semaphore = 3;
  key_prefix = 112 ∷ [];
  instance_id = 105 ∷ [];
  heartbeat_ttl = 30;
  background_tasks_started = false;
}

app_refused :
    (Redis.try_acquire permits redis (49 ∷ []) (some (97 ∷ [])) limiter []).0
    ≡ err app_limit_reached
unfolding Redis.try_acquire count_both count_ip count_app count_one total Keys.get
app_refused = refl

redis_refusal_leaks_example :
    Any
      (λ c. c ≡ incr (connections_key (112 ∷ []) ip_word (49 ∷ []) (105 ∷ [])))
      (Redis.try_acquire permits redis (49 ∷ []) (some (97 ∷ [])) limiter []).2
    × All
        (λ c. IsNoDecr c)
        (Redis.try_acquire permits redis (49 ∷ []) (some (97 ∷ [])) limiter []).2
redis_refusal_leaks_example =
    redis_refusal_leaks permits redis (49 ∷ []) (some (97 ∷ [])) limiter (omega arith) app_refused

-- The address `::1`.
part-ipv6_key_example :
    part 4 (connections_key (112 ∷ []) ip_word (58 ∷ 58 ∷ 49 ∷ []) (105 ∷ [])) ≡ some (49 ∷ [])
part-ipv6_key_example =
    part-ipv6_key (112 ∷ []) ip_word [] [] (49 ∷ []) (105 ∷ []) [] (ground arith) (ground arith) tt
      tt (ground arith)
