-- ===== src/Tests/Launching.antt =====
-- A server that comes up in flashblocks mode.
use rollup_boost.Prelude.{ℕ, ◌≡◌, refl, true, false, [], ◌∷◌, Option, none, some, ok}
use rollup_boost.Prelude.Attempt.{done}
use rollup_boost.Engine.{PayloadId}
use rollup_boost.Payload.{PayloadVersion, l2, builder}
use rollup_boost.Payload.Trace
use rollup_boost.Http.{ClientArgs, get_auth_jwt}
use rollup_boost.Server.{Env, Call, RollupBoostServer, enabled}
use rollup_boost.Server.GetPayload.{get_payload}
use rollup_boost.Server.Launch.{
  RollupBoostLibArgs, Libraries, Launched, flashblocks_service, new_rpc_client, run_flashblocks,
  new_from_args_with_flashblocks, new, launch,
}
use rollup_boost.Server.Launch.Fresh.{IsWired, launched_server}
use rollup_boost.Tests.Samples.{deps}

-- The secret in a file is 7, and everything else succeeds.
abbrev lib : Libraries ℕ
lib = record {
  from_file = λ path. ok 7;
  missing_secret = 0;
  builds = λ c. ok tt;
  parse_host = λ host. ok 1;
  binds = λ addr. ok tt;
  flashblocks_off = 1;
  flashblocks_on = 2;
}

abbrev client_args : ℕ → Option ℕ → ClientArgs
client_args url token = record {
  url = url ∷ [];
  jwt_token = token;
  jwt_path = some [];
  timeout = 1000;
}

abbrev args : RollupBoostLibArgs
args = record {
  builder = client_args 98 none;
  l2_client = client_args 108 (some 5);
  execution_mode = enabled;
  block_selection_policy = none;
  external_state_root = false;
  ignore_unhealthy_builders = false;
  flashblocks = record {
    flashblocks = true;
    flashblocks_builder_url = 119 ∷ [];
    flashblocks_host = [];
    flashblocks_port = 1112;
    flashblocks_ws_config = record {
      initial_reconnect = 10;
      max_reconnect = 5000;
      connect_timeout = 5000;
      ping_interval = 500;
      pong_timeout = 1500;
    };
  };
}

abbrev launched : Launched deps lib
launched = record {
  l2_client = record { url = 108 ∷ []; secret = 5; timeout = 1000; source = l2 };
  builder_client =
      flashblocks_service (record { url = 98 ∷ []; secret = 7; timeout = 1000; source = builder })
        (119 ∷ []) (1, 1112) args.flashblocks.flashblocks_ws_config;
  server = new deps lib args;
}

comes_up : launch deps lib args ≡ done launched
unfolding launch new_from_args_with_flashblocks new_rpc_client run_flashblocks get_auth_jwt new
    Trace.new
comes_up = refl

launched_server_example :
    IsWired deps lib args launched
    × ((env : Env) (id : PayloadId) (v : PayloadVersion) (s : RollupBoostServer deps)
        → (get_payload deps env id v
            (record s { payload_trace_context = launched.server.payload_trace_context })).1.calls
          ≡ Call.get_payload l2 id v ∷ s.calls)
launched_server_example = launched_server deps lib args launched comes_up
