-- ===== src/Server/Launch.antt =====
-- How the server comes up: `new` and both `new_from_args` of crates/rollup-boost/src/server.rs,
-- `Flashblocks::run` of flashblocks/launcher.rs, and the choice between them in cli.rs. Reading the
-- command line, files and addresses, and opening sockets are parameters.
pub mod Fresh
use rollup_boost.Prelude.{
  ℕ, Bool, true, false, not, List, [], ◌∷◌, Option, none, some, Result, ok, err, if◌then◌else◌, ◌≡◌,
  refl, arith, Bool-cases, inl, inr, sym, ap, ◌∙◌, subst, nat_eq, ◌⊎◌,
}
use rollup_boost.Prelude.Attempt.{
  Attempt, done, failed, ◌>>=◌, try_result, >>=-eq-done, try_result-eq-done,
}
use rollup_boost.Auth.{Text}
use rollup_boost.Engine.{PayloadId}
use rollup_boost.Payload.{PayloadVersion, OpExecutionPayloadEnvelope, PayloadSource, l2, builder}
use rollup_boost.Payload.Trace.{has_builder_payload}
use rollup_boost.Payload.Trace
use rollup_boost.Probe.{healthy}
use rollup_boost.Flashblocks.Inbound.{FlashblocksWebsocketConfig}
use rollup_boost.Http.{ClientArgs, get_auth_jwt}
use rollup_boost.Selection.{BlockSelectionPolicy}
use rollup_boost.Server.{Deps, Env, Call, RollupBoostServer, ExecutionMode, is_disabled, and_then}
use rollup_boost.Server
use rollup_boost.Server.Approval.{l2_payload}
use rollup_boost.Server.Handlers.{BuilderPayloadResult, l2_get_payload}
use rollup_boost.Server.GetPayload.{
  get_payload, get_payload_l2_only, get_payload_both, builder_part, l2_payload_or_unavailable,
  settle, fall_back,
}

pub record FlashblocksArgs : Type 0 where
  pub flashblocks : Bool
  pub flashblocks_builder_url : Text
  pub flashblocks_host : Text
  pub flashblocks_port : ℕ
  pub flashblocks_ws_config : FlashblocksWebsocketConfig

pub record RollupBoostLibArgs : Type 0 where
  pub builder : ClientArgs
  pub l2_client : ClientArgs
  pub execution_mode : ExecutionMode
  pub block_selection_policy : Option BlockSelectionPolicy
  pub external_state_root : Bool
  pub ignore_unhealthy_builders : Bool
  pub flashblocks : FlashblocksArgs

-- A client by the URL, the secret and the timeout it is made from.
pub record RpcClient : Type 0 where
  pub url : Text
  pub secret : ℕ
  pub timeout : ℕ
  pub source : PayloadSource

-- The builder of a server: the client itself, or the service before it, with what it listens to
-- and where it publishes.
pub data BuilderClient : Type 0 where
  rpc_client : RpcClient → BuilderClient
  flashblocks_service : RpcClient → Text → ℕ × ℕ → FlashblocksWebsocketConfig → BuilderClient

-- Reading a secret from a file, building a client, reading an address, and binding a socket; the
-- errors of the code itself.
pub record Libraries (E : Type 0) : Type 0 where
  pub from_file : Text → Result E ℕ
  pub missing_secret : E
  pub builds : RpcClient → Result E (Unit {0})
  pub parse_host : Text → Result E ℕ
  pub binds : ℕ × ℕ → Result E (Unit {0})
  pub flashblocks_off : E
  pub flashblocks_on : E

abbrev pub same : {A : Type 0} → A → A
same a = a

module _ (d : Deps) {E : Type 0} (lib : Libraries E) where
  pub record Launched : Type 0 where
    pub l2_client : RpcClient
    pub builder_client : BuilderClient
    pub server : RollupBoostServer d

  unfoldable pub new_rpc_client : PayloadSource → ClientArgs → Attempt E RpcClient
  unfolding get_auth_jwt
  new_rpc_client source args = do
    secret ← try_result same (get_auth_jwt lib.from_file lib.missing_secret args)
    let client : RpcClient = (record {
      url = args.url;
      secret = secret;
      timeout = args.timeout;
      source = source;
    })
    _ ← try_result same (lib.builds client)
    done client

  -- `RollupBoostServer::new`; the health is the default one of the probes.
  unfoldable pub new : RollupBoostLibArgs → RollupBoostServer d
  unfolding Trace.new
  new args = record {
    execution_mode = args.execution_mode;
    block_selection_policy = args.block_selection_policy;
    external_state_root = args.external_state_root;
    ignore_unhealthy_builders = args.ignore_unhealthy_builders;
    health = healthy;
    payload_trace_context = Trace.new d.hashes d.ids;
    payload_to_fcu_request = d.requests.empty;
    calls = [];
  }

  -- `Flashblocks::run`.
  unfoldable pub run_flashblocks :
      RpcClient → Text → ℕ × ℕ → FlashblocksWebsocketConfig → Attempt E BuilderClient
  run_flashblocks client inbound_url outbound_addr config = do
    _ ← try_result same (lib.binds outbound_addr)
    done (flashblocks_service client inbound_url outbound_addr config)

  abbrev pub ensure : Bool → E → Attempt E (Unit {0})
  ensure true e = done tt
  ensure false e = failed e

  -- `RollupBoostServer::<FlashblocksService>::new_from_args`.
  unfoldable pub new_from_args_with_flashblocks : RollupBoostLibArgs → Attempt E Launched
  unfolding new_rpc_client run_flashblocks new
  new_from_args_with_flashblocks args = do
    _ ← ensure args.flashblocks.flashblocks lib.flashblocks_off
    l2_client ← new_rpc_client l2 args.l2_client
    builder_client ← new_rpc_client builder args.builder
    host ← try_result same (lib.parse_host args.flashblocks.flashblocks_host)
    service ←
        run_flashblocks builder_client args.flashblocks.flashblocks_builder_url
          (host, args.flashblocks.flashblocks_port) args.flashblocks.flashblocks_ws_config
    done (record { l2_client = l2_client; builder_client = service; server = new args })

  -- `RollupBoostServer::<RpcClient>::new_from_args`.
  unfoldable pub new_from_args : RollupBoostLibArgs → Attempt E Launched
  unfolding new_rpc_client new
  new_from_args args = do
    _ ← ensure (not args.flashblocks.flashblocks) lib.flashblocks_on
    l2_client ← new_rpc_client l2 args.l2_client
    builder_client ← new_rpc_client builder args.builder
    done (record {
      l2_client = l2_client;
      builder_client = rpc_client builder_client;
      server = new args;
    })

  -- The server that `RollupBoostServiceArgs::run` makes.
  unfoldable pub launch : RollupBoostLibArgs → Attempt E Launched
  unfolding new_from_args_with_flashblocks new_from_args
  launch args =
      if args.flashblocks.flashblocks
      then new_from_args_with_flashblocks args
      else new_from_args args
