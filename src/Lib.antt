-- ===== src/Lib.antt =====
-- Verification of rollup-boost.
--
-- rollup-boost stands between a consensus client and two execution clients, the L2 client and an
-- external block builder. It forwards the Engine API to both, lets the L2 client validate what the
-- builder makes, and falls back to the L2 client's block. In flashblocks mode the builder's block
-- comes in parts over a WebSocket and is put together here. A WebSocket proxy with rate limits hands
-- flashblocks on to clients.
--
-- The files:
--   Prelude        shared names, lists, results, keys and maps.
--   Engine         the structs of alloy and op-alloy, with the fields that the code touches.
--   Payload        crates/rollup-boost-types/src/payload.rs: envelopes (version, gas_used,
--                  transactions, payload_attributes), requests and the conversions; Payload/Trace is
--                  PayloadTraceContext (store, has_builder_payload, remove_by_parent_hash).
--   Flashblocks    crates/rollup-boost-types/src/flashblocks.rs, and FlashblockBuilder of
--                  crates/rollup-boost/src/flashblocks/service.rs (extend, build_envelope);
--                  Flashblocks/Service is FlashblocksService (get_best_payload,
--                  set_current_payload_id, on_event), and Service/Locks its sections under the
--                  locks and the engine calls over them; Flashblocks/Inbound is
--                  crates/rollup-boost/src/flashblocks/inbound.rs (connect_and_handle, run), and
--                  Flashblocks/Outbound is outbound.rs (publish, listener_loop, broadcast_loop).
--   Rpc            crates/rollup-boost/src/client/rpc.rs: what RpcClient makes of replies.
--   Selection      crates/rollup-boost/src/selection.rs: select_block.
--   Probe          crates/rollup-boost/src/probe.rs: Health and the probe endpoints.
--   Health         crates/rollup-boost/src/health.rs: a round of the check loop (check) and
--                  MonotonicTimestamp (tick); Health/Loop is the loop (spawn) before the probe.
--   Server         crates/rollup-boost/src/server.rs: the state of RollupBoostServer and how handlers
--                  run; Server/Handlers has fork_choice_updated_v3, new_payload and
--                  get_block_by_number, Server/GetPayload has get_payload with
--                  calculate_external_state_root; Server/Debug is the debug API of debug_api.rs;
--                  Server/WithFlashblocks is the server with FlashblocksService as its builder, and
--                  Server/Launch how a server comes up (new_from_args, cli.rs, the launcher of
--                  flashblocks/launcher.rs).
--   Proxy          crates/rollup-boost/src/proxy.rs: where ProxyService::call sends a request; Proxy/Clients
--                  puts it over the two HTTP clients (into_buffered_request, call).
--   Http           crates/rollup-boost/src/client/http.rs (forward, parse_response_code), auth.rs
--                  (AuthService::call) and the ClientArgs of rpc.rs.
--   Auth           crates/websocket-proxy/src/auth.rs: the arguments of API keys (try_from) and the
--                  lookup of keys and limits.
--   RateLimit      crates/websocket-proxy/src/rate_limit.rs: InMemoryRateLimit (try_acquire, release,
--                  the drop of a ticket); RateLimit/Redis is RedisRateLimit (try_acquire, release,
--                  update_heartbeat, cleanup_stale_instances) over commands and replies.
--   Sockets        the frames of a WebSocket and what the library backoff provides.
--   WsProxy        crates/websocket-proxy/src: WsProxy/Server is server.rs (the routes and handlers),
--                  WsProxy/Registry registry.rs (subscribe, start_reader), WsProxy/Subscriber
--                  subscriber.rs (run, connect_and_listen, handle_message), WsProxy/Labels
--                  parse_global_metrics, WsProxy/Relay the listener and WsProxy/Start the rest of
--                  main.rs.
--   FlashblocksRpc crates/flashblocks-rpc/src: FlashblocksRpc/Cache is cache.rs (process_payload and
--                  the getters), FlashblocksRpc/Served its get_block, FlashblocksRpc/Override rpc.rs,
--                  FlashblocksRpc/Overlay flashblocks.rs (start, try_decode_message).
--   Tests          the theorems at concrete inputs.
--
-- How they interact: Server asks the L2 client through Rpc and the builder through an environment that
-- may stand for RpcClient or FlashblocksService, records in Payload/Trace which ids the builder works
-- on, chooses by Selection and reports through Probe. WsProxy/Server asks Auth for the application of a
-- key and RateLimit for a ticket before it opens a WebSocket, which WsProxy/Registry then serves.
-- FlashblocksRpc/Cache puts flashblocks together with the FlashblockBuilder of Flashblocks.
--
-- A handler is a function of the server's state. It returns, fails with an error object, or panics
-- (Outcome). It runs alone: what other tasks do to the execution mode and to the health while it waits
-- for a call is part of the environment Env, as are the replies of both clients and the order in which
-- the futures of a join! run, all of them arbitrary functions of the calls made so far. Of a join! the
-- two orders in which one future runs after the other are modelled. A spawned task is its call in the
-- list of calls. FlashblocksService takes a lock for each access to its id and to its builder: in
-- Flashblocks/Service/Locks what stands under one lock is one step, an operation is its steps with what
-- other tasks do in its gaps, and the steps come in any order, but that the receiving task handles one
-- flashblock at a time. The functions of Flashblocks/Service that join two steps are those where nothing
-- comes between.
--
-- A task that waits in select! is a function of the events that it meets, in the order of the branches
-- taken, with their instants where it looks at the time: the order and the contents are arbitrary, so
-- that every interleaving is one of the lists. Timers are looked at by events of their own. A
-- connection that is still open is a list that ends without an error. Redis is an environment whose
-- replies depend on the commands sent before in any way, so that the commands of other instances in
-- between are among them.
--
-- Hashes, addresses, byte strings and 256-bit words are carried and compared only, and stand as
-- numbers; so do the texts of errors. The texts that API keys and the proxy take apart are lists of
-- code points. Counters of connections stay within their limits, so that usize does not wrap;
-- timestamps are seconds in u64 and are taken not to reach its end. No loop of the code needs fuel
-- here: each takes one event of its list at a time. The libraries below the code are parameters with
-- what they document: moka's caches (CacheOps, which may drop entries), DashMap (MapOps), tokio's
-- semaphore (Semaphore), f64 (Float), payload_id_optimism of reth, the HTTP clients of the proxy
-- (Services, HttpEnv, with what tower-http's layer for compressed bodies does to requests and
-- responses), blocks, transactions and receipts of reth and alloy (Chain), the backoff (Backoff),
-- and the parsing of JSON, of addresses and of UUIDs.
--
-- Not modelled: the connections below the HTTP clients, the servers that rollup-boost starts for HTTP
-- and metrics, metrics but for the counters named above, tracing and the parsing of the command line.
pub mod Prelude
pub mod Engine
pub mod Payload
pub mod Flashblocks
pub mod Auth
pub mod Proxy
pub mod Http
pub mod RateLimit
pub mod Rpc
pub mod Probe
pub mod FlashblocksRpc
pub mod Health
pub mod Selection
pub mod Server
pub mod Tests
pub mod Sockets
pub mod WsProxy
