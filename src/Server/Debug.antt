-- ===== src/Server/Debug.antt =====
-- The debug API of crates/rollup-boost/src/debug_api.rs, which reads and sets the execution mode that
-- the server's handlers read.
use rollup_boost.Prelude.{◌≡◌, refl, ◌∷◌}
use rollup_boost.Engine.{PayloadId}
use rollup_boost.Payload.{PayloadVersion, NewPayload, l2}
use rollup_boost.Server.{Deps, Env, Call, RollupBoostServer, ExecutionMode, disabled}
use rollup_boost.Server.Handlers.{new_payload}
use rollup_boost.Server.GetPayload.{get_payload}
use rollup_boost.Server.Modes.{disabled_asks_l2_only}

module _ (d : Deps) (env : Env) where
  -- A request's mode is set and answered.
  unfoldable pub set_execution_mode :
      ExecutionMode → RollupBoostServer d → ExecutionMode × RollupBoostServer d
  set_execution_mode mode s = (mode, record s { execution_mode = mode })

  unfoldable pub get_execution_mode : RollupBoostServer d → ExecutionMode
  get_execution_mode s = s.execution_mode

  -- The mode that was set is the one that is read, and once it is set to disabled, requests for
  -- payloads and new payloads go to the L2 client alone.
  pub disabled_from_now :
      (id : PayloadId) (v : PayloadVersion) (p : NewPayload) (s : RollupBoostServer d)
      → let t = (set_execution_mode disabled s).1 in
        (get_execution_mode t ≡ disabled)
        × ((get_payload d env id v t).1.calls ≡ Call.get_payload l2 id v ∷ s.calls)
        × ((new_payload d env p t).1.calls ≡ Call.new_payload l2 p ∷ s.calls)
  unfolding set_execution_mode get_execution_mode
  disabled_from_now id v p s =
      let t = (set_execution_mode disabled s).1 in
      let (asked, told) = disabled_asks_l2_only d env id v p t refl in (refl, asked, told)
