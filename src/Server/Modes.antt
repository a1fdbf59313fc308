-- ===== src/Server/Modes.antt =====
-- What the execution modes promise, and `new_payload`
-- (crates/rollup-boost/src/server.rs, crates/rollup-boost/src/debug_api.rs).
use rollup_boost.Prelude.{
  ◌||◌, ◌∷◌, ◌≡◌, arith, if◌then◌else◌, Result, ok, ap, ◌∙◌, sym, subst, nat_eq,
}
use rollup_boost.Engine.{PayloadId}
use rollup_boost.Payload.{
  PayloadVersion, OpExecutionPayloadEnvelope, PayloadSource, NewPayload, l2, builder,
}
use rollup_boost.Rpc.{RpcClientError, ErrorObject}
use rollup_boost.Rpc
use rollup_boost.Server.{
  disabled, dry_run, is_disabled, Deps, Call, Env, RollupBoostServer, done, and_then, and_then-done,
  attempt, join, should_skip_unhealthy_builder,
}
use rollup_boost.Server.Handlers.{BuilderPayloadResult, l2_get_payload, new_payload}
use rollup_boost.Server.Keeps.{
  IsStable, Keeps-join, Keeps-attempt, Keeps-l2_get_payload, Keeps-builder_part,
}
use rollup_boost.Server.Forkchoice.{answer}
use rollup_boost.Server.GetPayload.{
  builder_part, chosen, select_payload, fall_back, get_payload_l2_only, get_payload_both,
  get_payload, l2_payload_or_unavailable, settle,
}

module _ (d : Deps) (env : Env) where
  -- `new_payload` is answered by the L2 client, and the builder is told too unless the mode is
  -- disabled or the builder is skipped as unhealthy; its answer is not waited for.
  pub new_payload_l2_answers :
      (p : NewPayload) (s : RollupBoostServer d)
      → let told =
          (if is_disabled s.execution_mode || should_skip_unhealthy_builder d s
            then s.calls
            else Call.new_payload builder p ∷ s.calls) in
        ((new_payload d env p s).0 ≡ answer (Rpc.new_payload (env.l2_new_payload told p)))
        × ((new_payload d env p s).1.calls ≡ Call.new_payload l2 p ∷ told)
  unfolding new_payload
  new_payload_l2_answers p s = ground arith

  l2_only_calls :
      (id : PayloadId) (v : PayloadVersion) (s : RollupBoostServer d)
      → (get_payload_l2_only d env id v s).1.calls ≡ Call.get_payload l2 id v ∷ s.calls
  unfolding get_payload_l2_only l2_payload_or_unavailable
  l2_only_calls id v s = ground arith

  -- In disabled mode a request for a payload is answered by the L2 client alone, and so is a new
  -- payload: no call of the builder is made.
  pub disabled_asks_l2_only :
      (id : PayloadId) (v : PayloadVersion) (p : NewPayload) (s : RollupBoostServer d)
      → s.execution_mode ≡ disabled
      → ((get_payload d env id v s).1.calls ≡ Call.get_payload l2 id v ∷ s.calls)
        × ((new_payload d env p s).1.calls ≡ Call.new_payload l2 p ∷ s.calls)
  unfolding get_payload new_payload
  disabled_asks_l2_only id v p s h = (ground (arith, l2_only_calls id v s), ground arith)

  settled_dry :
      (r : Result RpcClientError OpExecutionPayloadEnvelope)
      (b : Result ErrorObject BuilderPayloadResult) (u : RollupBoostServer d)
      (p : OpExecutionPayloadEnvelope) (source : PayloadSource)
      → u.execution_mode ≡ dry_run
      → (and_then (l2_payload_or_unavailable d env r u) (λ l. settle d env l b)).0
        ≡ done (p, source)
      → (source ≡ l2) × (r ≡ ok p)
  unfolding l2_payload_or_unavailable select_payload chosen fall_back
  settled_dry r b u p source m h = ground arith

  -- In dry-run mode, if nobody sets the mode meanwhile, a payload that is returned is the L2 client's.
  pub dry_run_returns_l2 :
      (id : PayloadId) (v : PayloadVersion) (s : RollupBoostServer d)
      (p : OpExecutionPayloadEnvelope) (source : PayloadSource)
      → IsStable d env
      → s.execution_mode ≡ dry_run
      → (get_payload d env id v s).0 ≡ done (p, source)
      → source ≡ l2
  unfolding get_payload get_payload_both
  dry_run_returns_l2 id v s p source stable m h =
      let both : (get_payload_both d env id v s).0 ≡ done (p, source) =
        (subst
          (λ x.
            (if is_disabled x
              then get_payload_l2_only d env id v s
              else get_payload_both d env id v s).0
            ≡ done (p, source))
          m h) in
      let asked = join d env (l2_get_payload d env id v) (attempt (builder_part d env id v)) in
      let (xy, u, e, h') = and_then-done (asked s) _ both in
      let kept =
        Keeps-join d env stable _ _ (Keeps-l2_get_payload d env stable id v)
          (Keeps-attempt d env (builder_part d env id v) (Keeps-builder_part d env stable id v)) in
      let mode : u.execution_mode ≡ dry_run =
        (sym (ap (λ o. o.1.execution_mode) e) ∙ ap (λ f. f.0) (kept.at s) ∙ m) in
      (settled_dry xy.0 xy.1 u p source mode h').0
