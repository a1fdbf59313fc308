-- ===== src/Server/Records.antt =====
-- What a forkchoice update leaves in the server's tables (crates/rollup-boost/src/server.rs).
use rollup_boost.Prelude.{
  true, false, ◌||◌, List, ◌∷◌, Option, none, some, ◌≡◌, refl, inl, inr, arith, nat_eq, subst, sym,
  ◌∙◌, Bool-cases, Result, ok, err,
}
use rollup_boost.Engine.{PayloadId, ForkchoiceState, OpPayloadAttributes, ForkchoiceUpdated}
use rollup_boost.Payload.{l2, builder}
use rollup_boost.Payload.Trace.{store, has_builder_payload}
use rollup_boost.Rpc.{RpcClientError, to_error_object}
use rollup_boost.Rpc
use rollup_boost.Server.{
  is_disabled, Deps, Call, fork_choice_updated, Env, RollupBoostServer, Outcome, done, awaited,
  and_then, or_fail, should_skip_unhealthy_builder,
}
use rollup_boost.Server.Handlers.{
  fork_choice_updated_v3, fcu_forward, fcu_both, fcu_no_attributes, fcu_no_tx_pool, record_both,
  record_request, record_l2_only, store_trace, remember_request, is_ok,
}
use rollup_boost.Server.Forkchoice.{is_no_tx_pool}

module _ (d : Deps) (env : Env) where
  remembered :
      (id : PayloadId) (f : ForkchoiceState) (attrs : Option OpPayloadAttributes)
      (s : RollupBoostServer d)
      → s.external_state_root ≡ true
      → d.requests.get id (remember_request d env id f attrs s).1.payload_to_fcu_request
        ≡ some (f, attrs)
  unfolding remember_request
  remembered id f attrs s x =
      ground (arith, d.requests.get-insert id id (f, attrs) s.payload_to_fcu_request)

  -- What follows the two answers.
  abbrev settled :
      ForkchoiceState
      → Option OpPayloadAttributes
      → Result RpcClientError ForkchoiceUpdated
      → Result RpcClientError ForkchoiceUpdated
      → RollupBoostServer d
      → Outcome ForkchoiceUpdated × RollupBoostServer d
  settled f attrs l2_result builder_result t = and_then (or_fail l2_result t) (λ r u.
      and_then (record_both d env f attrs (is_ok builder_result) r.payload_id u)
        (λ x w. (done r, w)))

  both_settles :
      (f : ForkchoiceState) (attrs : Option OpPayloadAttributes) (s : RollupBoostServer d)
      → (l2_result : Result RpcClientError ForkchoiceUpdated) × (t : RollupBoostServer d)
        × (calls : List Call) × (fcu_both d env f attrs s
            ≡ settled f attrs l2_result (env.builder_fork_choice_updated calls f attrs) t)
        × (t.external_state_root ≡ s.external_state_root)
  unfolding fcu_both
  both_settles f attrs s = elim (Bool-cases (env.l2_first s.calls)) [
    | inl e ↦ (
      Rpc.fork_choice_updated_v3 (env.l2_fork_choice_updated s.calls f attrs),
      awaited d env (fork_choice_updated builder f attrs)
          (awaited d env (fork_choice_updated l2 f attrs) s),
      fork_choice_updated l2 f attrs ∷ s.calls,
      rw (e, fcu_both) refl,
      refl,
    )
    | inr e ↦ (
      Rpc.fork_choice_updated_v3
          (env.l2_fork_choice_updated (fork_choice_updated builder f attrs ∷ s.calls) f attrs),
      awaited d env (fork_choice_updated l2 f attrs)
          (awaited d env (fork_choice_updated builder f attrs) s),
      s.calls,
      rw (e, fcu_both) refl,
      refl,
    )
  ]

  settled_remembers :
      (id : PayloadId) (f : ForkchoiceState) (attrs : Option OpPayloadAttributes)
      (l2_result builder_result : Result RpcClientError ForkchoiceUpdated) (t : RollupBoostServer d)
      (response : ForkchoiceUpdated)
      → t.external_state_root ≡ true
      → (settled f attrs l2_result builder_result t).0 ≡ done response
      → response.payload_id ≡ some id
      → d.requests.get id (settled f attrs l2_result builder_result t).1.payload_to_fcu_request
        ≡ some (f, attrs)
  unfolding record_both store_trace remember_request
  settled_remembers id f attrs (ok r) b t response x h k =
      ground (arith, d.requests.get-insert id id (f, attrs) t.payload_to_fcu_request)
  settled_remembers id f attrs (err e) b t response x h k = absurd cc

  settled_records :
      (id : PayloadId) (f : ForkchoiceState) (attrs : Option OpPayloadAttributes)
      (l2_result builder_result : Result RpcClientError ForkchoiceUpdated) (t : RollupBoostServer d)
      (response : ForkchoiceUpdated)
      → (settled f attrs l2_result builder_result t).0 ≡ done response
      → response.payload_id ≡ some id
      → has_builder_payload d.hashes d.ids id
          (settled f attrs l2_result builder_result t).1.payload_trace_context
        ≡ true
      → is_ok builder_result ≡ true
  unfolding record_both store_trace remember_request store has_builder_payload
  settled_records id f attrs (ok r) b t response h k g = ground (
    arith,
    d.ids.get-insert id id
        (record { builder_has_payload = is_ok b; trace_id = env.span_id t.calls })
        t.payload_trace_context.payload_id,
  )
  settled_records id f attrs (err e) b t response h k g = absurd cc

  none_remembers :
      (id : PayloadId) (f : ForkchoiceState) (s : RollupBoostServer d)
      (response : ForkchoiceUpdated)
      → s.external_state_root ≡ true
      → (fcu_no_attributes d env f s).0 ≡ done response
      → response.payload_id ≡ some id
      → d.requests.get id (fcu_no_attributes d env f s).1.payload_to_fcu_request ≡ some (f, none)
  unfolding fcu_no_attributes record_request remember_request
  none_remembers id f s response x h k =
      ground (arith, d.requests.get-insert id id (f, none) s.payload_to_fcu_request)

  both_remembers :
      (id : PayloadId) (f : ForkchoiceState) (attrs : Option OpPayloadAttributes)
      (s : RollupBoostServer d) (response : ForkchoiceUpdated)
      → s.external_state_root ≡ true
      → (fcu_both d env f attrs s).0 ≡ done response
      → response.payload_id ≡ some id
      → d.requests.get id (fcu_both d env f attrs s).1.payload_to_fcu_request ≡ some (f, attrs)
  both_remembers id f attrs s response x h k =
      let (l2_result, t, calls, e, same) = both_settles f attrs s in
      subst (λ z. d.requests.get id z.1.payload_to_fcu_request ≡ some (f, attrs)) (sym e)
        (settled_remembers id f attrs l2_result (env.builder_fork_choice_updated calls f attrs) t
          response (same ∙ x) (subst (λ z. z.0 ≡ done response) e h) k)

  -- With state roots computed outside, an update that is forwarded to the builder, or has no
  -- attributes, is remembered under the payload id of the answer: with the mode not disabled, the
  -- builder not skipped, and no attributes that forbid the transaction pool.
  pub update_remembered :
      (id : PayloadId) (f : ForkchoiceState) (attrs : Option OpPayloadAttributes)
      (s : RollupBoostServer d) (response : ForkchoiceUpdated)
      → s.external_state_root ≡ true
      → (is_disabled s.execution_mode
          || should_skip_unhealthy_builder d s
          || is_no_tx_pool d env attrs)
        ≡ false
      → (fork_choice_updated_v3 d env f attrs s).0 ≡ done response
      → response.payload_id ≡ some id
      → d.requests.get id (fork_choice_updated_v3 d env f attrs s).1.payload_to_fcu_request
        ≡ some (f, attrs)
  unfolding fork_choice_updated_v3 fcu_forward
  update_remembered id f none s response x g h k = ground (arith, none_remembers id f s response x)
  update_remembered id f (some a) s response x g h k =
      ground (arith, both_remembers id f (some a) s response x)

  both_records :
      (id : PayloadId) (f : ForkchoiceState) (attrs : Option OpPayloadAttributes)
      (s : RollupBoostServer d) (response : ForkchoiceUpdated)
      → (fcu_both d env f attrs s).0 ≡ done response
      → response.payload_id ≡ some id
      → has_builder_payload d.hashes d.ids id (fcu_both d env f attrs s).1.payload_trace_context
        ≡ true
      → (calls : List Call) × (is_ok (env.builder_fork_choice_updated calls f attrs) ≡ true)
  both_records id f attrs s response h k b =
      let (l2_result, t, calls, e, same) = both_settles f attrs s in
      (
        calls,
        settled_records id f attrs l2_result (env.builder_fork_choice_updated calls f attrs) t
            response (subst (λ z. z.0 ≡ done response) e h) k
            (subst (λ z. has_builder_payload d.hashes d.ids id z.1.payload_trace_context ≡ true) e
              b),
      )

  no_tx_pool_records :
      (id : PayloadId) (f : ForkchoiceState) (attrs : Option OpPayloadAttributes)
      (s : RollupBoostServer d) (response : ForkchoiceUpdated)
      → (fcu_no_tx_pool d env f attrs s).0 ≡ done response
      → response.payload_id ≡ some id
      → has_builder_payload d.hashes d.ids id
          (fcu_no_tx_pool d env f attrs s).1.payload_trace_context
        ≡ false
  unfolding fcu_no_tx_pool record_l2_only store_trace store has_builder_payload
  no_tx_pool_records id f attrs s response h k = ground (
    arith,
    d.ids.get-insert id id
        (record {
          builder_has_payload = false;
          trace_id = env.span_id (fork_choice_updated l2 f attrs ∷ s.calls);
        })
        s.payload_trace_context.payload_id,
  )

  -- After an answered update with attributes, with the mode not disabled and the builder not
  -- skipped: if the trace context says that the builder has the payload of the answer, then the
  -- builder has accepted the same update.
  pub builder_recorded :
      (id : PayloadId) (f : ForkchoiceState) (a : OpPayloadAttributes) (s : RollupBoostServer d)
      (response : ForkchoiceUpdated)
      → (is_disabled s.execution_mode || should_skip_unhealthy_builder d s) ≡ false
      → (fork_choice_updated_v3 d env f (some a) s).0 ≡ done response
      → response.payload_id ≡ some id
      → has_builder_payload d.hashes d.ids id
          (fork_choice_updated_v3 d env f (some a) s).1.payload_trace_context
        ≡ true
      → (calls : List Call) × (is_ok (env.builder_fork_choice_updated calls f (some a)) ≡ true)
  unfolding fork_choice_updated_v3 fcu_forward
  builder_recorded id f a s response g h k b =
      ground
        (arith, both_records id f (some a) s response, no_tx_pool_records id f (some a) s response)
