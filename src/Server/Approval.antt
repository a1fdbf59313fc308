-- ===== src/Server/Approval.antt =====
-- The builder's payloads that `get_payload` accepts, and what the L2 client has said of them
-- (crates/rollup-boost/src/server.rs).
use rollup_boost.Prelude.{
  Bool, true, false, List, Option, none, some, ◌≡◌, refl, ◌⊎◌, inl, inr, arith, nat_eq,
  if◌then◌else◌, Bool-cases, Result, Result-cases, ok, ap, ◌∙◌, sym, subst,
}
use rollup_boost.Engine.{PayloadId, PayloadStatus, ForkchoiceUpdated}
use rollup_boost.Payload.{PayloadVersion, OpExecutionPayloadEnvelope, l2, builder, to_new_payload}
use rollup_boost.Payload.Trace.{has_builder_payload}
use rollup_boost.Rpc.{RpcClientError, ErrorObject, to_error_object}
use rollup_boost.Rpc
use rollup_boost.Server.{
  Deps, FcuRequest, Call, Env, RollupBoostServer, done, awaited, and_then, and_then-done,
  or_fail-done, fork_choice_updated,
}
use rollup_boost.Server.Handlers.{BuilderPayloadResult}
use rollup_boost.Server.GetPayload.{
  rebuild_attributes, rebuilt_payload, calculate_external_state_root, validate_with_l2,
  check_builder_payload, builder_part, take_request, result_of, failed_result,
}

module _ (d : Deps) (env : Env) where
  -- What the L2 client answers to `getPayload`, after the given calls.
  abbrev pub l2_payload :
      List Call → PayloadId → PayloadVersion → Result RpcClientError OpExecutionPayloadEnvelope
  l2_payload calls id v =
      Rpc.get_payload v (env.l2_get_payload_v3 calls id) (env.l2_get_payload_v4 calls id)

  -- The builder delivered the payload, and the L2 client took it as a new payload without error.
  abbrev pub IsValidated : PayloadId → PayloadVersion → OpExecutionPayloadEnvelope → Type 0
  IsValidated id v p =
      (asked : List Call) × (told : List Call) × (status : PayloadStatus) × (env.builder_get_payload
          asked id v
        ≡ ok p)
      × (Rpc.new_payload (env.l2_new_payload told (to_new_payload p)) ≡ ok status)

  -- The builder delivered a block for a remembered update, and the payload is what the L2 client
  -- built on the same parent from that block's transactions.
  abbrev pub IsRebuilt :
      d.requests.Map → PayloadId → PayloadVersion → OpExecutionPayloadEnvelope → Type 0
  IsRebuilt requests id v p =
      (block : OpExecutionPayloadEnvelope) × (request : FcuRequest) × (response : ForkchoiceUpdated)
      × (new_id : PayloadId) × (asked : List Call) × (told : List Call) × (fetched : List Call)
      × (env.builder_get_payload asked id v ≡ ok block)
      × (d.requests.get id requests ≡ some request)
      × (Rpc.fork_choice_updated_v3
            (env.l2_fork_choice_updated told request.0 (some (rebuild_attributes request.1 block)))
          ≡ ok response)
      × (response.payload_id ≡ some new_id)
      × (l2_payload fetched new_id v ≡ ok p)

  abbrev pub IsApproved :
      Bool → d.requests.Map → PayloadId → PayloadVersion → OpExecutionPayloadEnvelope → Type 0
  IsApproved external requests id v p =
      ((external ≡ false) × IsValidated id v p) ⊎ ((external ≡ true) × IsRebuilt requests id v p)

  validated :
      (p q : OpExecutionPayloadEnvelope) (r : BuilderPayloadResult) (s : RollupBoostServer d)
      → (validate_with_l2 d env p s).0 ≡ done r
      → r.payload ≡ some q
      → (status : PayloadStatus) × (q ≡ p)
        × (Rpc.new_payload (env.l2_new_payload s.calls (to_new_payload p)) ≡ ok status)
  unfolding validate_with_l2
  validated p q r s h k = ground arith

  rebuilt_from :
      (v : PayloadVersion) (nid : Option PayloadId) (q : OpExecutionPayloadEnvelope)
      (s : RollupBoostServer d)
      → (rebuilt_payload d env v nid s).0 ≡ done (some q)
      → (new_id : PayloadId) × (nid ≡ some new_id) × (l2_payload s.calls new_id v ≡ ok q)
  unfolding rebuilt_payload
  rebuilt_from v none q s h = absurd cc
  rebuilt_from v (some nid) q s h = (nid, refl, ground arith)

  request_taken :
      (id : PayloadId) (r : FcuRequest) (s t : RollupBoostServer d)
      → take_request d env id s ≡ (done r, t)
      → (d.requests.get id s.payload_to_fcu_request ≡ some r) × (t.calls ≡ s.calls)
  request_taken id r s t h = ground arith

  rebuilt :
      (p q : OpExecutionPayloadEnvelope) (id : PayloadId) (v : PayloadVersion)
      (s : RollupBoostServer d)
      → (calculate_external_state_root d env p id v s).0 ≡ done (some q)
      → (request : FcuRequest) × (response : ForkchoiceUpdated) × (new_id : PayloadId)
        × (fetched : List Call) × (d.requests.get id s.payload_to_fcu_request ≡ some request)
        × (Rpc.fork_choice_updated_v3
              (env.l2_fork_choice_updated s.calls request.0 (some (rebuild_attributes request.1 p)))
            ≡ ok response)
        × (response.payload_id ≡ some new_id)
        × (l2_payload fetched new_id v ≡ ok q)
  unfolding calculate_external_state_root
  rebuilt p q id v s h =
      let (r, t, e, h1) = and_then-done (take_request d env id s) _ h in
      let (got, same) = request_taken id r s t e in
      let attrs = rebuild_attributes r.1 p in
      let (response, answered, h2) =
        or_fail-done
          (Rpc.fork_choice_updated_v3 (env.l2_fork_choice_updated t.calls r.0 (some attrs)))
          (awaited d env (fork_choice_updated l2 r.0 (some attrs)) t) _ h1 in
      let (new_id, named, fetched) =
        rebuilt_from v response.payload_id q
          (awaited d env (fork_choice_updated l2 r.0 (some attrs)) t) h2 in
      (
        r,
        response,
        new_id,
        _,
        got,
        subst
            (λ c.
              Rpc.fork_choice_updated_v3 (env.l2_fork_choice_updated c r.0 (some attrs))
              ≡ ok response)
            same answered,
        named,
        fetched,
      )

  -- A builder's part that yields a payload has it approved.
  external-IsApproved :
      (id : PayloadId) (v : PayloadVersion) (p q : OpExecutionPayloadEnvelope) (asked : List Call)
      (r : BuilderPayloadResult) (s : RollupBoostServer d)
      → env.builder_get_payload asked id v ≡ ok p
      → (check_builder_payload d env id v p s).0 ≡ done r
      → r.payload ≡ some q
      → IsApproved s.external_state_root s.payload_to_fcu_request id v q
  unfolding check_builder_payload
  external-IsApproved id v p q asked r s a h k = go s.external_state_root refl h
    where
      go :
          (b : Bool)
          → s.external_state_root ≡ b
          → (if b
              then and_then
                  (calculate_external_state_root d env p id v s)
                  (λ x t. (done (result_of x), t))
              else validate_with_l2 d env p s).0
            ≡ done r
          → IsApproved s.external_state_root s.payload_to_fcu_request id v q
      go true e h' =
          let (x, t, c, fin) = and_then-done (calculate_external_state_root d env p id v s) _ h' in
          let found : x ≡ some q = ground arith in
          let (request, response, new_id, fetched, g, f, n, l) =
            rebuilt p q id v s (ap (λ o. o.0) c ∙ ap done found) in
          inr (e, (p, request, response, new_id, asked, s.calls, fetched, a, g, f, n, l))
      go false e h' =
          let (status, same, told) = validated p q r s h' k in
          inl (
            e,
            (
              asked,
              s.calls,
              status,
              subst (λ x. env.builder_get_payload asked id v ≡ ok x) (sym same) a,
              subst
                  (λ x. Rpc.new_payload (env.l2_new_payload s.calls (to_new_payload x)) ≡ ok status)
                  (sym same) told,
            ),
          )

  pub approved :
      (id : PayloadId) (v : PayloadVersion) (q : OpExecutionPayloadEnvelope)
      (r : BuilderPayloadResult) (s : RollupBoostServer d)
      → (builder_part d env id v s).0 ≡ done r
      → r.payload ≡ some q
      → IsApproved s.external_state_root s.payload_to_fcu_request id v q
  unfolding builder_part
  approved id v q r s h k =
      elim (Bool-cases (has_builder_payload d.hashes d.ids id s.payload_trace_context)) [
        | inr e ↦
            absurd
              (let h' : done failed_result ≡ done r = (rw (e, builder_part) at h) in ground arith)
        | inl e ↦ elim (Result-cases (env.builder_get_payload s.calls id v)) [
          | inr (x, c) ↦ absurd (
              let h' : done failed_result ≡ done r = (rw (e, builder_part, c) at h) in ground arith)
          | inl (p, c) ↦
              external-IsApproved id v p q s.calls r
                (awaited d env (Call.get_payload builder id v) s) c (rw (e, builder_part, c) at h) k
        ]
      ]
