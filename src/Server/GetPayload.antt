-- ===== src/Server/GetPayload.antt =====
-- `get_payload` of crates/rollup-boost/src/server.rs: the L2 client and the builder are asked for
-- the payload, and one of the two is returned.
use rollup_boost.Prelude.{
  Bool, true, false, ◌&&◌, Option, none, some, if◌then◌else◌, Result, ok, err,
}
use rollup_boost.Engine.{
  PayloadId, OpPayloadAttributes, OpExecutionPayloadEnvelopeV3, OpExecutionPayloadEnvelopeV4,
}
use rollup_boost.Payload.{
  PayloadVersion, OpExecutionPayloadEnvelope, PayloadSource, l2, builder, to_new_payload,
  transactions, payload_attributes,
}
use rollup_boost.Payload.Trace.{has_builder_payload}
use rollup_boost.Probe.{healthy, partial_content, service_unavailable}
use rollup_boost.Rpc.{RpcClientError, ErrorObject, to_error_object}
use rollup_boost.Selection.{select_block}
use rollup_boost.Server.{
  is_dry_run, is_disabled, is_enabled, Deps, FcuRequest, Env, RollupBoostServer, done, failed,
  panicked, M, ◌>>=◌, return, or_fail, attempt, join,
}
use rollup_boost.Server.Handlers.{
  BuilderPayloadResult, version_error, l2_fcu, l2_get_payload, l2_new_payload, builder_get_payload,
}

abbrev pub failed_result : BuilderPayloadResult
failed_result = record { payload = none; builder_api_failed = true }

abbrev pub result_of : Option OpExecutionPayloadEnvelope → BuilderPayloadResult
result_of p = record { payload = p; builder_api_failed = false }

-- The attributes that make the L2 client rebuild the builder's block.
unfoldable pub rebuild_attributes :
    Option OpPayloadAttributes → OpExecutionPayloadEnvelope → OpPayloadAttributes
rebuild_attributes (some attrs) p = record {
  payload_attributes = attrs.payload_attributes;
  transactions = some (transactions p);
  no_tx_pool = some true;
  gas_limit = attrs.gas_limit;
  eip_1559_params = attrs.eip_1559_params;
  min_base_fee = attrs.min_base_fee;
}
rebuild_attributes none p = record {
  payload_attributes = payload_attributes p;
  transactions = some (transactions p);
  no_tx_pool = some true;
  gas_limit = none;
  eip_1559_params = none;
  min_base_fee = none;
}

abbrev pub to_option : {E A : Type 0} → Result E A → Option A
to_option (ok a) = some a
to_option (err e) = none

module _ (d : Deps) (env : Env) where
  -- `payload_to_fcu_request.remove(&payload_id).unwrap()`.
  abbrev pub taken_request : PayloadId → Option FcuRequest → M d FcuRequest
  taken_request id none s = (panicked, s)
  taken_request id (some r) s =
      (done r, record s { payload_to_fcu_request = d.requests.remove id s.payload_to_fcu_request })

  abbrev pub take_request : PayloadId → M d FcuRequest
  take_request id s = taken_request id (d.requests.get id s.payload_to_fcu_request) s

  -- The L2 client's answer to the rebuild names a payload id, or not.
  unfoldable pub rebuilt_payload :
      PayloadVersion → Option PayloadId → M d (Option OpExecutionPayloadEnvelope)
  rebuilt_payload v none = return none
  rebuilt_payload v (some id) = do r ← l2_get_payload d env id v; return (to_option r)

  unfoldable pub calculate_external_state_root :
      OpExecutionPayloadEnvelope
      → PayloadId
      → PayloadVersion
      → M d (Option OpExecutionPayloadEnvelope)
  unfolding rebuild_attributes rebuilt_payload
  calculate_external_state_root p id v = do
    fcu_info ← take_request id
    r ← l2_fcu d env fcu_info.0 (some (rebuild_attributes fcu_info.1 p))
    l2_result ← or_fail r
    rebuilt_payload v l2_result.payload_id

  -- The builder's payload goes to the L2 client for validation.
  unfoldable pub validate_with_l2 : OpExecutionPayloadEnvelope → M d BuilderPayloadResult
  validate_with_l2 p = do
    r ← l2_new_payload d env (to_new_payload p)
    status ← or_fail r
    return (result_of (some p))

  unfoldable pub check_builder_payload :
      PayloadId → PayloadVersion → OpExecutionPayloadEnvelope → M d BuilderPayloadResult
  unfolding validate_with_l2 calculate_external_state_root
  check_builder_payload id v p s =
      if s.external_state_root
      then (do
        external_payload ← calculate_external_state_root p id v
        return (result_of external_payload))
          s
      else validate_with_l2 p s

  abbrev pub received_from_builder :
      PayloadId
      → PayloadVersion
      → Result RpcClientError OpExecutionPayloadEnvelope
      → M d BuilderPayloadResult
  received_from_builder id v (err e) = return failed_result
  received_from_builder id v (ok p) = check_builder_payload id v p

  -- `builder_fut`.
  unfoldable pub builder_part : PayloadId → PayloadVersion → M d BuilderPayloadResult
  unfolding check_builder_payload
  builder_part id v s =
      if has_builder_payload d.hashes d.ids id s.payload_trace_context
      then (builder_get_payload d env id v >>= received_from_builder id v) s
      else (done failed_result, s)

  -- The choice where the builder has delivered.
  unfoldable pub chosen :
      OpExecutionPayloadEnvelope
      → OpExecutionPayloadEnvelope
      → RollupBoostServer d
      → OpExecutionPayloadEnvelope × PayloadSource
  chosen b l s = if is_dry_run s.execution_mode then (l, l2) else elim s.block_selection_policy [
    | some policy ↦ select_block d.float policy b l
    | none ↦ (b, builder)
  ]

  unfoldable pub select_payload :
      OpExecutionPayloadEnvelope
      → OpExecutionPayloadEnvelope
      → M d (OpExecutionPayloadEnvelope × PayloadSource)
  unfolding chosen
  select_payload b l s = (done (chosen b l s), s)

  -- And where it has not.
  unfoldable pub fall_back :
      OpExecutionPayloadEnvelope → Bool → M d (OpExecutionPayloadEnvelope × PayloadSource)
  fall_back l api_failed s = (
    done (l, l2),
    (if is_enabled s.execution_mode && api_failed
        then record s { health = partial_content }
        else s),
  )

  abbrev pub settle_with :
      Option OpExecutionPayloadEnvelope
      → Bool
      → OpExecutionPayloadEnvelope
      → M d (OpExecutionPayloadEnvelope × PayloadSource)
  settle_with (some b) api_failed l = select_payload b l
  settle_with none api_failed l = fall_back l api_failed

  abbrev pub settle :
      OpExecutionPayloadEnvelope
      → Result ErrorObject BuilderPayloadResult
      → M d (OpExecutionPayloadEnvelope × PayloadSource)
  settle l (err e) = settle_with none true l
  settle l (ok r) = settle_with r.payload r.builder_api_failed l

  -- The L2 client's payload, or its error with the health set.
  unfoldable pub l2_payload_or_unavailable :
      Result RpcClientError OpExecutionPayloadEnvelope → M d OpExecutionPayloadEnvelope
  l2_payload_or_unavailable (ok p) s = (done p, record s { health = healthy })
  l2_payload_or_unavailable (err e) s =
      (failed (to_error_object e), record s { health = service_unavailable })

  unfoldable pub get_payload_l2_only :
      PayloadId → PayloadVersion → M d (OpExecutionPayloadEnvelope × PayloadSource)
  unfolding l2_payload_or_unavailable
  get_payload_l2_only id v = do
    r ← l2_get_payload d env id v
    p ← l2_payload_or_unavailable r
    return (p, l2)

  unfoldable pub get_payload_both :
      PayloadId → PayloadVersion → M d (OpExecutionPayloadEnvelope × PayloadSource)
  unfolding l2_payload_or_unavailable builder_part select_payload fall_back
  get_payload_both id v = do
    (l2_result, builder_result) ←
        join d env (l2_get_payload d env id v) (attempt (builder_part id v))
    l2_payload ← l2_payload_or_unavailable l2_result
    settle l2_payload builder_result

  -- `get_payload`; the source goes into the span and the metrics.
  unfoldable pub get_payload :
      PayloadId → PayloadVersion → M d (OpExecutionPayloadEnvelope × PayloadSource)
  unfolding get_payload_l2_only get_payload_both
  get_payload id v s =
      if is_disabled s.execution_mode then get_payload_l2_only id v s else get_payload_both id v s

  abbrev as_v3 : OpExecutionPayloadEnvelope → M d OpExecutionPayloadEnvelopeV3
  as_v3 (OpExecutionPayloadEnvelope.v3 p) s = (done p, s)
  as_v3 (OpExecutionPayloadEnvelope.v4 p) s = (failed version_error, s)

  abbrev as_v4 : OpExecutionPayloadEnvelope → M d OpExecutionPayloadEnvelopeV4
  as_v4 (OpExecutionPayloadEnvelope.v4 p) s = (done p, s)
  as_v4 (OpExecutionPayloadEnvelope.v3 p) s = (failed version_error, s)

  unfoldable pub get_payload_v3 : PayloadId → M d OpExecutionPayloadEnvelopeV3
  unfolding get_payload
  get_payload_v3 id = do (p, source) ← get_payload id PayloadVersion.v3; as_v3 p

  unfoldable pub get_payload_v4 : PayloadId → M d OpExecutionPayloadEnvelopeV4
  unfolding get_payload
  get_payload_v4 id = do (p, source) ← get_payload id PayloadVersion.v4; as_v4 p
