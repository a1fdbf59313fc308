-- ===== src/Server/Handlers.antt =====
-- The handlers of crates/rollup-boost/src/server.rs.
use rollup_boost.Prelude.{
  ℕ, Bool, true, false, not, ◌&&◌, Option, none, some, if◌then◌else◌, Result, ok, err, negsuc,
}
use rollup_boost.Engine.{
  B256, PayloadId, ForkchoiceState, OpPayloadAttributes, ForkchoiceUpdated, PayloadStatus, Block,
}
use rollup_boost.Payload.{
  PayloadVersion, OpExecutionPayloadEnvelope, NewPayload, l2, builder, new_execution_payload,
}
use rollup_boost.Payload.Trace.{store, remove_by_parent_hash}
use rollup_boost.Rpc.{RpcClientError, ErrorObject}
use rollup_boost.Rpc
use rollup_boost.Server.{
  is_disabled, Deps, Call, fork_choice_updated, Env, done, M, ◌>>=◌, ◌>>◌, return, or_fail, spawn,
  should_skip_unhealthy_builder, awaited, join,
}

abbrev pub unwrap_or_default : Option Bool → Bool
unwrap_or_default none = false
unwrap_or_default (some b) = b

abbrev pub is_ok : {E A : Type 0} → Result E A → Bool
is_ok (ok _) = true
is_ok (err _) = false

-- The builder's part of `get_payload`.
pub record BuilderPayloadResult : Type 0 where
  pub payload : Option OpExecutionPayloadEnvelope
  pub builder_api_failed : Bool

-- `INVALID_REQUEST_CODE`, -32600, and the message of both version errors.
abbrev pub version_error : ErrorObject
version_error = record { code = negsuc 32599; message = 4 }

module _ (d : Deps) (env : Env) where
  -- The L2 client.
  abbrev pub l2_fcu :
      ForkchoiceState → Option OpPayloadAttributes → M d (Result RpcClientError ForkchoiceUpdated)
  l2_fcu f attrs s = (
    done (Rpc.fork_choice_updated_v3 (env.l2_fork_choice_updated s.calls f attrs)),
    awaited d env (fork_choice_updated l2 f attrs) s,
  )

  abbrev pub l2_get_payload :
      PayloadId → PayloadVersion → M d (Result RpcClientError OpExecutionPayloadEnvelope)
  l2_get_payload id v s = (
    done (Rpc.get_payload v (env.l2_get_payload_v3 s.calls id) (env.l2_get_payload_v4 s.calls id)),
    awaited d env (Call.get_payload l2 id v) s,
  )

  abbrev pub l2_new_payload : NewPayload → M d (Result RpcClientError PayloadStatus)
  l2_new_payload p s = (
    done (Rpc.new_payload (env.l2_new_payload s.calls p)),
    awaited d env (Call.new_payload l2 p) s,
  )

  -- The builder client.
  abbrev pub builder_fcu :
      ForkchoiceState → Option OpPayloadAttributes → M d (Result RpcClientError ForkchoiceUpdated)
  builder_fcu f attrs s = (
    done (env.builder_fork_choice_updated s.calls f attrs),
    awaited d env (fork_choice_updated builder f attrs) s,
  )

  abbrev pub builder_get_payload :
      PayloadId → PayloadVersion → M d (Result RpcClientError OpExecutionPayloadEnvelope)
  builder_get_payload id v s =
      (done (env.builder_get_payload s.calls id v), awaited d env (Call.get_payload builder id v) s)

  -- `payload_trace_context.store`, with the current span's id.
  unfoldable pub store_trace : PayloadId → B256 → Bool → M d (Unit {0})
  store_trace id parent_hash has_payload s = (
    done tt,
    record s {
      payload_trace_context =
          store d.hashes d.ids id parent_hash has_payload (env.span_id s.calls)
            s.payload_trace_context;
    },
  )

  -- `payload_to_fcu_request.insert`, under `if self.external_state_root`.
  unfoldable pub remember_request :
      PayloadId → ForkchoiceState → Option OpPayloadAttributes → M d (Unit {0})
  remember_request id f attrs s = (
    done tt,
    (if s.external_state_root
        then record s {
          payload_to_fcu_request = d.requests.insert id (f, attrs) s.payload_to_fcu_request;
        }
        else s),
  )

  -- After a response of the L2 client alone: block building started without the builder.
  unfoldable pub record_l2_only : ForkchoiceState → Option PayloadId → M d (Unit {0})
  unfolding store_trace
  record_l2_only f none = return tt
  record_l2_only f (some id) = store_trace id f.head_block_hash false

  -- After the responses of both.
  unfoldable pub record_both :
      ForkchoiceState → Option OpPayloadAttributes → Bool → Option PayloadId → M d (Unit {0})
  unfolding store_trace remember_request
  record_both f attrs builder_ok none = return tt
  record_both f attrs builder_ok (some id) = do
    store_trace id f.head_block_hash builder_ok
    remember_request id f attrs

  unfoldable pub record_request :
      ForkchoiceState → Option OpPayloadAttributes → Option PayloadId → M d (Unit {0})
  unfolding remember_request
  record_request f attrs none = return tt
  record_request f attrs (some id) = remember_request id f attrs

  -- Forward the update to the L2 client alone.
  unfoldable pub fcu_l2_only : ForkchoiceState → Option OpPayloadAttributes → M d ForkchoiceUpdated
  fcu_l2_only f attrs = do r ← l2_fcu f attrs; or_fail r

  unfoldable pub fcu_no_tx_pool :
      ForkchoiceState → Option OpPayloadAttributes → M d ForkchoiceUpdated
  unfolding record_l2_only
  fcu_no_tx_pool f attrs = do
    r ← l2_fcu f attrs
    l2_response ← or_fail r
    record_l2_only f l2_response.payload_id
    return l2_response

  unfoldable pub fcu_both : ForkchoiceState → Option OpPayloadAttributes → M d ForkchoiceUpdated
  unfolding record_both
  fcu_both f attrs = do
    (l2_result, builder_result) ← join d env (l2_fcu f attrs) (builder_fcu f attrs)
    l2_response ← or_fail l2_result
    record_both f attrs (is_ok builder_result) l2_response.payload_id
    return l2_response

  unfoldable pub fcu_no_attributes : ForkchoiceState → M d ForkchoiceUpdated
  unfolding record_request
  fcu_no_attributes f = do
    spawn d (fork_choice_updated builder f none)
    r ← l2_fcu f none
    l2_response ← or_fail r
    record_request f none l2_response.payload_id
    return l2_response

  unfoldable pub fcu_forward : ForkchoiceState → Option OpPayloadAttributes → M d ForkchoiceUpdated
  unfolding fcu_no_attributes fcu_no_tx_pool fcu_both
  fcu_forward f none = fcu_no_attributes f
  fcu_forward f (some attrs) =
      if unwrap_or_default attrs.no_tx_pool
      then fcu_no_tx_pool f (some attrs)
      else fcu_both f (some attrs)

  -- `fork_choice_updated_v3`.
  unfoldable pub fork_choice_updated_v3 :
      ForkchoiceState → Option OpPayloadAttributes → M d ForkchoiceUpdated
  unfolding fcu_l2_only should_skip_unhealthy_builder fcu_forward
  fork_choice_updated_v3 f attrs s =
      if is_disabled s.execution_mode
      then fcu_l2_only f attrs s
      else if should_skip_unhealthy_builder d s
      then fcu_l2_only f attrs s
      else fcu_forward f attrs s

  -- `new_payload`, of both versions.
  unfoldable pub forward_new_payload : NewPayload → M d (Unit {0})
  unfolding should_skip_unhealthy_builder
  forward_new_payload p s =
      if not (is_disabled s.execution_mode) && not (should_skip_unhealthy_builder d s)
      then spawn d (Call.new_payload builder p) s
      else (done tt, s)

  unfoldable pub forget_parent : B256 → M d (Unit {0})
  forget_parent h s = (
    done tt,
    record s {
      payload_trace_context = remove_by_parent_hash d.hashes d.ids h s.payload_trace_context;
    },
  )

  unfoldable pub new_payload : NewPayload → M d PayloadStatus
  unfolding forward_new_payload forget_parent
  new_payload p = do
    forget_parent (new_execution_payload p).payload_inner.payload_inner.parent_hash
    forward_new_payload p
    r ← l2_new_payload p
    or_fail r

  unfoldable pub get_block_by_number : ℕ → Bool → M d Block
  get_block_by_number n full s =
      or_fail (Rpc.get_block_by_number (env.l2_get_block s.calls n full))
        (awaited d env (Call.get_block l2 n full) s)
