-- ===== src/Rpc.antt =====
-- `RpcClient` of crates/rollup-boost/src/client/rpc.rs: what it makes of the replies of the
-- jsonrpsee transport, which are arguments, and the errors of crates/rollup-boost's Engine API.
pub mod Validity
use rollup_boost.Prelude.{
  ℕ, Bool, true, false, Option, none, some, if◌then◌else◌, Result, ok, err, ℤ, pos, negsuc,
}
use rollup_boost.Engine.{
  OpExecutionPayloadEnvelopeV3, OpExecutionPayloadEnvelopeV4, PayloadStatusEnum, valid, syncing,
  accepted, invalid, PayloadStatus, ForkchoiceUpdated, Block,
}
use rollup_boost.Payload.{PayloadVersion, OpExecutionPayloadEnvelope, NewPayload}

-- A JSON-RPC error: its code, and its message as a number.
pub record ErrorObject : Type 0 where
  pub code : ℤ
  pub message : ℕ

-- `jsonrpsee::core::client::Error`: an error that the server returned, or any other.
pub data ClientError : Type 0 where
  call : ErrorObject → ClientError
  transport : ℕ → ClientError

-- The four variants of `RpcClientError`; `invalid_payload` carries the validation error.
pub data RpcClientError : Type 0 where
  jsonrpsee : ClientError → RpcClientError
  invalid_payload io jwt : ℕ → RpcClientError

abbrev pub internal_error : ℤ
internal_error = pos 13

unfoldable pub client_error_code : ClientError → ℤ
client_error_code (call e) = e.code
client_error_code (transport m) = internal_error

-- `Code::code`, which goes into the span.
unfoldable pub code : RpcClientError → ℤ
unfolding client_error_code
code (jsonrpsee e) = client_error_code e
code _ = internal_error

-- `ErrorObjectOwned::from`.
unfoldable pub to_error_object : RpcClientError → ErrorObject
to_error_object (jsonrpsee (call e)) = e
to_error_object (jsonrpsee (transport m)) = record { code = internal_error; message = m }
to_error_object (invalid_payload m) = record { code = internal_error; message = m }
to_error_object (io m) = record { code = internal_error; message = m }
to_error_object (jwt m) = record { code = internal_error; message = m }

-- `res.is_invalid()`, and the error that the client makes of it.
abbrev pub invalid_reason : PayloadStatusEnum → Option ℕ
invalid_reason (invalid m) = some m
invalid_reason _ = none

abbrev reject_invalid {ℓ} : {A : Type ℓ} → Option ℕ → A → Result RpcClientError A
reject_invalid none a = ok a
reject_invalid (some m) a = err (invalid_payload m)

-- `?` on a reply of the transport.
abbrev pub received {ℓ} : {A : Type ℓ} → Result ClientError A → Result RpcClientError A
received (ok a) = ok a
received (err e) = err (jsonrpsee e)

unfoldable pub fork_choice_updated_v3 :
    Result ClientError ForkchoiceUpdated → Result RpcClientError ForkchoiceUpdated
fork_choice_updated_v3 (ok res) = reject_invalid (invalid_reason res.payload_status.status) res
fork_choice_updated_v3 (err e) = err (jsonrpsee e)

-- `new_payload_v3`, `new_payload_v4` and `new_payload`: they differ in the request that they send,
-- and treat the reply alike.
unfoldable pub new_payload : Result ClientError PayloadStatus → Result RpcClientError PayloadStatus
new_payload (ok res) = reject_invalid (invalid_reason res.status) res
new_payload (err e) = err (jsonrpsee e)

abbrev as_v3 :
    Result ClientError OpExecutionPayloadEnvelopeV3
    → Result RpcClientError OpExecutionPayloadEnvelope
as_v3 (ok p) = ok (OpExecutionPayloadEnvelope.v3 p)
as_v3 (err e) = err (jsonrpsee e)

abbrev as_v4 :
    Result ClientError OpExecutionPayloadEnvelopeV4
    → Result RpcClientError OpExecutionPayloadEnvelope
as_v4 (ok p) = ok (OpExecutionPayloadEnvelope.v4 p)
as_v4 (err e) = err (jsonrpsee e)

-- `get_payload` over the replies to `engine_getPayloadV3` and `engine_getPayloadV4`, of which the
-- version picks the one that is asked for.
unfoldable pub get_payload :
    PayloadVersion
    → Result ClientError OpExecutionPayloadEnvelopeV3
    → Result ClientError OpExecutionPayloadEnvelopeV4
    → Result RpcClientError OpExecutionPayloadEnvelope
get_payload PayloadVersion.v3 r3 r4 = as_v3 r3
get_payload PayloadVersion.v4 r3 r4 = as_v4 r4

unfoldable pub get_block_by_number : Result ClientError Block → Result RpcClientError Block
get_block_by_number r = received r
