-- ===== src/Rpc/Validity.antt =====
-- What passes the RPC client (crates/rollup-boost/src/client/rpc.rs).
use rollup_boost.Prelude.{none, ◌≡◌, arith, Result, ok, err, ◌↔◌}
use rollup_boost.Engine.{
  OpExecutionPayloadEnvelopeV3, OpExecutionPayloadEnvelopeV4, PayloadStatus, ForkchoiceUpdated,
}
use rollup_boost.Payload.{PayloadVersion, OpExecutionPayloadEnvelope, version}
use rollup_boost.Rpc.{ClientError, invalid_reason, get_payload, fork_choice_updated_v3, new_payload}

-- The client returns a payload status exactly if it is the transport's reply and is not INVALID.
pub new_payload_ok_iff :
    (r : Result ClientError PayloadStatus) (st : PayloadStatus)
    → (new_payload r ≡ ok st) ↔ ((r ≡ ok st) × (invalid_reason st.status ≡ none))
unfolding new_payload
new_payload_ok_iff (ok res) st = (λ h. ground arith, λ h. ground arith)
new_payload_ok_iff (err e) st = (λ h. ground arith, λ h. ground arith)

-- The client returns a forkchoice answer exactly if it is the transport's reply and its payload
-- status is not INVALID.
pub fork_choice_updated_v3_ok_iff :
    (r : Result ClientError ForkchoiceUpdated) (f : ForkchoiceUpdated)
    → (fork_choice_updated_v3 r ≡ ok f)
      ↔ ((r ≡ ok f) × (invalid_reason f.payload_status.status ≡ none))
unfolding fork_choice_updated_v3
fork_choice_updated_v3_ok_iff (ok res) f = (λ h. ground arith, λ h. ground arith)
fork_choice_updated_v3_ok_iff (err e) f = (λ h. ground arith, λ h. ground arith)

-- A payload that the client returns has the version that was asked for.
pub get_payload-version :
    (v : PayloadVersion) (r3 : Result ClientError OpExecutionPayloadEnvelopeV3)
    (r4 : Result ClientError OpExecutionPayloadEnvelopeV4) (p : OpExecutionPayloadEnvelope)
    → get_payload v r3 r4 ≡ ok p
    → version p ≡ v
unfolding get_payload version
get_payload-version PayloadVersion.v3 r3 r4 p h = ground arith
get_payload-version PayloadVersion.v4 r3 r4 p h = ground arith
