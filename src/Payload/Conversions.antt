-- ===== src/Payload/Conversions.antt =====
-- The conversions between envelopes, requests and execution payloads
-- (crates/rollup-boost-types/src/payload.rs).
use rollup_boost.Prelude.{◌≡◌, refl, some, length}
use rollup_boost.Payload.{
  OpExecutionPayloadEnvelope, version, gas_used, transactions, tx_count, payload_attributes,
  execution_payload, to_new_payload, new_payload_version, new_execution_payload,
}

-- An envelope turned into a `NewPayload` request keeps its version, and the execution payload read
-- off the request is the one read off the envelope.
pub to_new_payload-keeps :
    (p : OpExecutionPayloadEnvelope)
    → (new_payload_version (to_new_payload p) ≡ version p)
      × (new_execution_payload (to_new_payload p) ≡ execution_payload p)
unfolding to_new_payload new_payload_version new_execution_payload version execution_payload
to_new_payload-keeps (OpExecutionPayloadEnvelope.v3 p) = (refl, refl)
to_new_payload-keeps (OpExecutionPayloadEnvelope.v4 p) = (refl, refl)

-- Gas, transactions, their count and the payload attributes that are read off an envelope are those
-- of its execution payload, in both versions.
pub execution_payload-agrees :
    (p : OpExecutionPayloadEnvelope)
    → let inner = (execution_payload p).payload_inner in
      (gas_used p ≡ inner.payload_inner.gas_used)
      × (transactions p ≡ inner.payload_inner.transactions)
      × (tx_count p ≡ length (transactions p))
      × ((payload_attributes p).timestamp ≡ inner.payload_inner.timestamp)
      × ((payload_attributes p).prev_randao ≡ inner.payload_inner.prev_randao)
      × ((payload_attributes p).suggested_fee_recipient ≡ inner.payload_inner.fee_recipient)
      × ((payload_attributes p).withdrawals ≡ some inner.withdrawals)
unfolding gas_used transactions tx_count payload_attributes execution_payload
execution_payload-agrees (OpExecutionPayloadEnvelope.v3 p) =
    (refl, refl, refl, refl, refl, refl, refl)
execution_payload-agrees (OpExecutionPayloadEnvelope.v4 p) =
    (refl, refl, refl, refl, refl, refl, refl)
