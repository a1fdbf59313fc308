-- ===== src/Payload.antt =====
-- crates/rollup-boost-types/src/payload.rs: the payload envelopes of the two versions that
-- rollup-boost serves, the requests made of them, and what is read off them.
pub mod Conversions
pub mod Trace
use rollup_boost.Prelude.{ℕ, Bool, true, false, List, [], Option, some, length}
use rollup_boost.Engine.{
  B256, Bytes, ExecutionPayloadV3, OpExecutionPayloadV4, OpExecutionPayloadEnvelopeV3,
  OpExecutionPayloadEnvelopeV4, PayloadAttributes,
}

pub data PayloadVersion : Type 0 where
  v3 v4 : PayloadVersion

pub data OpExecutionPayloadEnvelope : Type 0 where
  v3 : OpExecutionPayloadEnvelopeV3 → OpExecutionPayloadEnvelope
  v4 : OpExecutionPayloadEnvelopeV4 → OpExecutionPayloadEnvelope

pub record NewPayloadV3 : Type 0 where
  pub payload : ExecutionPayloadV3
  pub versioned_hashes : List B256
  pub parent_beacon_block_root : B256

pub record NewPayloadV4 : Type 0 where
  pub payload : OpExecutionPayloadV4
  pub versioned_hashes : List B256
  pub parent_beacon_block_root : B256
  pub execution_requests : List Bytes

pub data NewPayload : Type 0 where
  v3 : NewPayloadV3 → NewPayload
  v4 : NewPayloadV4 → NewPayload

pub data PayloadSource : Type 0 where
  l2 builder : PayloadSource

unfoldable pub version : OpExecutionPayloadEnvelope → PayloadVersion
version (OpExecutionPayloadEnvelope.v3 _) = PayloadVersion.v3
version (OpExecutionPayloadEnvelope.v4 _) = PayloadVersion.v4

unfoldable pub gas_used : OpExecutionPayloadEnvelope → ℕ
gas_used (OpExecutionPayloadEnvelope.v3 p) =
    p.execution_payload.payload_inner.payload_inner.gas_used
gas_used (OpExecutionPayloadEnvelope.v4 p) =
    p.execution_payload.payload_inner.payload_inner.payload_inner.gas_used

unfoldable pub transactions : OpExecutionPayloadEnvelope → List Bytes
transactions (OpExecutionPayloadEnvelope.v3 p) =
    p.execution_payload.payload_inner.payload_inner.transactions
transactions (OpExecutionPayloadEnvelope.v4 p) =
    p.execution_payload.payload_inner.payload_inner.payload_inner.transactions

unfoldable pub tx_count : OpExecutionPayloadEnvelope → ℕ
tx_count (OpExecutionPayloadEnvelope.v3 p) =
    length p.execution_payload.payload_inner.payload_inner.transactions
tx_count (OpExecutionPayloadEnvelope.v4 p) =
    length p.execution_payload.payload_inner.payload_inner.payload_inner.transactions

unfoldable pub payload_attributes : OpExecutionPayloadEnvelope → PayloadAttributes
payload_attributes (OpExecutionPayloadEnvelope.v3 p) = record {
  timestamp = p.execution_payload.payload_inner.payload_inner.timestamp;
  prev_randao = p.execution_payload.payload_inner.payload_inner.prev_randao;
  suggested_fee_recipient = p.execution_payload.payload_inner.payload_inner.fee_recipient;
  withdrawals = some p.execution_payload.payload_inner.withdrawals;
  parent_beacon_block_root = some p.parent_beacon_block_root;
}
payload_attributes (OpExecutionPayloadEnvelope.v4 p) = record {
  timestamp = p.execution_payload.payload_inner.payload_inner.payload_inner.timestamp;
  prev_randao = p.execution_payload.payload_inner.payload_inner.payload_inner.prev_randao;
  suggested_fee_recipient =
      p.execution_payload.payload_inner.payload_inner.payload_inner.fee_recipient;
  withdrawals = some p.execution_payload.payload_inner.payload_inner.withdrawals;
  parent_beacon_block_root = some p.parent_beacon_block_root;
}

-- `ExecutionPayload::from(envelope)`: of alloy's enum the code builds the V3 variant alone.
unfoldable pub execution_payload : OpExecutionPayloadEnvelope → ExecutionPayloadV3
execution_payload (OpExecutionPayloadEnvelope.v3 p) = p.execution_payload
execution_payload (OpExecutionPayloadEnvelope.v4 p) = p.execution_payload.payload_inner

-- `NewPayload::from(envelope)`.
unfoldable pub to_new_payload : OpExecutionPayloadEnvelope → NewPayload
to_new_payload (OpExecutionPayloadEnvelope.v3 p) = NewPayload.v3 (record {
  payload = p.execution_payload;
  versioned_hashes = [];
  parent_beacon_block_root = p.parent_beacon_block_root;
})
to_new_payload (OpExecutionPayloadEnvelope.v4 p) = NewPayload.v4 (record {
  payload = p.execution_payload;
  versioned_hashes = [];
  parent_beacon_block_root = p.parent_beacon_block_root;
  execution_requests = p.execution_requests;
})

unfoldable pub new_payload_version : NewPayload → PayloadVersion
new_payload_version (NewPayload.v3 _) = PayloadVersion.v3
new_payload_version (NewPayload.v4 _) = PayloadVersion.v4

-- `ExecutionPayload::from(new_payload)`.
unfoldable pub new_execution_payload : NewPayload → ExecutionPayloadV3
new_execution_payload (NewPayload.v3 p) = p.payload
new_execution_payload (NewPayload.v4 p) = p.payload.payload_inner
