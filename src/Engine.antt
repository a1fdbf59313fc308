-- ===== src/Engine.antt =====
-- The Engine API's data as the code reads and writes it: the structs of alloy and op-alloy with the
-- fields that rollup-boost touches (used in crates/rollup-boost-types/src/payload.rs and
-- crates/rollup-boost/src/server.rs). Hashes, addresses, byte strings, blooms, withdrawals and
-- 256-bit words are carried and compared, never computed with: each stands as a number.
use rollup_boost.Prelude.{ℕ, Bool, List, Option}

abbrev pub B256 : Type 0
B256 = ℕ

abbrev pub Address : Type 0
Address = ℕ

abbrev pub Bytes : Type 0
Bytes = ℕ

abbrev pub Withdrawal : Type 0
Withdrawal = ℕ

abbrev pub PayloadId : Type 0
PayloadId = ℕ

pub record ExecutionPayloadV1 : Type 0 where
  pub parent_hash : B256
  pub fee_recipient : Address
  pub state_root : B256
  pub receipts_root : B256
  pub logs_bloom : ℕ
  pub prev_randao : B256
  pub block_number : ℕ
  pub gas_limit : ℕ
  pub gas_used : ℕ
  pub timestamp : ℕ
  pub extra_data : Bytes
  pub base_fee_per_gas : ℕ
  pub block_hash : B256
  pub transactions : List Bytes

pub record ExecutionPayloadV2 : Type 0 where
  pub payload_inner : ExecutionPayloadV1
  pub withdrawals : List Withdrawal

pub record ExecutionPayloadV3 : Type 0 where
  pub payload_inner : ExecutionPayloadV2
  pub blob_gas_used : ℕ
  pub excess_blob_gas : ℕ

pub record OpExecutionPayloadV4 : Type 0 where
  pub payload_inner : ExecutionPayloadV3
  pub withdrawals_root : B256

-- The blobs bundle stands for `BlobsBundleV1` by a number, 0 for its default.
pub record OpExecutionPayloadEnvelopeV3 : Type 0 where
  pub execution_payload : ExecutionPayloadV3
  pub block_value : ℕ
  pub blobs_bundle : ℕ
  pub should_override_builder : Bool
  pub parent_beacon_block_root : B256

pub record OpExecutionPayloadEnvelopeV4 : Type 0 where
  pub execution_payload : OpExecutionPayloadV4
  pub block_value : ℕ
  pub blobs_bundle : ℕ
  pub should_override_builder : Bool
  pub parent_beacon_block_root : B256
  pub execution_requests : List Bytes

pub record PayloadAttributes : Type 0 where
  pub timestamp : ℕ
  pub prev_randao : B256
  pub suggested_fee_recipient : Address
  pub withdrawals : Option (List Withdrawal)
  pub parent_beacon_block_root : Option B256

pub record OpPayloadAttributes : Type 0 where
  pub payload_attributes : PayloadAttributes
  pub transactions : Option (List Bytes)
  pub no_tx_pool : Option Bool
  pub gas_limit : Option ℕ
  pub eip_1559_params : Option ℕ
  pub min_base_fee : Option ℕ

pub record ForkchoiceState : Type 0 where
  pub head_block_hash : B256
  pub safe_block_hash : B256
  pub finalized_block_hash : B256

-- `PayloadStatusEnum`; `invalid` carries its validation error.
pub data PayloadStatusEnum : Type 0 where
  valid syncing accepted : PayloadStatusEnum
  invalid : ℕ → PayloadStatusEnum

pub record PayloadStatus : Type 0 where
  pub status : PayloadStatusEnum
  pub latest_valid_hash : Option B256

pub record ForkchoiceUpdated : Type 0 where
  pub payload_status : PayloadStatus
  pub payload_id : Option PayloadId

-- The part of a block that the health check reads.
pub record Block : Type 0 where
  pub timestamp : ℕ
