-- ===== src/Flashblocks.antt =====
-- `FlashblockBuilder` of crates/rollup-boost/src/flashblocks/service.rs, over the flashblock data of
-- crates/rollup-boost-types/src/flashblocks.rs: a block's base and the deltas received so far.
pub mod Assembly
pub mod Envelope
pub mod Service
pub mod Inbound
pub mod Outbound
use rollup_boost.Prelude.{
  ℕ, Bool, true, false, not, List, [], ◌∷◌, ◌++◌, Option, none, some, if◌then◌else◌, ◌==◌, nat_eq,
  length, get_last?, Result, ok, err,
}
use rollup_boost.Engine.{
  B256, Address, Bytes, Withdrawal, PayloadId, ExecutionPayloadV1, ExecutionPayloadV3,
}
use rollup_boost.Payload.{PayloadVersion, OpExecutionPayloadEnvelope}

pub record ExecutionPayloadFlashblockDeltaV1 : Type 0 where
  pub state_root : B256
  pub receipts_root : B256
  pub logs_bloom : ℕ
  pub gas_used : ℕ
  pub block_hash : B256
  pub transactions : List Bytes
  pub withdrawals : List Withdrawal
  pub withdrawals_root : B256
  pub blob_gas_used : Option ℕ

pub record ExecutionPayloadBaseV1 : Type 0 where
  pub parent_beacon_block_root : B256
  pub parent_hash : B256
  pub fee_recipient : Address
  pub prev_randao : B256
  pub block_number : ℕ
  pub gas_limit : ℕ
  pub timestamp : ℕ
  pub extra_data : Bytes
  pub base_fee_per_gas : ℕ

-- `metadata` is a JSON value that this crate passes on unread: it stands as a number.
pub record FlashblocksPayloadV1 : Type 0 where
  pub payload_id : PayloadId
  pub index : ℕ
  pub base : Option ExecutionPayloadBaseV1
  pub diff : ExecutionPayloadFlashblockDeltaV1
  pub metadata : ℕ

pub data FlashblocksError : Type 0 where
  missing_base_payload unexpected_base_payload missing_delta invalid_index missing_payload :
      FlashblocksError

pub record FlashblockBuilder : Type 0 where
  pub base : Option ExecutionPayloadBaseV1
  pub flashblocks : List ExecutionPayloadFlashblockDeltaV1

unfoldable pub new : FlashblockBuilder
new = record { base = none; flashblocks = [] }

abbrev is_some {ℓ} : {A : Type ℓ} → Option A → Bool
is_some none = false
is_some (some _) = true

abbrev push : ExecutionPayloadFlashblockDeltaV1 → FlashblockBuilder → FlashblockBuilder
push d b = record b { flashblocks = b.flashblocks ++ (d ∷ []) }

-- The branch for index 0, by its base payload.
abbrev start :
    Option ExecutionPayloadBaseV1
    → ExecutionPayloadFlashblockDeltaV1
    → FlashblockBuilder
    → Result FlashblocksError FlashblockBuilder
start none d b = err missing_base_payload
start (some base) d b = ok (push d (record b { base = some base }))

-- `extend`: on an error the builder is as before, since the code returns before it writes.
unfoldable pub extend :
    FlashblocksPayloadV1 → FlashblockBuilder → Result FlashblocksError FlashblockBuilder
extend payload b =
    if not (payload.index == length b.flashblocks)
    then err invalid_index
    else if payload.index == 0
    then start payload.base payload.diff b
    else if is_some payload.base
    then err unexpected_base_payload
    else ok (push payload.diff b)

-- The fold that joins the deltas.
unfoldable pub join_deltas :
    List ExecutionPayloadFlashblockDeltaV1
    → List Bytes × List Withdrawal
    → List Bytes × List Withdrawal
join_deltas [] acc = acc
join_deltas (d ∷ ds) (ts, ws) = join_deltas ds (ts ++ d.transactions, ws ++ d.withdrawals)

abbrev unwrap_or_zero : Option ℕ → ℕ
unwrap_or_zero none = 0
unwrap_or_zero (some n) = n

-- The execution payload over a base and the last delta.
unfoldable pub assemble :
    ExecutionPayloadBaseV1
    → ExecutionPayloadFlashblockDeltaV1
    → List ExecutionPayloadFlashblockDeltaV1
    → ExecutionPayloadV3
unfolding join_deltas
assemble base diff deltas = record {
  blob_gas_used = unwrap_or_zero diff.blob_gas_used;
  excess_blob_gas = 0;
  payload_inner = record { withdrawals = (join_deltas deltas ([], [])).1; payload_inner = inner };
}
  where
    inner : ExecutionPayloadV1
    inner = record {
      parent_hash = base.parent_hash;
      fee_recipient = base.fee_recipient;
      state_root = diff.state_root;
      receipts_root = diff.receipts_root;
      logs_bloom = diff.logs_bloom;
      prev_randao = base.prev_randao;
      block_number = base.block_number;
      gas_limit = base.gas_limit;
      gas_used = diff.gas_used;
      timestamp = base.timestamp;
      extra_data = base.extra_data;
      base_fee_per_gas = base.base_fee_per_gas;
      block_hash = diff.block_hash;
      transactions = (join_deltas deltas ([], [])).0;
    }

unfoldable pub envelope :
    ExecutionPayloadBaseV1
    → ExecutionPayloadFlashblockDeltaV1
    → List ExecutionPayloadFlashblockDeltaV1
    → PayloadVersion
    → OpExecutionPayloadEnvelope
unfolding assemble
envelope base diff deltas PayloadVersion.v3 = OpExecutionPayloadEnvelope.v3 (record {
  parent_beacon_block_root = base.parent_beacon_block_root;
  block_value = 0;
  blobs_bundle = 0;
  should_override_builder = false;
  execution_payload = assemble base diff deltas;
})
envelope base diff deltas PayloadVersion.v4 = OpExecutionPayloadEnvelope.v4 (record {
  parent_beacon_block_root = base.parent_beacon_block_root;
  block_value = 0;
  blobs_bundle = 0;
  should_override_builder = false;
  execution_payload = record {
    withdrawals_root = diff.withdrawals_root;
    payload_inner = assemble base diff deltas;
  };
  execution_requests = [];
})

-- The two early returns of `build_envelope`: no base, and no delta.
abbrev build :
    Option ExecutionPayloadBaseV1
    → Option ExecutionPayloadFlashblockDeltaV1
    → List ExecutionPayloadFlashblockDeltaV1
    → PayloadVersion
    → Result FlashblocksError OpExecutionPayloadEnvelope
build none diff deltas v = err missing_payload
build (some base) none deltas v = err missing_delta
build (some base) (some diff) deltas v = ok (envelope base diff deltas v)

unfoldable pub build_envelope :
    PayloadVersion → FlashblockBuilder → Result FlashblocksError OpExecutionPayloadEnvelope
build_envelope v b = build b.base (get_last? b.flashblocks) b.flashblocks v

-- `into_envelope` consumes the builder.
unfoldable pub into_envelope :
    PayloadVersion → FlashblockBuilder → Result FlashblocksError OpExecutionPayloadEnvelope
unfolding build_envelope
into_envelope v b = build_envelope v b
