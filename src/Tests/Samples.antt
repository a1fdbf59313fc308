-- ===== src/Tests/Samples.antt =====
-- Libraries, clients and payloads to run the definitions on: caches, maps, a semaphore and numbers
-- that have what the models ask of them, and clients with fixed answers.
use rollup_boost.Prelude.{
  ℕ, zero, suc, ◌+◌, ◌*◌, ◌/◌, ◌≤◌, ◌≡◌, refl, ◌⊎◌, inl, inr, Bool, true, false, List, [], ◌∷◌,
  Option, none, some, ltb, arith, Eq, nat_eq, ok,
}
use rollup_boost.Prelude.Keys
use rollup_boost.Engine.{
  PayloadId, ExecutionPayloadV1, ExecutionPayloadV3, OpExecutionPayloadEnvelopeV3,
  OpExecutionPayloadEnvelopeV4, ForkchoiceState, OpPayloadAttributes, PayloadStatus, valid,
  ForkchoiceUpdated,
}
use rollup_boost.Payload.{OpExecutionPayloadEnvelope}
use rollup_boost.Payload.Trace.{CacheOps, PayloadTrace, new, store}
use rollup_boost.Probe.{healthy}
use rollup_boost.RateLimit.{Semaphore}
use rollup_boost.Selection.{Float, gas_used_policy}
use rollup_boost.Server.{MapOps, FcuRequest, Deps, Env, RollupBoostServer, ExecutionMode}

pub get_empty : {K V : Type 0} ⦃e : Eq K⦄ (k : K) → Keys.get {V = V} k [] ≡ none
unfolding Keys.get
get_empty k = refl

-- A cache that drops nothing.
abbrev pub cache : (K V : Type 0) ⦃e : Eq K⦄ → CacheOps K V
cache K V = record {
  Cache = List (K × V);
  empty = [];
  get = Keys.get;
  insert = Keys.insert;
  remove = Keys.remove;
  get-empty = get_empty;
  get-insert = λ k j v c. inr (Keys.get-insert k j v c);
  get-remove = Keys.get-remove;
}

abbrev pub map_ops : (V : Type 0) → MapOps V
map_ops V = record {
  Map = List (PayloadId × V);
  empty = [];
  get = Keys.get;
  insert = Keys.insert;
  remove = Keys.remove;
  get-empty = get_empty;
  get-insert = Keys.get-insert;
  get-remove = Keys.get-remove;
}

-- A semaphore that is its free permits.
abbrev pub take_permit : ℕ → Option ℕ
take_permit zero = none
take_permit (suc n) = some n

pub take_permit_cases :
    (s : ℕ)
    → ((s ≡ 0) × (take_permit s ≡ none)) ⊎ ((t : ℕ) × (take_permit s ≡ some t) × (t + 1 ≡ s))
take_permit_cases zero = inl (refl, refl)
take_permit_cases (suc n) = inr (n, refl, omega arith)

abbrev pub permits : Semaphore
permits = record {
  State = ℕ;
  new = λ n. n;
  available_permits = λ s. s;
  try_acquire_owned = take_permit;
  release = λ s. s + 1;
  available-new = λ n. refl;
  try_acquire_cases = take_permit_cases;
  available-release = λ s. refl;
}

pub tenths_left : (m n x : ℕ) → m ≤ n → ltb (10 * n) x ≡ true → ltb (10 * m) x ≡ true
tenths_left m n x h k = ground arith

pub tenths_right : (x m n : ℕ) → m ≤ n → ltb x (10 * m / 10) ≡ true → ltb x (10 * n / 10) ≡ true
tenths_right x m n h k = ground arith

pub tenths_above : (n : ℕ) → ltb (10 * n) (10 * n / 10) ≡ false
tenths_above n = ground arith

-- Numbers counted in tenths.
abbrev pub tenths : Float
tenths = record {
  F64 = ℕ;
  of_u64 = λ n. 10 * n;
  times_tenth = λ x. x / 10;
  lt = ltb;
  lt-mono_left = tenths_left;
  lt-mono_right = tenths_right;
  tenth_not_above = tenths_above;
}

abbrev pub deps : Deps
deps = record {
  hashes = cache ℕ (List PayloadId);
  ids = cache PayloadId PayloadTrace;
  requests = map_ops FcuRequest;
  float = tenths;
}

-- A payload by its gas and its block hash.
abbrev pub inner_payload : ℕ → ℕ → ExecutionPayloadV1
inner_payload gas hash = record {
  parent_hash = 7;
  fee_recipient = 1;
  state_root = 2;
  receipts_root = 3;
  logs_bloom = 0;
  prev_randao = 4;
  block_number = 12;
  gas_limit = 60;
  gas_used = gas;
  timestamp = 100;
  extra_data = 0;
  base_fee_per_gas = 1;
  block_hash = hash;
  transactions = 21 ∷ 22 ∷ [];
}

abbrev pub payload_v3 : ℕ → ℕ → ExecutionPayloadV3
payload_v3 gas hash = record {
  payload_inner = record { payload_inner = inner_payload gas hash; withdrawals = [] };
  blob_gas_used = 0;
  excess_blob_gas = 0;
}

abbrev pub envelope_v3 : ℕ → ℕ → OpExecutionPayloadEnvelopeV3
envelope_v3 gas hash = record {
  execution_payload = payload_v3 gas hash;
  block_value = 0;
  blobs_bundle = 0;
  should_override_builder = false;
  parent_beacon_block_root = 5;
}

abbrev pub envelope_v4 : ℕ → ℕ → OpExecutionPayloadEnvelopeV4
envelope_v4 gas hash = record {
  execution_payload = record { payload_inner = payload_v3 gas hash; withdrawals_root = 6 };
  block_value = 0;
  blobs_bundle = 0;
  should_override_builder = false;
  parent_beacon_block_root = 5;
  execution_requests = [];
}

abbrev pub l2_block : OpExecutionPayloadEnvelope
l2_block = OpExecutionPayloadEnvelope.v3 (envelope_v3 30 90)

abbrev pub builder_block : OpExecutionPayloadEnvelope
builder_block = OpExecutionPayloadEnvelope.v3 (envelope_v3 40 91)

abbrev pub state : ForkchoiceState
state = record { head_block_hash = 7; safe_block_hash = 6; finalized_block_hash = 5 }

abbrev pub attributes : OpPayloadAttributes
attributes = record {
  payload_attributes = record {
    timestamp = 100;
    prev_randao = 4;
    suggested_fee_recipient = 1;
    withdrawals = none;
    parent_beacon_block_root = some 5;
  };
  transactions = some (21 ∷ []);
  no_tx_pool = some false;
  gas_limit = some 60;
  eip_1559_params = none;
  min_base_fee = none;
}

abbrev pub good_status : PayloadStatus
good_status = record { status = valid; latest_valid_hash = some 7 }

abbrev pub updated : ForkchoiceUpdated
updated = record { payload_status = good_status; payload_id = some 3 }

-- Both clients answer well; the builder runs first.
abbrev pub clients : Env
clients = record {
  l2_fork_choice_updated = λ c f a. ok updated;
  l2_get_payload_v3 = λ c i. ok (envelope_v3 30 90);
  l2_get_payload_v4 = λ c i. ok (envelope_v4 30 90);
  l2_new_payload = λ c p. ok good_status;
  l2_get_block = λ c n b. ok (record { timestamp = 100 });
  builder_fork_choice_updated = λ c f a. ok updated;
  builder_get_payload = λ c i v. ok builder_block;
  l2_first = λ c. false;
  span_id = λ c. some 1;
  mode = λ c m. m;
  health = λ c h. h;
}

-- A server in a mode, with state roots computed outside or not, whose trace context says that the
-- builder has payload 3.
abbrev pub server : ExecutionMode → Bool → RollupBoostServer deps
server mode external = record {
  execution_mode = mode;
  block_selection_policy = some gas_used_policy;
  external_state_root = external;
  ignore_unhealthy_builders = false;
  health = healthy;
  payload_trace_context = store deps.hashes deps.ids 3 7 true none (new deps.hashes deps.ids);
  payload_to_fcu_request = [];
  calls = [];
}
