-- ===== src/Tests/Blocks.antt =====
-- The theorems on flashblocks on a block of two.
use rollup_boost.Prelude.{ℕ, ◌≡◌, refl, inl, List, [], ◌∷◌, none, some, ok, err, arith, false}
use rollup_boost.Payload.{PayloadVersion, OpExecutionPayloadEnvelope}
use rollup_boost.Flashblocks.{
  ExecutionPayloadBaseV1, ExecutionPayloadFlashblockDeltaV1, FlashblocksPayloadV1,
  FlashblockBuilder, FlashblocksError, extend, build_envelope, into_envelope, missing_payload,
  envelope,
}
use rollup_boost.Flashblocks
use rollup_boost.Flashblocks.Assembly.{extend_all}
use rollup_boost.Flashblocks.Envelope.{IsWellFormed}
use rollup_boost.Flashblocks.Service.{
  FlashblocksService, get_best_payload, take_best_payload, reset_builder, set_current_payload_id,
  on_event, accepts_event, apply_event,
}
use rollup_boost.Flashblocks.Service
use rollup_boost.Flashblocks.Service.Locks.{
  Section, id_written, builder_reset, event_checked, event_applied, payload_checked, section,
  sections, fresh,
}
use rollup_boost.Flashblocks.Service.Provenance.{HasBlock, Among}
use rollup_boost.Flashblocks.Service.Undisturbed.{AreClear, get_best_payload_own}
use rollup_boost.Flashblocks.Service.Races.{on_event_overtaken, stale_flashblock_served}

abbrev v4 : PayloadVersion
v4 = PayloadVersion.v4

abbrev pub base : ExecutionPayloadBaseV1
base = record {
  parent_beacon_block_root = 5;
  parent_hash = 7;
  fee_recipient = 1;
  prev_randao = 4;
  block_number = 12;
  gas_limit = 60;
  timestamp = 100;
  extra_data = 0;
  base_fee_per_gas = 1;
}

-- A delta with one transaction.
abbrev pub delta : ℕ → ExecutionPayloadFlashblockDeltaV1
delta tx = record {
  state_root = 2;
  receipts_root = 3;
  logs_bloom = 0;
  gas_used = tx;
  block_hash = 80;
  transactions = tx ∷ [];
  withdrawals = [];
  withdrawals_root = 6;
  blob_gas_used = none;
}

abbrev pub first : FlashblocksPayloadV1
first = record { payload_id = 3; index = 0; base = some base; diff = delta 21; metadata = 0 }

abbrev pub second : FlashblocksPayloadV1
second = record { payload_id = 3; index = 1; base = none; diff = delta 22; metadata = 0 }

abbrev pub both : FlashblockBuilder
both = record { base = some base; flashblocks = delta 21 ∷ delta 22 ∷ [] }

abbrev pub one : FlashblockBuilder
one = record { base = some base; flashblocks = delta 21 ∷ [] }

both_built : extend_all (first ∷ second ∷ []) Flashblocks.new ≡ ok both
unfolding extend_all extend Flashblocks.new
both_built = refl

second_accepted : extend second one ≡ ok both
unfolding extend
second_accepted = refl

fresh_fails : build_envelope v4 Flashblocks.new ≡ err missing_payload
unfolding build_envelope Flashblocks.new
fresh_fails = refl

fresh_formed : IsWellFormed Flashblocks.new
unfolding Flashblocks.new
fresh_formed = inl (refl, refl)

-- An update, two flashblocks, and a request, up to its second lock.
abbrev history : List Section
history =
    id_written 3
    ∷ builder_reset
    ∷ event_checked first
    ∷ event_applied
    ∷ event_checked second
    ∷ payload_checked 3
    ∷ event_applied
    ∷ []

abbrev block : OpExecutionPayloadEnvelope
block = envelope base (delta 22) (delta 21 ∷ delta 22 ∷ []) v4

history_clear : AreClear history fresh
unfolding section fresh reset_builder Service.new accepts_event apply_event extend Flashblocks.new
history_clear = (refl, (tt, (refl, (tt, (refl, (refl, (tt, tt)))))))

block_served : (take_best_payload v4 (sections history fresh).service).0 ≡ ok block
unfolding sections section fresh reset_builder Service.new accepts_event apply_event extend
    Flashblocks.new take_best_payload into_envelope build_envelope
block_served = refl

update_done : (sections history fresh).resetting ≡ false
unfolding sections section fresh reset_builder Service.new accepts_event apply_event extend
    Flashblocks.new
update_done = refl

request_passed : Among (sections history fresh).asked 3
unfolding sections section fresh reset_builder Service.new accepts_event apply_event extend
    Flashblocks.new
request_passed = inl refl

get_best_payload_own_example : HasBlock (λ j. j ≡ 3) v4 block
get_best_payload_own_example =
    get_best_payload_own history 3 v4 block history_clear update_done request_passed block_served

abbrev waiting : FlashblocksService
waiting = record {
  current_payload_id = some 3;
  best_payload = record { base = none; flashblocks = [] };
  max_flashblocks = 0;
  published = [];
}

stale_flashblock_served_example :
    ((get_best_payload v4 8 (on_event_overtaken first 8 waiting)).0
      ≡ ok (envelope base (delta 21) (delta 21 ∷ []) v4))
    × (on_event first (set_current_payload_id 8 waiting) ≡ set_current_payload_id 8 waiting)
stale_flashblock_served_example =
    stale_flashblock_served first base waiting 8 v4 refl refl refl (λ h. absurd (omega (arith, h)))
