-- ===== src/Flashblocks/Service.antt =====
-- `FlashblocksService` of crates/rollup-boost/src/flashblocks/service.rs: the builder client in
-- flashblocks mode. Messages for the subscribers are the list `published`; the RPC client's answers
-- are arguments. The code takes a lock for each access to the id and to the builder: what stands
-- under one lock is one step here, and Service/Locks puts these steps in any order.
pub mod Locks
pub mod Provenance
pub mod Traced
pub mod Undisturbed
pub mod Races
use rollup_boost.Prelude.{
  ℕ, Bool, true, false, List, [], ◌∷◌, ◌++◌, Option, none, some, if◌then◌else◌, ◌==◌, nat_eq, max,
  length, Result, ok, err,
}
use rollup_boost.Engine.{B256, PayloadId, OpPayloadAttributes, ForkchoiceState, ForkchoiceUpdated}
use rollup_boost.Payload.{PayloadVersion, OpExecutionPayloadEnvelope}
use rollup_boost.Flashblocks.{
  FlashblocksPayloadV1, FlashblocksError, missing_payload, FlashblockBuilder, extend, into_envelope,
}
use rollup_boost.Flashblocks

pub record FlashblocksService : Type 0 where
  pub current_payload_id : Option PayloadId
  pub best_payload : FlashblockBuilder
  pub max_flashblocks : ℕ
  pub published : List FlashblocksPayloadV1

unfoldable pub new : FlashblocksService
unfolding Flashblocks.new
new = record {
  current_payload_id = none;
  best_payload = Flashblocks.new;
  max_flashblocks = 0;
  published = [];
}

-- `*current_payload_id == Some(payload_id)`.
abbrev pub is_current : PayloadId → Option PayloadId → Bool
is_current id none = false
is_current id (some j) = j == id

-- The best payload is taken, also where no envelope can be made of it: the part of
-- `get_best_payload` under the lock of the builder.
abbrev pub taken : FlashblocksService → FlashblocksService
taken s = record s {
  best_payload = Flashblocks.new;
  max_flashblocks = max s.max_flashblocks (length s.best_payload.flashblocks);
}

unfoldable pub take_best_payload :
    PayloadVersion
    → FlashblocksService
    → Result FlashblocksError OpExecutionPayloadEnvelope × FlashblocksService
unfolding Flashblocks.new into_envelope
take_best_payload v s = (into_envelope v s.best_payload, taken s)

-- `get_best_payload` where nothing comes between its two locks.
unfoldable pub get_best_payload :
    PayloadVersion
    → PayloadId
    → FlashblocksService
    → Result FlashblocksError OpExecutionPayloadEnvelope × FlashblocksService
unfolding take_best_payload
get_best_payload v id s =
    if is_current id s.current_payload_id then take_best_payload v s else (err missing_payload, s)

-- The two parts of `set_current_payload_id`, each under a lock of its own.
abbrev pub write_id : PayloadId → FlashblocksService → FlashblocksService
write_id id s = record s { current_payload_id = some id }

unfoldable pub reset_builder : FlashblocksService → FlashblocksService
unfolding Flashblocks.new
reset_builder s = record s { best_payload = Flashblocks.new }

-- `set_current_payload_id` where nothing comes between the two.
unfoldable pub set_current_payload_id : PayloadId → FlashblocksService → FlashblocksService
unfolding reset_builder
set_current_payload_id id s = reset_builder (write_id id s)

-- The first half of `on_event`, under the lock of the current id: is the flashblock for it?
unfoldable pub accepts_event : FlashblocksPayloadV1 → FlashblocksService → Bool
accepts_event p s = is_current p.payload_id s.current_payload_id

-- The second half, under the lock of the best payload: extend it, and publish what it accepts.
unfoldable pub apply_event : FlashblocksPayloadV1 → FlashblocksService → FlashblocksService
apply_event p s = elim (extend p s.best_payload) [
  | err e ↦ s
  | ok b ↦ record s { best_payload = b; published = s.published ++ (p ∷ []) }
]

-- `on_event` where nothing comes between the two.
unfoldable pub on_event : FlashblocksPayloadV1 → FlashblocksService → FlashblocksService
unfolding accepts_event apply_event
on_event p s = if accepts_event p s then apply_event p s else s
