-- ===== src/Flashblocks/Service/Locks.antt =====
-- The operations of FlashblocksService as sections under its locks, between which the sections of
-- other tasks come (crates/rollup-boost/src/flashblocks/service.rs). The receiving task handles one
-- flashblock at a time; updates and requests run side by side.
use rollup_boost.Prelude.{
  ℕ, Bool, true, false, List, [], ◌∷◌, Option, none, some, if◌then◌else◌, nat_eq, Result, ok, err,
}
use rollup_boost.Engine.{B256, PayloadId, OpPayloadAttributes, ForkchoiceState, ForkchoiceUpdated}
use rollup_boost.Payload.{PayloadVersion, OpExecutionPayloadEnvelope}
use rollup_boost.Flashblocks.{FlashblocksPayloadV1, FlashblocksError}
use rollup_boost.Flashblocks.Service.{
  FlashblocksService, new, is_current, write_id, reset_builder, accepts_event, apply_event,
  take_best_payload,
}

-- What one task does under one lock: the two sections of `set_current_payload_id`, of `on_event` and
-- of `get_best_payload`.
pub data Section : Type 0 where
  id_written : PayloadId → Section
  builder_reset : Section
  event_checked : FlashblocksPayloadV1 → Section
  event_applied : Section
  payload_checked : PayloadId → Section
  payload_taken : PayloadVersion → Section

-- The service, with the flashblock that `on_event` has checked and not yet applied, whether an id
-- was written and the builder not reset since, the ids of the requests that have passed their check
-- since the builder was last reset, and all ids written. The last three only record what was done.
pub record Shared : Type 0 where
  pub service : FlashblocksService
  pub checked : Option FlashblocksPayloadV1
  pub resetting : Bool
  pub asked : List PayloadId
  pub written : List PayloadId

unfoldable pub fresh : Shared
unfolding new
fresh = record { service = new; checked = none; resetting = false; asked = []; written = [] }

-- The receiving task looks at a flashblock only when it is done with the one before.
abbrev pub check_next : FlashblocksPayloadV1 → Option FlashblocksPayloadV1 → Shared → Shared
check_next p (some q) w = w
check_next p none w = if accepts_event p w.service then record w { checked = some p } else w

abbrev pub apply_checked : Option FlashblocksPayloadV1 → Shared → Shared
apply_checked none w = w
apply_checked (some p) w = record w { service = apply_event p w.service; checked = none }

unfoldable pub section : Section → Shared → Shared
unfolding accepts_event apply_event reset_builder take_best_payload
section (id_written id) w = record w {
  service = write_id id w.service;
  resetting = true;
  written = id ∷ w.written;
}
section builder_reset w = record w {
  service = reset_builder w.service;
  resetting = false;
  asked = [];
}
section (event_checked p) w = check_next p w.checked w
section event_applied w = apply_checked w.checked w
section (payload_checked id) w =
    if is_current id w.service.current_payload_id then record w { asked = id ∷ w.asked } else w
section (payload_taken v) w = record w { service = (take_best_payload v w.service).1 }

unfoldable pub sections : List Section → Shared → Shared
unfolding section
sections [] w = w
sections (x ∷ xs) w = sections xs (section x w)

-- `set_current_payload_id`, with what other tasks do between its two locks.
unfoldable pub set_current_payload_id : List Section → PayloadId → Shared → Shared
unfolding sections
set_current_payload_id between id w =
    section builder_reset (sections between (section (id_written id) w))

-- What other tasks do in the gaps of an operation, by their number.
abbrev pub Gaps : Type 0
Gaps = ℕ → List Section

-- The expected id is set.
abbrev pub announce :
    (B256 → OpPayloadAttributes → ℕ → PayloadId)
    → Gaps
    → ForkchoiceState
    → Option OpPayloadAttributes
    → Shared
    → Shared
announce payload_id_optimism gaps f none w = w
announce payload_id_optimism gaps f (some attr) w =
    set_current_payload_id (gaps 0) (payload_id_optimism f.head_block_hash attr 3) w

-- The answer names an id: where it is not the current one, it is set.
abbrev pub adopt : Gaps → Option PayloadId → Shared → Shared
adopt gaps none w = w
adopt gaps (some id) w =
    if is_current id w.service.current_payload_id
    then w
    else set_current_payload_id (gaps 3) id (sections (gaps 2) w)

abbrev pub answered :
    {E : Type 0} → Gaps → Result E ForkchoiceUpdated → Shared → Result E ForkchoiceUpdated × Shared
answered gaps (err e) w = (err e, w)
answered gaps (ok resp) w = (ok resp, adopt gaps resp.payload_id w)

-- A forkchoice update: the expected id is set, and the client is asked, which takes its time.
unfoldable pub fork_choice_updated_v3 :
    {E : Type 0}
    → (B256 → OpPayloadAttributes → ℕ → PayloadId)
    → Gaps
    → ForkchoiceState
    → Option OpPayloadAttributes
    → Result E ForkchoiceUpdated
    → Shared
    → Result E ForkchoiceUpdated × Shared
unfolding set_current_payload_id
fork_choice_updated_v3 payload_id_optimism gaps f attrs answer w =
    answered gaps answer (sections (gaps 1) (announce payload_id_optimism gaps f attrs w))

-- What `get_payload` returns: the flashblocks payload, or else the client's answer to `getPayload`.
abbrev pub or_client :
    {E : Type 0}
    → Result E OpExecutionPayloadEnvelope
    → Result FlashblocksError OpExecutionPayloadEnvelope
    → Result E OpExecutionPayloadEnvelope
or_client answer (ok payload) = ok payload
or_client answer (err e) = answer

-- `get_payload` over `get_best_payload`.
unfoldable pub get_payload :
    {E : Type 0}
    → Gaps
    → PayloadId
    → PayloadVersion
    → Result E OpExecutionPayloadEnvelope
    → Shared
    → Result E OpExecutionPayloadEnvelope × Shared
unfolding sections take_best_payload
get_payload gaps id v answer w =
    let later = sections (gaps 0) (section (payload_checked id) w) in
    if is_current id w.service.current_payload_id
    then (or_client answer (take_best_payload v later.service).0, section (payload_taken v) later)
    else (answer, w)
