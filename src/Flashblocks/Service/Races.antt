-- ===== src/Flashblocks/Service/Races.antt =====
-- A window between the two locks of `on_event`
-- (crates/rollup-boost/src/flashblocks/service.rs).
use rollup_boost.Prelude.{[], ◌∷◌, some, ◌≡◌, ◌≢◌, arith, ok, if◌then◌else◌, nat_eq}
use rollup_boost.Engine.{PayloadId}
use rollup_boost.Payload.{PayloadVersion}
use rollup_boost.Flashblocks.{ExecutionPayloadBaseV1, FlashblocksPayloadV1, envelope}
use rollup_boost.Flashblocks.Assembly.{extend_first}
use rollup_boost.Flashblocks.Service.{
  FlashblocksService, get_best_payload, set_current_payload_id, accepts_event, apply_event,
  on_event, reset_builder, take_best_payload,
}

-- `on_event`, with a forkchoice update that sets `id` after the check and before the write.
unfoldable pub on_event_overtaken :
    FlashblocksPayloadV1 → PayloadId → FlashblocksService → FlashblocksService
on_event_overtaken p id s =
    let later = set_current_payload_id id s in
    if accepts_event p s then apply_event p later else later

-- The id is checked under one lock and the builder extended under another. A first flashblock that
-- is for the current id when it is checked, and is overtaken by a forkchoice update which sets
-- another id, is accepted into the new block's builder: what is then served for the new id is the
-- old block. Handled after the update, the flashblock would have been ignored.
pub stale_flashblock_served :
    (p : FlashblocksPayloadV1) (x : ExecutionPayloadBaseV1) (s : FlashblocksService)
    (id : PayloadId) (v : PayloadVersion)
    → s.current_payload_id ≡ some p.payload_id
    → p.index ≡ 0
    → p.base ≡ some x
    → p.payload_id ≢ id
    → ((get_best_payload v id (on_event_overtaken p id s)).0
        ≡ ok (envelope x p.diff (p.diff ∷ []) v))
      × (on_event p (set_current_payload_id id s) ≡ set_current_payload_id id s)
unfolding on_event_overtaken apply_event set_current_payload_id get_best_payload accepts_event
    on_event reset_builder take_best_payload
stale_flashblock_served p x s id v a i b d = (ground (arith, extend_first p x i b), ground arith)
