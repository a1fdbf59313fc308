-- ===== src/FlashblocksRpc/Cache/Atomic.antt =====
-- Where the cache starts anew, and what it does not look at (crates/flashblocks-rpc/src/cache.rs).
use rollup_boost.Prelude.{◌≡◌, refl, nat_eq, arith}
use rollup_boost.Engine.{PayloadId}
use rollup_boost.Flashblocks.{FlashblocksPayloadV1, extend}
use rollup_boost.FlashblocksRpc.Cache.{
  Chain, FlashblocksCacheInner, started, reset, process_inner, process_payload,
}

module _ (chain : Chain) where
  started_fresh :
      (p : FlashblocksPayloadV1) (c d : FlashblocksCacheInner chain)
      → p.index ≡ 0
      → started chain p c ≡ started chain p d
  unfolding reset
  started_fresh p c d h = ground arith

  -- A flashblock with index 0 starts anew: what comes of it does not depend on what was cached.
  pub process_inner_fresh :
      (p : FlashblocksPayloadV1) (c d : FlashblocksCacheInner chain)
      → p.index ≡ 0
      → process_inner chain p c ≡ process_inner chain p d
  unfolding process_inner
  process_inner_fresh p c d h = rw (started_fresh p c d h) refl

  extend_any_id :
      (p : FlashblocksPayloadV1) (id : PayloadId) → extend (record p { payload_id = id }) ≡ extend p
  unfolding extend
  extend_any_id p id = refl

  -- Which payload a flashblock belongs to makes no difference: a flashblock of another payload is
  -- treated like the next one of the block that is being received.
  pub payload_id_ignored :
      (p : FlashblocksPayloadV1) (id : PayloadId) (c : FlashblocksCacheInner chain)
      → process_payload chain (record p { payload_id = id }) c ≡ process_payload chain p c
  unfolding process_payload extend
  payload_id_ignored p id c = refl
