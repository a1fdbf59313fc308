-- ===== src/FlashblocksRpc/Cache/Pending.antt =====
-- What the pending block is made of (crates/flashblocks-rpc/src/cache.rs).
use rollup_boost.Prelude.{
  List, [], ◌∷◌, some, ◌≡◌, refl, inl, inr, ok, nat_eq, if◌then◌else◌, Bool, true, false,
  Bool-cases,
}
use rollup_boost.Prelude.Attempt.{Attempt, done, failed, panicked}
use rollup_boost.Payload.{PayloadVersion, OpExecutionPayloadEnvelope, execution_payload}
use rollup_boost.Flashblocks.{
  FlashblocksPayloadV1, FlashblockBuilder, FlashblocksError, extend, build_envelope,
}
use rollup_boost.Flashblocks
use rollup_boost.Flashblocks.Assembly.{extend_all}
use rollup_boost.FlashblocksRpc.Cache.{
  Chain, FlashblocksCacheInner, CacheError, new, process_inner, process_payload, stored,
}

module _ (chain : Chain) where
  abbrev is_panicked : {E A : Type 0} → Attempt E A → Bool
  is_panicked panicked = true
  is_panicked _ = false

  -- The receiving task: a flashblock that fails is logged and the next one is taken, a panic ends
  -- the task.
  unfoldable pub receive :
      List FlashblocksPayloadV1 → FlashblocksCacheInner chain → FlashblocksCacheInner chain
  receive [] c = c
  receive (p ∷ ps) c =
      let rest = receive ps (process_payload chain p c).1 in
      if is_panicked (process_payload chain p c).0 then (process_payload chain p c).1 else rest

  -- `ps` are the flashblocks in the cache's builder, and the block is built from all of them.
  record Holds (ps : List FlashblocksPayloadV1) (c : FlashblocksCacheInner chain) : Type 0 where
    built : extend_all ps Flashblocks.new ≡ ok c.builder
    shown :
        (b : chain.Block)
        → c.block ≡ some b
        → (e : OpExecutionPayloadEnvelope) × (build_envelope PayloadVersion.v4 c.builder ≡ ok e)
          × (chain.try_into_block (execution_payload e) ≡ some b)

  stored_keeps :
      (P : FlashblocksCacheInner chain → Type 0) (c : FlashblocksCacheInner chain)
      (r : Attempt CacheError (FlashblocksCacheInner chain))
      → P c
      → ((d : FlashblocksCacheInner chain) → r ≡ done d → P d)
      → P (stored chain r c).1
  stored_keeps P c (done d) h k = k d refl
  stored_keeps P c (failed e) h k = h
  stored_keeps P c panicked h k = h

  -- What every flashblock that is taken keeps, holds whatever is received.
  pub receive_keeps :
      (P : FlashblocksCacheInner chain → Type 0)
      → ((p : FlashblocksPayloadV1) (c d : FlashblocksCacheInner chain)
          → P c
          → process_inner chain p c ≡ done d
          → P d)
      → (es : List FlashblocksPayloadV1) (c : FlashblocksCacheInner chain) → P c
      → P (receive es c)
  unfolding receive process_payload
  receive_keeps P f [] c h = h
  receive_keeps P f (p ∷ es) c h =
      let k = stored_keeps P c (process_inner chain p c) h (λ d e. f p c d h e) in
      elim (Bool-cases (is_panicked (process_payload chain p c).0)) [
        | inl e ↦ rw (e, process_payload) k
        | inr e ↦ rw (e, process_payload) (receive_keeps P f es (process_payload chain p c).1 k)
      ]
