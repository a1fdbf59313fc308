-- ===== src/Selection/Monotone.antt =====
-- How the choice depends on the gas used (crates/rollup-boost/src/selection.rs).
use rollup_boost.Prelude.{◌≤◌, ◌≡◌, arith}
use rollup_boost.Payload.{OpExecutionPayloadEnvelope, gas_used, builder}
use rollup_boost.Selection.{Float, BlockSelectionPolicy, gas_used_policy, select_block}

module _ (float : Float) where
  -- If the builder's block is chosen, then so is one that uses as much gas or more, against an L2
  -- block that uses as much or less.
  pub select_block_mono :
      (policy : BlockSelectionPolicy) (b b' l l' : OpExecutionPayloadEnvelope)
      → gas_used b ≤ gas_used b'
      → gas_used l' ≤ gas_used l
      → (select_block float policy b l).1 ≡ builder
      → select_block float policy b' l' ≡ (b', builder)
  unfolding select_block
  select_block_mono gas_used_policy b b' l l' h k c = ground (
    arith,
    float.lt-mono_left (gas_used b) (gas_used b') (float.times_tenth (float.of_u64 (gas_used l')))
        h,
    float.lt-mono_right (float.of_u64 (gas_used b)) (gas_used l') (gas_used l) k,
  )

  -- The builder's block is chosen if it uses at least the gas of the L2 block.
  pub select_block_full :
      (policy : BlockSelectionPolicy) (b l : OpExecutionPayloadEnvelope)
      → gas_used l ≤ gas_used b
      → select_block float policy b l ≡ (b, builder)
  unfolding select_block
  select_block_full gas_used_policy b l h = ground (
    arith,
    float.lt-mono_left (gas_used l) (gas_used b) (float.times_tenth (float.of_u64 (gas_used l))) h,
    float.tenth_not_above (gas_used l),
  )
