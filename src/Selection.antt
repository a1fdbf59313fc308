-- ===== src/Selection.antt =====
-- crates/rollup-boost/src/selection.rs: the choice between the builder's block and the L2 client's.
-- `f64` is a parameter.
pub mod Monotone
use rollup_boost.Prelude.{ℕ, ◌≤◌, Bool, true, false, if◌then◌else◌, ◌≡◌}
use rollup_boost.Payload.{OpExecutionPayloadEnvelope, gas_used, PayloadSource, l2, builder}

-- What IEEE 754 gives for the operations used: `of_u64` rounds monotonically, `* 0.1` is monotone
-- and does not raise a converted integer, and `<` is a strict order that is total on such values.
pub record Float : Type 1 where
  pub F64 : Type 0
  pub of_u64 : ℕ → F64
  pub times_tenth : F64 → F64
  pub lt : F64 → F64 → Bool
  pub lt-mono_left : (m n : ℕ) (x : F64) → m ≤ n → lt (of_u64 n) x ≡ true → lt (of_u64 m) x ≡ true
  pub lt-mono_right :
      (x : F64) (m n : ℕ)
      → m ≤ n
      → lt x (times_tenth (of_u64 m)) ≡ true
      → lt x (times_tenth (of_u64 n)) ≡ true
  pub tenth_not_above : (n : ℕ) → lt (of_u64 n) (times_tenth (of_u64 n)) ≡ false

pub data BlockSelectionPolicy : Type 0 where
  gas_used_policy : BlockSelectionPolicy

module _ (float : Float) where
  unfoldable pub select_block :
      BlockSelectionPolicy
      → OpExecutionPayloadEnvelope
      → OpExecutionPayloadEnvelope
      → OpExecutionPayloadEnvelope × PayloadSource
  select_block gas_used_policy builder_payload l2_payload =
      let builder_gas = float.of_u64 (gas_used builder_payload) in
      let l2_gas = float.of_u64 (gas_used l2_payload) in
      if float.lt builder_gas (float.times_tenth l2_gas)
      then (l2_payload, l2)
      else (builder_payload, builder)
