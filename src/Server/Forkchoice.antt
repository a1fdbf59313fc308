-- ===== src/Server/Forkchoice.antt =====
-- What `fork_choice_updated_v3` answers, whom it asks, and what it records
-- (crates/rollup-boost/src/server.rs).
use rollup_boost.Prelude.{
  Bool, true, false, ◌||◌, List, ◌∷◌, Option, none, some, ◌≡◌, inl, inr, arith, nat_eq, Bool-cases,
  Result, ok, err,
}
use rollup_boost.Engine.{ForkchoiceState, OpPayloadAttributes, ForkchoiceUpdated}
use rollup_boost.Payload.{l2, builder}
use rollup_boost.Rpc.{RpcClientError, to_error_object}
use rollup_boost.Rpc
use rollup_boost.Server.{
  is_disabled, Deps, Call, fork_choice_updated, Env, RollupBoostServer, Outcome, done, failed,
  should_skip_unhealthy_builder,
}
use rollup_boost.Server.Handlers.{
  fork_choice_updated_v3, fcu_forward, fcu_both, fcu_no_attributes, fcu_no_tx_pool, fcu_l2_only,
  unwrap_or_default,
}

-- A handler's outcome that is the answer of a client.
abbrev pub answer : {A : Type 0} → Result RpcClientError A → Outcome A
answer (ok a) = done a
answer (err e) = failed (to_error_object e)

module _ (d : Deps) (env : Env) where
  -- What the L2 client says to an update, after the given calls.
  abbrev pub l2_answer :
      List Call
      → ForkchoiceState
      → Option OpPayloadAttributes
      → Result RpcClientError ForkchoiceUpdated
  l2_answer calls f attrs = Rpc.fork_choice_updated_v3 (env.l2_fork_choice_updated calls f attrs)

  l2_only_answers :
      (f : ForkchoiceState) (attrs : Option OpPayloadAttributes) (s : RollupBoostServer d)
      → (fcu_l2_only d env f attrs s).0 ≡ answer (l2_answer s.calls f attrs)
  unfolding fcu_l2_only
  l2_only_answers f attrs s = ground arith

  no_tx_pool_answers :
      (f : ForkchoiceState) (attrs : Option OpPayloadAttributes) (s : RollupBoostServer d)
      → (fcu_no_tx_pool d env f attrs s).0 ≡ answer (l2_answer s.calls f attrs)
  unfolding fcu_no_tx_pool
  no_tx_pool_answers f attrs s = ground arith

  both_answers :
      (f : ForkchoiceState) (attrs : Option OpPayloadAttributes) (s : RollupBoostServer d)
      → (calls : List Call) × ((fcu_both d env f attrs s).0 ≡ answer (l2_answer calls f attrs))
  unfolding fcu_both
  both_answers f attrs s = elim (Bool-cases (env.l2_first s.calls)) [
    | inl e ↦ (s.calls, rw (e, fcu_both) (ground arith))
    | inr e ↦ (fork_choice_updated builder f attrs ∷ s.calls, rw (e, fcu_both) (ground arith))
  ]

  no_attributes_answers :
      (f : ForkchoiceState) (s : RollupBoostServer d)
      → (calls : List Call) × ((fcu_no_attributes d env f s).0 ≡ answer (l2_answer calls f none))
  unfolding fcu_no_attributes
  no_attributes_answers f s = (fork_choice_updated builder f none ∷ s.calls, ground arith)

  forward_answers :
      (f : ForkchoiceState) (attrs : Option OpPayloadAttributes) (s : RollupBoostServer d)
      → (calls : List Call) × ((fcu_forward d env f attrs s).0 ≡ answer (l2_answer calls f attrs))
  unfolding fcu_forward
  forward_answers f none s = no_attributes_answers f s
  forward_answers f (some a) s = elim (Bool-cases (unwrap_or_default a.no_tx_pool)) [
    | inl e ↦ rw (e, fcu_forward) (s.calls, no_tx_pool_answers f (some a) s)
    | inr e ↦ rw (e, fcu_forward) (both_answers f (some a) s)
  ]

  -- In every mode, healthy or not, with or without attributes, and whatever the builder says: a
  -- forkchoice update is answered by the L2 client's answer to the same update, its error included.
  pub fork_choice_updated_v3_l2_answers :
      (f : ForkchoiceState) (attrs : Option OpPayloadAttributes) (s : RollupBoostServer d)
      → (calls : List Call) × ((fork_choice_updated_v3 d env f attrs s).0
          ≡ answer (l2_answer calls f attrs))
  unfolding fork_choice_updated_v3
  fork_choice_updated_v3_l2_answers f attrs s = elim (Bool-cases (is_disabled s.execution_mode)) [
    | inl e ↦ rw (e, fork_choice_updated_v3) (s.calls, l2_only_answers f attrs s)
    | inr e ↦ elim (Bool-cases (should_skip_unhealthy_builder d s)) [
      | inl k ↦ rw (e, fork_choice_updated_v3) (rw k (s.calls, l2_only_answers f attrs s))
      | inr k ↦ rw (e, fork_choice_updated_v3) (rw k (forward_answers f attrs s))
    ]
  ]

  -- The attributes say that the transaction pool is not used.
  abbrev pub is_no_tx_pool : Option OpPayloadAttributes → Bool
  is_no_tx_pool none = false
  is_no_tx_pool (some a) = unwrap_or_default a.no_tx_pool

  -- The builder is left out of an update if the mode is disabled, if unhealthy builders are ignored
  -- and the health is not good, or if the attributes forbid the transaction pool: the one call made
  -- is the L2 client's.
  pub builder_left_out :
      (f : ForkchoiceState) (attrs : Option OpPayloadAttributes) (s : RollupBoostServer d)
      → (is_disabled s.execution_mode || should_skip_unhealthy_builder d s || is_no_tx_pool attrs)
        ≡ true
      → (fork_choice_updated_v3 d env f attrs s).1.calls ≡ fork_choice_updated l2 f attrs ∷ s.calls
  unfolding fork_choice_updated_v3
  builder_left_out f none s h = ground arith
  builder_left_out f (some a) s h = ground arith
