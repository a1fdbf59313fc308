-- ===== src/Health/Report.antt =====
-- What a round of the health check reports (crates/rollup-boost/src/health.rs).
use rollup_boost.Prelude.{
  ℕ, ◌+◌, ◌≡◌, ◌≢◌, ◌↔◌, refl, Result, ok, err, arith, true, false, Bool, leb, if◌then◌else◌,
}
use rollup_boost.Engine.{Block}
use rollup_boost.Probe.{healthy, partial_content, service_unavailable}
use rollup_boost.Rpc.{RpcClientError}
use rollup_boost.Server.{enabled}
use rollup_boost.Health.{Round, check, check_l2, check_enabled, check_builder}

-- A client answers with a block that is at most `limit` seconds old at `t`.
abbrev pub is_fresh : ℕ → ℕ → Result RpcClientError Block → Bool
is_fresh limit t (err e) = false
is_fresh limit t (ok block) = leb t (block.timestamp + limit)

builder_report :
    (limit t : ℕ) (b : Result RpcClientError Block)
    → check_builder limit t b ≡ (if is_fresh limit t b then healthy else partial_content)
unfolding check_builder
builder_report limit t (err e) = refl
builder_report limit t (ok block) = ground arith

l2_unavailable :
    (limit t : ℕ) (r : Round) (l2 : Result RpcClientError Block)
    → r.health ≢ service_unavailable
    → (check_l2 limit t r l2 ≡ service_unavailable) ↔ (is_fresh limit t l2 ≡ false)
unfolding check_l2 check_enabled check_builder
l2_unavailable limit t r (err e) n = (λ h. refl, λ h. refl)
l2_unavailable limit t r (ok block) n =
    (λ h. ground (arith, builder_report limit t r.builder_block), λ h. ground arith)

-- Where the health is not service unavailable already, a round reports service unavailable exactly
-- if the L2 client has no fresh block, in every mode and whatever the builder has.
pub check_unavailable_iff :
    (limit t : ℕ) (r : Round)
    → r.health ≢ service_unavailable
    → (check limit t r ≡ service_unavailable) ↔ (is_fresh limit t r.l2_block ≡ false)
unfolding check
check_unavailable_iff limit t r n = l2_unavailable limit t r r.l2_block n

l2_fresh :
    (limit t : ℕ) (r : Round) (l2 : Result RpcClientError Block)
    → is_fresh limit t l2 ≡ true
    → r.mode_at_disabled ≡ enabled
    → r.mode_at_dry_run ≡ enabled
    → r.mode_at_enabled ≡ enabled
    → check_l2 limit t r l2
      ≡ (if is_fresh limit t r.builder_block then healthy else partial_content)
unfolding check_l2 check_enabled
l2_fresh limit t r (err e) f a b c = absurd cc
l2_fresh limit t r (ok block) f a b c = ground (arith, builder_report limit t r.builder_block)

-- In enabled mode, a round in which the L2 client has a fresh block reports healthy if the builder
-- has one too, and partial content if not, whatever the health was.
pub check_when_enabled :
    (limit t : ℕ) (r : Round)
    → r.mode_at_disabled ≡ enabled
    → r.mode_at_dry_run ≡ enabled
    → r.mode_at_enabled ≡ enabled
    → is_fresh limit t r.l2_block ≡ true
    → check limit t r ≡ (if is_fresh limit t r.builder_block then healthy else partial_content)
unfolding check
check_when_enabled limit t r a b c f = l2_fresh limit t r r.l2_block f a b c
