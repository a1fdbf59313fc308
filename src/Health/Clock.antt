-- ===== src/Health/Clock.antt =====
-- How far the synthetic clock follows the monotonic one (crates/rollup-boost/src/health.rs).
use rollup_boost.Prelude.{ℕ, ◌+◌, ◌-◌, ◌*◌, ◌≤◌, ◌<◌, List, [], ◌∷◌, ◌≡◌, refl, arith, length, ◌∙◌}
use rollup_boost.Health.{MonotonicTimestamp, tick, ticks}

-- Instants that never go back, as a monotonic clock gives them, and where the last one lies.
abbrev pub Advances : ℕ → List ℕ → Type 0
Advances start [] = Unit {0}
Advances start (now ∷ nows) = (start ≤ now) × Advances now nows

abbrev pub last_of : ℕ → List ℕ → ℕ
last_of start [] = start
last_of start (now ∷ nows) = last_of now nows

-- Each follows the one before in less than a second.
abbrev pub IsFast : ℕ → List ℕ → Type 0
IsFast start [] = Unit {0}
IsFast start (now ∷ nows) = (now < start + 1000000000) × IsFast now nows

last_of_rises : (start : ℕ) (nows : List ℕ) → Advances start nows → start ≤ last_of start nows
last_of_rises start [] a = omega arith
last_of_rises start (now ∷ nows) a = omega (arith, a.0, last_of_rises now nows a.1)

-- Over ticks at instants that never go back, the clock never runs ahead of the time that has passed,
-- and falls behind it by at most one second for every tick.
pub ticks_bounds :
    (nows : List ℕ) (m : MonotonicTimestamp)
    → Advances m.last_instant nows
    → let seconds = (ticks nows m).last_unix - m.last_unix in
      (m.last_unix ≤ (ticks nows m).last_unix)
      × (seconds * 1000000000 ≤ last_of m.last_instant nows - m.last_instant)
      × (last_of m.last_instant nows - m.last_instant ≤ (seconds + length nows) * 1000000000)
unfolding ticks tick
ticks_bounds [] m a = (omega arith, omega arith, omega arith)
ticks_bounds (now ∷ nows) m a =
    let (up, low, high) = ticks_bounds nows (tick now m) a.1 in
    let rising = last_of_rises now nows a.1 in
    let here = a.0 in
    (
      omega (arith, up),
      omega (arith, up, low, high, rising, here),
      omega (arith, up, low, high, rising, here),
    )

-- If every tick comes less than a second after the one before, the clock stands still.
pub ticks_stand_still :
    (nows : List ℕ) (m : MonotonicTimestamp)
    → IsFast m.last_instant nows
    → (ticks nows m).last_unix ≡ m.last_unix
unfolding ticks tick
ticks_stand_still [] m f = refl
ticks_stand_still (now ∷ nows) m f = ticks_stand_still nows (tick now m) f.1 ∙ still (f.0)
  where
    still : now < m.last_instant + 1000000000 → (tick now m).last_unix ≡ m.last_unix
    still h = omega (arith, h)
