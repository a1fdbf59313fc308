-- ===== src/Health/Loop.antt =====
-- The loop of the health check with its clock (`HealthHandle::spawn` of
-- crates/rollup-boost/src/health.rs), and what the probe of probe.rs then answers.
use rollup_boost.Prelude.{
  ℕ, ◌+◌, ◌-◌, ◌*◌, ◌≤◌, ◌<◌, Bool, true, false, All, List, [], ◌∷◌, ◌++◌, map, length, ◌≡◌, ◌≢◌,
  refl, ap, ◌∙◌, sym, subst, arith, ok, String, string_eq,
}
use rollup_boost.Engine.{Block}
use rollup_boost.Probe.{
  Health, healthy, partial_content, service_unavailable, response_status, probe,
}
use rollup_boost.Probe
use rollup_boost.Health.{MonotonicTimestamp, tick, ticks, Round, check, check_l2}
use rollup_boost.Health.Clock.{Advances, IsFast, last_of, ticks_bounds, ticks_stand_still}
use rollup_boost.Health.Report.{is_fresh, check_unavailable_iff}

-- A round of the loop: the instant of its tick, and what it meets; `meanwhile` is what the handlers
-- of the server have done to the health since the round before.
pub record Beat : Type 0 where
  pub now : ℕ
  pub meanwhile : Health → Health
  pub round : Round

pub record HealthHandle : Type 0 where
  pub timestamp : MonotonicTimestamp
  pub health : Health

abbrev pub met : Beat → Health → Round
met b h = record (b.round) { health = b.meanwhile h }

unfoldable pub beat : ℕ → Beat → HealthHandle → HealthHandle
unfolding tick check
beat max_unsafe_interval b s = record {
  timestamp = tick b.now s.timestamp;
  health = check max_unsafe_interval (tick b.now s.timestamp).last_unix (met b s.health);
}

unfoldable pub spawn : ℕ → List Beat → HealthHandle → HealthHandle
unfolding beat
spawn max_unsafe_interval [] s = s
spawn max_unsafe_interval (b ∷ bs) s = spawn max_unsafe_interval bs (beat max_unsafe_interval b s)

abbrev pub instants : List Beat → List ℕ
instants = map (λ b. b.now)

spawn-append :
    (limit : ℕ) (bs cs : List Beat) (s : HealthHandle)
    → spawn limit (bs ++ cs) s ≡ spawn limit cs (spawn limit bs s)
unfolding spawn
spawn-append limit [] cs s = refl
spawn-append limit (b ∷ bs) cs s = spawn-append limit bs cs (beat limit b s)

spawn_clock :
    (limit : ℕ) (bs : List Beat) (s : HealthHandle)
    → (spawn limit bs s).timestamp ≡ ticks (instants bs) s.timestamp
unfolding spawn ticks beat
spawn_clock limit [] s = refl
spawn_clock limit (b ∷ bs) s = spawn_clock limit bs (beat limit b s)

stale_unavailable :
    (limit t : ℕ) (r : Round) (block : Block)
    → r.l2_block ≡ ok block
    → block.timestamp + limit + 1 ≤ t
    → check limit t r ≡ service_unavailable
unfolding check check_l2
stale_unavailable limit t r block e h = rw (e, check_l2) (ground (arith, h))

last_of-snoc : (start : ℕ) (nows : List ℕ) (now : ℕ) → last_of start (nows ++ (now ∷ [])) ≡ now
last_of-snoc start [] now = refl
last_of-snoc start (m ∷ nows) now = last_of-snoc m nows now

instants-snoc :
    (bs : List Beat) (b : Beat) → instants (bs ++ (b ∷ [])) ≡ instants bs ++ (b.now ∷ [])
instants-snoc [] b = refl
instants-snoc (c ∷ bs) b = ap (λ z. c.now ∷ z) (instants-snoc bs b)

length-instants : (bs : List Beat) → length (instants bs) ≡ length bs
length-instants [] = refl
length-instants (b ∷ bs) = ground (arith, length-instants bs)

-- An L2 client that answers a round with a block older than the limit, by more seconds than the loop
-- has had rounds, is noticed in that round, whatever came before, in every mode and whatever the
-- handlers set meanwhile: the health endpoint then answers 503. The age is taken by the time that
-- has really passed since the clock was set.
pub stale_l2_noticed :
    {R : Type 0} (service : String → R) (limit : ℕ) (bs : List Beat) (b : Beat) (s : HealthHandle)
    (block : Block)
    → Advances s.timestamp.last_instant (instants (bs ++ (b ∷ [])))
    → b.round.l2_block ≡ ok block
    → (block.timestamp + limit + 1 + length (bs ++ (b ∷ []))) * 1000000000
      ≤ s.timestamp.last_unix * 1000000000 + (b.now - s.timestamp.last_instant)
    → Probe.call service (spawn limit (bs ++ (b ∷ [])) s).health "/healthz" ≡ probe 503
unfolding spawn beat Probe.call response_status
stale_l2_noticed service limit bs b s block a e h =
    let all = bs ++ (b ∷ []) in
    let before = spawn limit bs s in
    let clock : (beat limit b before).timestamp ≡ ticks (instants all) s.timestamp =
      ap (λ z. z.timestamp) (sym (spawn-append limit bs (b ∷ []) s)) ∙ spawn_clock limit all s in
    let (up, _, high) = ticks_bounds (instants all) s.timestamp a in
    let last : last_of s.timestamp.last_instant (instants all) ≡ b.now =
      ap (last_of s.timestamp.last_instant) (instants-snoc bs b)
      ∙ last_of-snoc s.timestamp.last_instant (instants bs) b.now in
    let count = length-instants all in
    let unix : (tick b.now before.timestamp).last_unix
        ≡ (ticks (instants all) s.timestamp).last_unix =
      ap (λ z. z.last_unix) clock in
    let old : block.timestamp + limit + 1 ≤ (tick b.now before.timestamp).last_unix =
      omega (arith, up, high, last, count, unix, h) in
    let set : (spawn limit all s).health ≡ service_unavailable =
      ap (λ z. z.health) (spawn-append limit bs (b ∷ []) s)
      ∙ stale_unavailable limit (tick b.now before.timestamp).last_unix (met b before.health) block
          e old in
    rw set refl

-- The round has an L2 block that was fresh when the clock stood at `unix`, and no handler has set the
-- health to service unavailable meanwhile.
abbrev pub IsQuiet : ℕ → ℕ → Beat → Type 0
IsQuiet unix limit b =
    (is_fresh limit unix b.round.l2_block ≡ true)
    × (b.meanwhile healthy ≢ service_unavailable)
    × (b.meanwhile partial_content ≢ service_unavailable)

quiet_health :
    (unix limit : ℕ) (b : Beat) (h : Health)
    → IsQuiet unix limit b
    → h ≢ service_unavailable
    → b.meanwhile h ≢ service_unavailable
quiet_health unix limit b healthy q n = q.1
quiet_health unix limit b partial_content q n = q.2
quiet_health unix limit b service_unavailable q n = absurd (n refl)

tick_stands :
    (now : ℕ) (m : MonotonicTimestamp)
    → now < m.last_instant + 1000000000
    → (tick now m).last_unix ≡ m.last_unix
unfolding ticks
tick_stands now m h = ticks_stand_still (now ∷ []) m (h, tt)

-- If every round comes less than a second after the one before, the check never notices that the L2
-- client has stopped: whatever time really passes, as long as it answers with blocks that were fresh
-- when the clock was set, and no handler sets the health to service unavailable, the health is not
-- service unavailable.
pub stalled_l2_unnoticed :
    (limit : ℕ) (bs : List Beat) (s : HealthHandle)
    → IsFast s.timestamp.last_instant (instants bs)
    → All (IsQuiet s.timestamp.last_unix limit) bs
    → s.health ≢ service_unavailable
    → (spawn limit bs s).health ≢ service_unavailable
unfolding spawn beat
stalled_l2_unnoticed limit [] s f q n = n
stalled_l2_unnoticed limit (b ∷ bs) s f q n =
    let still : (tick b.now s.timestamp).last_unix ≡ s.timestamp.last_unix =
      tick_stands b.now s.timestamp f.0 in
    let quiet = quiet_health s.timestamp.last_unix limit b s.health q.0 n in
    let shown =
      check_unavailable_iff limit (tick b.now s.timestamp).last_unix (met b s.health) quiet in
    let fresh : is_fresh limit (tick b.now s.timestamp).last_unix b.round.l2_block ≡ true =
      ap (λ t. is_fresh limit t b.round.l2_block) still ∙ q.0.0 in
    stalled_l2_unnoticed limit bs (beat limit b s) f.1
      (subst (λ u. All (IsQuiet u limit) bs) (sym still) q.1) (λ e. apart fresh (shown.0 e))
  where
    apart : {c : Bool} → c ≡ true → c ≡ false → ⊥
    apart h k = absurd cc
