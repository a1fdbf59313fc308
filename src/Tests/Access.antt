-- ===== src/Tests/Access.antt =====
-- The theorems on API keys and on the health check, on small inputs.
use rollup_boost.Prelude.{
  String, ℕ, ◌+◌, ◌-◌, ◌*◌, ◌≤◌, ◌≡◌, ◌⊎◌, refl, List, [], ◌∷◌, some, ok, err, arith, ◌≢◌,
}
use rollup_boost.Prelude.Keys
use rollup_boost.Probe
use rollup_boost.Probe.{probe, healthy, service_unavailable}
use rollup_boost.Server.{enabled}
use rollup_boost.Auth.{
  Text, text_eq, Authentication, done, try_from, read_all, read_argument, read_parts, read_key,
  read_rest, enter, split, parse, none_read, get_application_for_key,
}
use rollup_boost.Health.{MonotonicTimestamp, ticks, Round}
use rollup_boost.Health.Loop.{Beat, HealthHandle, spawn, stale_l2_noticed, stalled_l2_unnoticed}
use rollup_boost.Health.Clock.{ticks_bounds}
use rollup_boost.Rpc.{jsonrpsee, transport}

-- "a:k:5" and "b:m:7".
abbrev arguments : List Text
arguments = (97 ∷ 58 ∷ 107 ∷ 58 ∷ 53 ∷ []) ∷ (98 ∷ 58 ∷ 109 ∷ 58 ∷ 55 ∷ []) ∷ []

abbrev keys : Authentication
keys = record {
  key_to_application = (109 ∷ [], 98 ∷ []) ∷ (107 ∷ [], 97 ∷ []) ∷ [];
  app_to_rate_limit = (98 ∷ [], 7) ∷ (97 ∷ [], 5) ∷ [];
}

accepted : try_from arguments ≡ done keys
unfolding try_from read_all read_argument read_parts read_key read_rest enter split parse none_read
    Keys.get Keys.insert Keys.remove
accepted = refl

key_known : get_application_for_key (107 ∷ []) keys ≡ some (97 ∷ [])
unfolding get_application_for_key Keys.get
key_known = refl

abbrev a_key : Text
a_key = 107 ∷ []

no_colon : (c : ℕ) → (c ≡ 97) ⊎ ((c ≡ 107) ⊎ (c ≡ 53)) → c ≢ 58
no_colon c h = λ e. ground arith

five : parse (53 ∷ []) ≡ some 5
unfolding parse
five = refl

abbrev clock : MonotonicTimestamp
clock = record { last_unix = 100; last_instant = 0 }

ticks_bounds_example :
    let seconds = (ticks (1900000000 ∷ 3800000000 ∷ []) clock).last_unix - 100 in
    (100 ≤ (ticks (1900000000 ∷ 3800000000 ∷ []) clock).last_unix)
    × (seconds * 1000000000 ≤ 3800000000)
    × (3800000000 ≤ (seconds + 2) * 1000000000)
ticks_bounds_example =
    ticks_bounds (1900000000 ∷ 3800000000 ∷ []) clock (omega arith, (omega arith, tt))

-- The L2 client's block is 5 seconds old, the builder does not answer.
abbrev round : Round
round = record {
  l2_block = ok (record { timestamp = 95 });
  builder_block = err (jsonrpsee (transport 1));
  mode_at_disabled = enabled;
  mode_at_dry_run = enabled;
  mode_at_enabled = enabled;
  health = healthy;
}

abbrev beat_at : ℕ → Beat
beat_at now = record { now = now; meanwhile = λ h. h; round = round }

abbrev checked : HealthHandle
checked = record { timestamp = record { last_unix = 100; last_instant = 0 }; health = healthy }

abbrev paths : String → ℕ
paths path = 0

stale_l2_noticed_example :
    Probe.call paths
      (spawn 10 (beat_at 1000000000 ∷ beat_at 9000000000 ∷ []) checked).health
      "/healthz"
    ≡ probe 503
stale_l2_noticed_example =
    stale_l2_noticed paths 10 (beat_at 1000000000 ∷ []) (beat_at 9000000000) checked
      (record { timestamp = 95 }) (omega arith, (omega arith, tt)) refl (omega arith)

stalled_l2_unnoticed_example :
    (spawn 10 (beat_at 900000000 ∷ beat_at 1800000000 ∷ []) checked).health ≢ service_unavailable
stalled_l2_unnoticed_example =
    stalled_l2_unnoticed 10 (beat_at 900000000 ∷ beat_at 1800000000 ∷ []) checked
      (omega arith, (omega arith, tt))
      ((refl, (λ h. cc), (λ h. cc)), ((refl, (λ h. cc), (λ h. cc)), tt)) (λ h. cc)
