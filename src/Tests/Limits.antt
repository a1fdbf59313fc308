-- ===== src/Tests/Limits.antt =====
-- The rate limiter's theorems on a small limiter.
use rollup_boost.Prelude.{
  ℕ, ◌≤◌, ◌≡◌, ◌⊎◌, List, [], ◌∷◌, none, some, String, nat_eq, string_eq, length, err, arith,
}
use rollup_boost.Prelude.Keys
use rollup_boost.RateLimit.{
  Ticket, Limiter, new, try_acquire, acquire_ip, acquire_app, app_limit_exceeded,
}
use rollup_boost.RateLimit.Counters.{count, bump}
use rollup_boost.RateLimit.Bounds.{Inv, new-Inv, try_acquire-Inv, live_ip, live_app}
use rollup_boost.RateLimit.Release.{connect, disconnect, run, limits_hold}
use rollup_boost.RateLimit.Leak.{app_refusal_leaks}
use rollup_boost.Tests.Samples.{permits}

abbrev NoLimit : ℕ → Type 0
NoLimit n = n ≡ 0

-- Four connections, two for an address, one for the application "web", and none for any other.
abbrev apps : List (String × ℕ)
apps = ("web", 1) ∷ []

abbrev fresh : Limiter permits
fresh = new permits 4 2 apps

abbrev web_ticket : Ticket
web_ticket = record { addr = 9; app = some "web" }

limits_hold_example :
    let live =
      (run permits
        (connect 9 (some "web") ∷ connect 9 none ∷ connect 9 none ∷ disconnect 0 ∷ [])
        (new permits 4 2 apps, [])).1 in
    (length live ≤ 4)
    × (NoLimit 2 ⊎ (live_ip 9 live ≤ 2))
    × (live_app "web" live ≤ count "web" apps)
limits_hold_example =
    limits_hold permits 4 2 apps
      (connect 9 (some "web") ∷ connect 9 none ∷ connect 9 none ∷ disconnect 0 ∷ []) 9 "web"

app_refusal_leaks_example :
    let (r, l') = try_acquire permits 9 (some "shop") fresh in
    (r ≡ err app_limit_exceeded)
    × (count 9 l'.active_connections_per_ip ≡ 1)
    × (permits.available_permits l'.semaphore ≡ 4)
unfolding new count Keys.get
app_refusal_leaks_example =
    app_refusal_leaks permits 9 "shop" fresh (omega arith) (omega arith) (omega arith) (omega arith)

one_ticket : Inv permits 0 4 2 apps (try_acquire permits 9 (some "web") fresh).1 (web_ticket ∷ [])
unfolding new try_acquire acquire_ip acquire_app count bump Keys.get Keys.insert Keys.remove
one_ticket = try_acquire-Inv permits 4 2 apps 9 [] (some "web") fresh (new-Inv permits 4 2 apps)
