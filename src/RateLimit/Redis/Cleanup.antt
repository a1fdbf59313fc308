-- ===== src/RateLimit/Redis/Cleanup.antt =====
-- Which counters the cleanup deletes (crates/websocket-proxy/src/rate_limit.rs).
use rollup_boost.Prelude.{false, List, some, ◌≡◌, All, Any}
use rollup_boost.Auth.{Text, same_text}
use rollup_boost.RateLimit.{Semaphore}
use rollup_boost.RateLimit.Redis.Commands.{Command, del, RedisEnv, Action}
use rollup_boost.RateLimit.Redis.Ensures.{Ensures}
use rollup_boost.RateLimit.Redis.{
  Limiter, connections_key, heartbeat_key, star, contains, active_ids,
}

module _ (sem : Semaphore) (redis : RedisEnv) (l : Limiter sem redis) where
  -- An instance other than the own one that has no heartbeat among those that were found.
  abbrev pub IsStale : Text → Type 0
  IsStale id =
      (same_text id l.instance_id ≡ false)
      × (heartbeats : List Text) × (before : List Command) × (redis.found
            (heartbeat_key l.key_prefix star) before
          ≡ some heartbeats)
      × (contains (active_ids heartbeats) id ≡ false)

  -- A key was found under the pattern of the counters of an instance.
  abbrev pub IsFoundFor : Text → Text → Type 0
  IsFoundFor id key =
      (kind : Text) × (found : List Text) × (before : List Command) × (redis.found
          (connections_key l.key_prefix kind star id) before
        ≡ some found)
      × Any (λ x. x ≡ key) found

  -- A command deletes such a key, or nothing.
  abbrev pub DeletesStale : Command → Type 0
  DeletesStale (del key) = (id : Text) × IsStale id × IsFoundFor id key
  DeletesStale _ = Unit {0}

  abbrev AllStale : List Command → Type 0
  AllStale log = All DeletesStale log

  abbrev AnyError : Unit {0} → Type 0
  AnyError e = Unit {0}

  abbrev Cleans : {A : Type 0} → (A → List Command → Type 0) → Action (Unit {0}) A → Type 0
  Cleans q m = Ensures AllStale q AnyError m
