-- ===== src/RateLimit/Leak.antt =====
-- Refusals of `try_acquire` (crates/websocket-proxy/src/rate_limit.rs).
use rollup_boost.Prelude.{
  ℕ, ◌+◌, ◌≤◌, ◌<◌, some, ◌≡◌, inl, inr, nat_eq, string_eq, String, arith, err,
}
use rollup_boost.RateLimit.Counters.{count, count-bump}
use rollup_boost.RateLimit.{
  Semaphore, app_limit, Limiter, acquire_app, acquire_ip, try_acquire, app_limit_exceeded,
}

module _ (sem : Semaphore) where
  -- Where addresses are limited, a connection that its application's limit refuses still counts one
  -- more connection for its address, though no ticket exists that would ever release it; the permit
  -- is given back.
  pub app_refusal_leaks :
      (addr : ℕ) (app : String) (l : Limiter sem)
      → 0 < l.per_ip_limit
      → 0 < sem.available_permits l.semaphore
      → count addr l.active_connections_per_ip < l.per_ip_limit
      → app_limit l app ≤ count app l.active_connections_per_app
      → let (r, l') = try_acquire sem addr (some app) l in
        (r ≡ err app_limit_exceeded)
        × (count addr l'.active_connections_per_ip ≡ count addr l.active_connections_per_ip + 1)
        × (sem.available_permits l'.semaphore ≡ sem.available_permits l.semaphore)
  unfolding try_acquire acquire_ip acquire_app
  app_refusal_leaks addr app l limited free room full = elim (sem.try_acquire_cases l.semaphore) [
    | inl (z, e) ↦ absurd (omega arith)
    | inr (t, e, a) ↦
        rw (e, try_acquire)
          (ground
            (arith, count-bump addr addr l.active_connections_per_ip, sem.available-release t))
  ]
