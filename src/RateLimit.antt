-- ===== src/RateLimit.antt =====
-- `InMemoryRateLimit` of crates/websocket-proxy/src/rate_limit.rs: tickets for connections, bounded
-- for the instance by a semaphore of tokio (a parameter), for each IP address and for each
-- application by counters. The counters stay within their limits, so `usize` does not wrap.
pub mod Counters
pub mod Bounds
pub mod Release
pub mod Leak
pub mod Redis
use rollup_boost.Prelude.{
  ℕ, suc, ◌+◌, ◌≤◌, Bool, List, [], Option, none, some, ◌≡◌, ◌⊎◌, ltb, if◌then◌else◌, String,
  nat_eq, string_eq,
}
use rollup_boost.Prelude.{Result, ok, err}
use Counters.{Counter, count, bump, drop_one}

-- A counting semaphore as tokio documents it.
pub record Semaphore : Type 1 where
  pub State : Type 0
  pub new : ℕ → State
  pub available_permits : State → ℕ
  pub try_acquire_owned : State → Option State
  pub release : State → State
  pub available-new : (n : ℕ) → available_permits (new n) ≡ n
  pub try_acquire_cases :
      (s : State)
      → ((available_permits s ≡ 0) × (try_acquire_owned s ≡ none))
        ⊎ ((t : State) × (try_acquire_owned s ≡ some t)
            × (available_permits t + 1 ≡ available_permits s))
  pub available-release : (s : State) → available_permits (release s) ≡ available_permits s + 1

pub data RateLimitError : Type 0 where
  global_limit ip_limit_exceeded app_limit_exceeded : RateLimitError

pub record Ticket : Type 0 where
  pub addr : ℕ
  pub app : Option String

-- An address stands as a number. `S` is the semaphore's state.
pub record InMemoryRateLimit (S : Type 0) : Type 0 where
  pub per_ip_limit : ℕ
  pub per_app_limit : List (String × ℕ)
  pub active_connections_per_ip : Counter ℕ
  pub active_connections_per_app : Counter String
  pub semaphore : S

-- `*per_app_limit.get(&app).unwrap_or(&0)`: an application that is not listed has no connection.
abbrev pub app_limit : {S : Type 0} → InMemoryRateLimit S → String → ℕ
app_limit l app = count app l.per_app_limit

module _ (sem : Semaphore) where
  abbrev pub Limiter : Type 0
  Limiter = InMemoryRateLimit sem.State

  unfoldable pub new : ℕ → ℕ → List (String × ℕ) → Limiter
  new instance_limit per_ip_limit per_app_limit = record {
    per_ip_limit = per_ip_limit;
    per_app_limit = per_app_limit;
    active_connections_per_ip = [];
    active_connections_per_app = [];
    semaphore = sem.new instance_limit;
  }

  -- An early return drops the permit.
  abbrev pub refuse : RateLimitError → Limiter → Result RateLimitError Ticket × Limiter
  refuse e l = (err e, record l { semaphore = sem.release l.semaphore })

  -- The block for the application, and the ticket.
  unfoldable pub acquire_app : ℕ → Option String → Limiter → Result RateLimitError Ticket × Limiter
  acquire_app addr none l = (ok (record { addr = addr; app = none }), l)
  acquire_app addr (some app) l =
      let current_count = count app l.active_connections_per_app in
      if ltb (app_limit l app) (current_count + 1) then refuse app_limit_exceeded l else (
        ok (record { addr = addr; app = some app }),
        record l { active_connections_per_app = bump app l.active_connections_per_app },
      )

  -- The block for the IP address, and what follows it.
  unfoldable pub acquire_ip : ℕ → Option String → Limiter → Result RateLimitError Ticket × Limiter
  unfolding acquire_app
  acquire_ip addr app l =
      if ltb 0 l.per_ip_limit
      then (if ltb l.per_ip_limit (count addr l.active_connections_per_ip + 1)
          then refuse ip_limit_exceeded l
          else acquire_app addr app
              (record l { active_connections_per_ip = bump addr l.active_connections_per_ip }))
      else acquire_app addr app l

  unfoldable pub try_acquire : ℕ → Option String → Limiter → Result RateLimitError Ticket × Limiter
  unfolding acquire_ip
  try_acquire addr app l = elim (sem.try_acquire_owned l.semaphore) [
    | none ↦ (err global_limit, l)
    | some taken ↦ acquire_ip addr app (record l { semaphore = taken })
  ]

  unfoldable pub release_app : Option String → Limiter → Limiter
  release_app none l = l
  release_app (some app) l = record l {
    active_connections_per_app = drop_one app l.active_connections_per_app;
  }

  unfoldable pub release_ip : ℕ → Limiter → Limiter
  release_ip addr l =
      if ltb 0 l.per_ip_limit
      then record l { active_connections_per_ip = drop_one addr l.active_connections_per_ip }
      else l

  unfoldable pub release : ℕ → Option String → Limiter → Limiter
  unfolding release_ip release_app
  release addr app l = release_app app (release_ip addr l)

  -- Dropping a ticket: its `Drop` releases the counters, and then its permit goes.
  unfoldable pub drop_ticket : Ticket → Limiter → Limiter
  unfolding release
  drop_ticket t l =
      let l' = release t.addr t.app l in record l' { semaphore = sem.release l'.semaphore }
