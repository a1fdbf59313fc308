-- ===== src/RateLimit/Bounds.antt =====
-- The limits of crates/websocket-proxy/src/rate_limit.rs against the tickets that are out.
use rollup_boost.Prelude.{
  ℕ, zero, suc, ◌+◌, ◌≤◌, ◌<◌, Bool, false, List, [], ◌∷◌, Option, none, some, ◌≡◌, refl, inl, inr,
  ltb, if◌then◌else◌, ◌==◌, nat_eq, string_eq, String, arith, Option-cases, Bool-cases, length,
  Result, ok, err,
}
use rollup_boost.RateLimit.Counters.{count, bump, count-empty, count-bump}
use rollup_boost.RateLimit.{
  Semaphore, RateLimitError, Ticket, app_limit, Limiter, new, acquire_app, acquire_ip, try_acquire,
  refuse, ip_limit_exceeded, app_limit_exceeded,
}

-- How many of the tickets are for an address, and for an application.
abbrev pub live_ip : ℕ → List Ticket → ℕ
live_ip addr [] = 0
live_ip addr (t ∷ ts) = (if t.addr == addr then 1 else 0) + live_ip addr ts

abbrev pub is_app : String → Option String → Bool
is_app app none = false
is_app app (some a) = a == app

abbrev pub live_app : String → List Ticket → ℕ
live_app app [] = 0
live_app app (t ∷ ts) = (if is_app app t.app then 1 else 0) + live_app app ts

-- Of the tickets that are out, the one at a place and those left, or none there.
abbrev pub also : Ticket → Option (Ticket × List Ticket) → Option (Ticket × List Ticket)
also t none = none
also t (some (u, us)) = some (u, t ∷ us)

abbrev pub take_at : ℕ → List Ticket → Option (Ticket × List Ticket)
take_at n [] = none
take_at zero (t ∷ ts) = some (t, ts)
take_at (suc n) (t ∷ ts) = also t (take_at n ts)

pub take_at_counts :
    (n : ℕ) (live rest : List Ticket) (t : Ticket)
    → take_at n live ≡ some (t, rest)
    → (length live ≡ length rest + 1)
      × ((a : ℕ) → live_ip a live ≡ (if t.addr == a then 1 else 0) + live_ip a rest)
      × ((a : String) → live_app a live ≡ (if is_app a t.app then 1 else 0) + live_app a rest)
take_at_counts n [] rest t h = absurd cc
take_at_counts zero (u ∷ us) rest t h = (ground arith, λ a. ground arith, λ a. ground arith)
take_at_counts (suc n) (u ∷ us) rest t h = elim (Option-cases (take_at n us)) [
  | inl e ↦ absurd (let bad : none ≡ some (t, rest) = (rw e at h) in cc)
  | inr (r, e) ↦
      let same : also u (some r) ≡ some (t, rest) = (rw e at h) in
      let tail : rest ≡ u ∷ r.1 = ground arith in
      let head : r.0 ≡ t = ground arith in
      let (l, x, y) = take_at_counts n us r.1 t (ground arith) in
      rw tail (omega (arith, l), λ a. omega (arith, x a), λ a. omega (arith, y a))
]

module _ (sem : Semaphore) where
  -- The limiter and the tickets that are out, given what it was built with; `held` permits are out
  -- without a ticket, in the middle of a call.
  pub record Inv (held instance_limit per_ip : ℕ) (per_app : List (String × ℕ)) (l : Limiter sem)
      (live : List Ticket) : Type 0 where
    pub same_ip_limit : l.per_ip_limit ≡ per_ip
    pub same_app_limit : l.per_app_limit ≡ per_app
    pub permits : sem.available_permits l.semaphore + (length live + held) ≡ instance_limit
    pub ip_counted : 0 < per_ip → (a : ℕ) → live_ip a live ≤ count a l.active_connections_per_ip
    pub ip_bounded : 0 < per_ip → (a : ℕ) → count a l.active_connections_per_ip ≤ per_ip
    pub app_counted : (a : String) → live_app a live ≡ count a l.active_connections_per_app
    pub app_bounded : (a : String) → count a l.active_connections_per_app ≤ count a per_app

  pub new-Inv :
      (instance_limit per_ip : ℕ) (per_app : List (String × ℕ))
      → Inv 0 instance_limit per_ip per_app (new sem instance_limit per_ip per_app) []
  unfolding new
  new-Inv i p q = record {
    same_ip_limit = refl;
    same_app_limit = refl;
    permits = omega (arith, sem.available-new i);
    ip_counted = λ h a. omega arith;
    ip_bounded = λ h a. omega (arith, count-empty a);
    app_counted = λ a. omega (arith, count-empty a);
    app_bounded = λ a. omega (arith, count-empty a);
  }

  -- Tickets handed out by a call.
  abbrev pub granted : Result RateLimitError Ticket → List Ticket → List Ticket
  granted (ok t) live = t ∷ live
  granted (err e) live = live

  refuse-Inv :
      (i p : ℕ) (q : List (String × ℕ)) (e : RateLimitError) (l : Limiter sem) (live : List Ticket)
      → Inv 1 i p q l live
      → Inv 0 i p q (refuse sem e l).1 live
  refuse-Inv i p q e l live v = record {
    same_ip_limit = v.same_ip_limit;
    same_app_limit = v.same_app_limit;
    permits = omega (arith, v.permits, sem.available-release l.semaphore);
    ip_counted = v.ip_counted;
    ip_bounded = v.ip_bounded;
    app_counted = v.app_counted;
    app_bounded = v.app_bounded;
  }

  module _ (i p : ℕ) (q : List (String × ℕ)) (addr : ℕ) (live : List Ticket) where
    grant_app :
        (app : String) (l : Limiter sem)
        → Inv 1 i p q l live
        → (0 < p → live_ip addr live < count addr l.active_connections_per_ip)
        → count app l.active_connections_per_app + 1 ≤ app_limit l app
        → Inv 0 i p q
            (record l { active_connections_per_app = bump app l.active_connections_per_app })
            (record { addr = addr; app = some app } ∷ live)
    grant_app app l v room fits = record {
      same_ip_limit = v.same_ip_limit;
      same_app_limit = v.same_app_limit;
      permits = omega (arith, v.permits);
      ip_counted = λ h a. ground (arith, room h, v.ip_counted h a);
      ip_bounded = v.ip_bounded;
      app_counted = λ a. ground (
        arith,
        v.app_counted a,
        v.app_counted app,
        string_eq.decides app a,
        count-bump app a l.active_connections_per_app,
      );
      app_bounded = λ a. ground (
        arith,
        v.app_bounded a,
        v.same_app_limit,
        string_eq.decides app a,
        count-bump app a l.active_connections_per_app,
      );
    }

    acquire_app-Inv :
        (app : Option String) (l : Limiter sem)
        → Inv 1 i p q l live
        → (0 < p → live_ip addr live < count addr l.active_connections_per_ip)
        → let (r, l') = acquire_app sem addr app l in Inv 0 i p q l' (granted r live)
    unfolding acquire_app
    acquire_app-Inv none l v room = record {
      same_ip_limit = v.same_ip_limit;
      same_app_limit = v.same_app_limit;
      permits = omega (arith, v.permits);
      ip_counted = λ h a. ground (arith, room h, v.ip_counted h a);
      ip_bounded = v.ip_bounded;
      app_counted = λ a. omega (arith, v.app_counted a);
      app_bounded = v.app_bounded;
    }
    acquire_app-Inv (some app) l v room =
        elim (Bool-cases (ltb (app_limit l app) (count app l.active_connections_per_app + 1))) [
          | inl e ↦ rw (e, acquire_app) (refuse-Inv i p q app_limit_exceeded l live v)
          | inr e ↦ rw (e, acquire_app) (grant_app app l v room (ground arith))
        ]

    bump_ip-Inv :
        (l : Limiter sem)
        → Inv 1 i p q l live
        → count addr l.active_connections_per_ip + 1 ≤ p
        → Inv 1 i p q
            (record l { active_connections_per_ip = bump addr l.active_connections_per_ip })
            live
    bump_ip-Inv l v fits = record {
      same_ip_limit = v.same_ip_limit;
      same_app_limit = v.same_app_limit;
      permits = v.permits;
      ip_counted =
          λ h a. ground (arith, v.ip_counted h a, count-bump addr a l.active_connections_per_ip);
      ip_bounded =
          λ h a. ground (arith, v.ip_bounded h a, count-bump addr a l.active_connections_per_ip);
      app_counted = v.app_counted;
      app_bounded = v.app_bounded;
    }

    acquire_ip-Inv :
        (app : Option String) (l : Limiter sem)
        → Inv 1 i p q l live
        → let (r, l') = acquire_ip sem addr app l in Inv 0 i p q l' (granted r live)
    unfolding acquire_ip
    acquire_ip-Inv app l v = elim (Bool-cases (ltb 0 l.per_ip_limit)) [
      | inr off ↦
          rw (off, acquire_ip)
            (acquire_app-Inv app l v (λ h. absurd (ground (arith, v.same_ip_limit))))
      | inl on ↦
          elim (Bool-cases (ltb l.per_ip_limit (count addr l.active_connections_per_ip + 1))) [
            | inl full ↦ rw (on, acquire_ip) (rw full (refuse-Inv i p q ip_limit_exceeded l live v))
            | inr fits ↦
                rw (on, acquire_ip)
                  (rw fits (
                    acquire_app-Inv app
                      (record l {
                        active_connections_per_ip = bump addr l.active_connections_per_ip;
                      })
                      (bump_ip-Inv l v (ground (arith, v.same_ip_limit)))
                      (λ h. ground (
                        arith,
                        v.ip_counted h addr,
                        count-bump addr addr l.active_connections_per_ip,
                      ))))
          ]
    ]

    taken-Inv :
        (l : Limiter sem) (t : sem.State)
        → sem.available_permits t + 1 ≡ sem.available_permits l.semaphore
        → Inv 0 i p q l live
        → Inv 1 i p q (record l { semaphore = t }) live
    taken-Inv l t e v = record {
      same_ip_limit = v.same_ip_limit;
      same_app_limit = v.same_app_limit;
      permits = omega (arith, v.permits);
      ip_counted = v.ip_counted;
      ip_bounded = v.ip_bounded;
      app_counted = v.app_counted;
      app_bounded = v.app_bounded;
    }

    -- `try_acquire`, granted or refused, keeps the invariant, with the ticket it grants added to those
    -- that are out.
    pub try_acquire-Inv :
        (app : Option String) (l : Limiter sem)
        → Inv 0 i p q l live
        → let (r, l') = try_acquire sem addr app l in Inv 0 i p q l' (granted r live)
    unfolding try_acquire
    try_acquire-Inv app l v = elim (sem.try_acquire_cases l.semaphore) [
      | inl (z, e) ↦ rw (e, try_acquire) v
      | inr (t, e, a) ↦
          rw (e, try_acquire) (acquire_ip-Inv app (record l { semaphore = t }) (taken-Inv l t a v))
    ]
