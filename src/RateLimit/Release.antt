-- ===== src/RateLimit/Release.antt =====
-- Dropping a ticket, and whole histories of connections
-- (crates/websocket-proxy/src/rate_limit.rs).
use rollup_boost.Prelude.{
  ℕ, zero, suc, ◌-◌, ◌≤◌, ◌<◌, List, [], ◌∷◌, Option, none, some, ◌≡◌, refl, ap, ◌⊎◌, inl, inr,
  if◌then◌else◌, ◌==◌, nat_eq, string_eq, String, arith, Option-cases, length,
}
use rollup_boost.RateLimit.Counters.{count, count-drop_one}
use rollup_boost.RateLimit.{
  Semaphore, Ticket, Limiter, new, try_acquire, release_app, release_ip, release, drop_ticket,
}
use rollup_boost.RateLimit.Bounds.{
  Inv, live_ip, live_app, is_app, take_at, take_at_counts, granted, try_acquire-Inv, new-Inv,
}

-- A client connects from an address for an application, or one of the tickets out is dropped.
pub data Event : Type 0 where
  connect : ℕ → Option String → Event
  disconnect : ℕ → Event

ip_limit : (p n c : ℕ) → (0 < p → n ≤ c) → (0 < p → c ≤ p) → (p ≡ 0) ⊎ (n ≤ p)
ip_limit zero n c h k = inl refl
ip_limit (suc p) n c h k = inr (omega (arith, h (omega arith), k (omega arith)))

module _ (sem : Semaphore) where
  count_released_app :
      (app : Option String) (l : Limiter sem) (a : String)
      → count a (release_app sem app l).active_connections_per_app ≡ (
          if is_app a app
          then count a l.active_connections_per_app - 1
          else count a l.active_connections_per_app)
  unfolding release_app
  count_released_app none l a = refl
  count_released_app (some app) l a =
      ground (arith, string_eq.decides app a, count-drop_one app a l.active_connections_per_app)

  count_released_ip :
      (addr : ℕ) (l : Limiter sem) (a : ℕ)
      → 0 < l.per_ip_limit
      → count a (release_ip sem addr l).active_connections_per_ip ≡ (
          if addr == a
          then count a l.active_connections_per_ip - 1
          else count a l.active_connections_per_ip)
  unfolding release_ip
  count_released_ip addr l a h = ground (arith, count-drop_one addr a l.active_connections_per_ip)

  -- What releasing leaves alone.
  release_keeps :
      (addr : ℕ) (app : Option String) (l : Limiter sem)
      → let l' = release sem addr app l in
        (l'.per_ip_limit ≡ l.per_ip_limit)
        × (l'.per_app_limit ≡ l.per_app_limit)
        × (l'.semaphore ≡ l.semaphore)
        × (l'.active_connections_per_ip ≡ (release_ip sem addr l).active_connections_per_ip)
        × (l'.active_connections_per_app ≡ (release_app sem app l).active_connections_per_app)
  unfolding release release_ip release_app
  release_keeps addr none l = ground arith
  release_keeps addr (some app) l = ground arith

  -- Dropping a ticket that is out keeps the invariant, with that ticket gone from those that are.
  pub drop_ticket-Inv :
      (i p : ℕ) (q : List (String × ℕ)) (l : Limiter sem) (n : ℕ) (live rest : List Ticket)
      (t : Ticket)
      → Inv sem 0 i p q l live
      → take_at n live ≡ some (t, rest)
      → Inv sem 0 i p q (drop_ticket sem t l) rest
  unfolding drop_ticket
  drop_ticket-Inv i p q l n live rest t v h =
      let (len, ips, apps) = take_at_counts n live rest t h in
      let (k1, k2, k3, k4, k5) = release_keeps t.addr t.app l in
      record {
        same_ip_limit = ground (arith, v.same_ip_limit);
        same_app_limit = ground (arith, v.same_app_limit);
        permits = omega (
          arith,
          v.permits,
          ap sem.available_permits k3,
          sem.available-release (release sem t.addr t.app l).semaphore,
        );
        ip_counted = λ z a. ground (
          arith,
          v.ip_counted z a,
          ips a,
          v.same_ip_limit,
          ap (count a) k4,
          count_released_ip t.addr l a,
        );
        ip_bounded = λ z a. ground (
          arith,
          v.ip_bounded z a,
          v.same_ip_limit,
          ap (count a) k4,
          count_released_ip t.addr l a,
        );
        app_counted = λ a.
            ground (arith, v.app_counted a, apps a, ap (count a) k5, count_released_app t.app l a);
        app_bounded =
            λ a. ground (arith, v.app_bounded a, ap (count a) k5, count_released_app t.app l a);
      }

  unfoldable pub step : Event → Limiter sem × List Ticket → Limiter sem × List Ticket
  step (connect addr app) (l, live) =
      let (r, l') = try_acquire sem addr app l in (l', granted sem r live)
  step (disconnect n) (l, live) = elim (take_at n live) [
    | none ↦ (l, live)
    | some (t, rest) ↦ (drop_ticket sem t l, rest)
  ]

  unfoldable pub run : List Event → Limiter sem × List Ticket → Limiter sem × List Ticket
  unfolding step
  run [] w = w
  run (e ∷ es) w = run es (step e w)

  step-Inv :
      (i p : ℕ) (q : List (String × ℕ)) (e : Event) (l : Limiter sem) (live : List Ticket)
      → Inv sem 0 i p q l live
      → let (l', live') = step e (l, live) in Inv sem 0 i p q l' live'
  unfolding step
  step-Inv i p q (connect addr app) l live v = try_acquire-Inv sem i p q addr live app l v
  step-Inv i p q (disconnect n) l live v = elim (Option-cases (take_at n live)) [
    | inl e ↦ rw (e, step) v
    | inr (r, e) ↦ rw (e, step) (drop_ticket-Inv i p q l n live r.1 r.0 v e)
  ]

  run-Inv :
      (i p : ℕ) (q : List (String × ℕ)) (es : List Event) (l : Limiter sem) (live : List Ticket)
      → Inv sem 0 i p q l live
      → let (l', live') = run es (l, live) in Inv sem 0 i p q l' live'
  unfolding run
  run-Inv i p q [] l live v = v
  run-Inv i p q (e ∷ es) l live v =
      run-Inv i p q es (step e (l, live)).0 (step e (l, live)).1 (step-Inv i p q e l live v)

  -- After any history of connections and disconnections, the tickets that are out number at most
  -- the instance limit; at most the limit of an address are for that address, unless that limit is
  -- 0, which stands for none; and at most the limit of an application are for that application, 0
  -- if it has none.
  pub limits_hold :
      (instance_limit per_ip : ℕ) (per_app : List (String × ℕ)) (es : List Event) (addr : ℕ)
      (app : String)
      → let live = (run es (new sem instance_limit per_ip per_app, [])).1 in
        (length live ≤ instance_limit)
        × ((per_ip ≡ 0) ⊎ (live_ip addr live ≤ per_ip))
        × (live_app app live ≤ count app per_app)
  limits_hold i p q es addr app =
      let w = run es (new sem i p q, []) in
      let v = run-Inv i p q es (new sem i p q) [] (new-Inv sem i p q) in
      (
        omega (arith, v.permits),
        ip_limit p (live_ip addr w.1) (count addr w.0.active_connections_per_ip)
            (λ h. v.ip_counted h addr) (λ h. v.ip_bounded h addr),
        omega (arith, v.app_counted app, v.app_bounded app),
      )
