-- ===== src/WsProxy/Server/Keys.antt =====
-- The keys of open WebSockets (crates/websocket-proxy/src/server.rs over auth.rs).
use rollup_boost.Prelude.{
  ℕ, zero, suc, ◌+◌, List, [], ◌∷◌, Option, none, some, ◌≡◌, inl, inr, refl, sym, All, arith,
  String, Result, ok, err, ltb, Option-cases, Bool-cases, nat_eq, string_eq, subst,
}
use rollup_boost.Auth.{Text, Authentication, get_application_for_key}
use rollup_boost.RateLimit.{
  Semaphore, Limiter, Ticket, RateLimitError, try_acquire, acquire_ip, acquire_app, app_limit,
}
use rollup_boost.RateLimit.Bounds.{take_at, also}
use rollup_boost.RateLimit.Counters.{count, bump}
use rollup_boost.WsProxy.Server.{
  Route, healthz, ws, other, ws_key, ServerState, new, Event, request, finished, admitted, respond,
  client_addr, websocket_handler, admit, authenticated_websocket_handler, route_for, route, step,
  run, drop_at,
}

take_at-All :
    (P : Ticket → Type 0) (n : ℕ) (live rest : List Ticket) (t : Ticket)
    → All P live
    → take_at n live ≡ some (t, rest)
    → All P rest
take_at-All P n [] rest t h e = absurd cc
take_at-All P zero (u ∷ us) rest t h e = subst (All P) (ground (arith, e)) h.1
take_at-All P (suc n) (u ∷ us) rest t h e = elim (Option-cases (take_at n us)) [
  | inl k ↦ absurd (let bad : none ≡ some (t, rest) = (rw k at e) in cc)
  | inr (r, k) ↦
      let same : also u (some r) ≡ some (t, rest) = (rw k at e) in
      let tail : u ∷ r.1 ≡ rest = ground arith in
      subst (All P) tail (h.0, take_at-All P n us r.1 r.0 h.1 k)
]

module _ (sem : Semaphore) where
  -- The ticket that is granted is for the application that was given.
  abbrev IsFor : Option String → Result RateLimitError Ticket → Type 0
  IsFor app (ok t) = t.app ≡ app
  IsFor app (err e) = Unit {0}

  acquire_app-IsFor :
      (addr : ℕ) (app : Option String) (l : Limiter sem) → IsFor app (acquire_app sem addr app l).0
  unfolding acquire_app
  acquire_app-IsFor addr none l = refl
  acquire_app-IsFor addr (some app) l =
      elim (Bool-cases (ltb (app_limit l app) (count app l.active_connections_per_app + 1))) [
        | inl e ↦ rw (e, acquire_app) tt
        | inr e ↦ rw (e, acquire_app) refl
      ]

  acquire_ip-IsFor :
      (addr : ℕ) (app : Option String) (l : Limiter sem) → IsFor app (acquire_ip sem addr app l).0
  unfolding acquire_ip
  acquire_ip-IsFor addr app l = elim (Bool-cases (ltb 0 l.per_ip_limit)) [
    | inr off ↦ rw (off, acquire_ip) (acquire_app-IsFor addr app l)
    | inl on ↦ elim (Bool-cases (ltb l.per_ip_limit (count addr l.active_connections_per_ip + 1))) [
      | inl full ↦ rw (on, acquire_ip) (rw full tt)
      | inr fits ↦
          rw (on, acquire_ip)
            (rw fits (
              acquire_app-IsFor addr app
                (record l { active_connections_per_ip = bump addr l.active_connections_per_ip })))
    ]
  ]

  try_acquire-IsFor :
      (addr : ℕ) (app : Option String) (l : Limiter sem) → IsFor app (try_acquire sem addr app l).0
  unfolding try_acquire
  try_acquire-IsFor addr app l = elim (Option-cases (sem.try_acquire_owned l.semaphore)) [
    | inl e ↦ rw (e, try_acquire) tt
    | inr (t, e) ↦ rw (e, try_acquire) (acquire_ip-IsFor addr app (record l { semaphore = t }))
  ]

module _ (sem : Semaphore) (to_str : List ℕ → Option Text) (parse_ip : Text → Option ℕ)
    (name : Text → String) (auth : Authentication) where
  -- The ticket is for an application that one of the keys leads to.
  abbrev pub HasKey : Ticket → Type 0
  HasKey t =
      (key : Text) × (app : Text) × (get_application_for_key key auth ≡ some app)
      × (t.app ≡ some (name app))

  abbrev IsKeyed : ServerState sem to_str parse_ip name × List Ticket → Type 0
  IsKeyed w = (w.0.authentication ≡ some auth) × All HasKey w.1

  respond-IsKeyed :
      (r : Result RateLimitError Ticket × Limiter sem) (s : ServerState sem to_str parse_ip name)
      (live : List Ticket) (app key : Text)
      → get_application_for_key key auth ≡ some app
      → IsFor sem (some (name app)) r.0
      → IsKeyed (s, live)
      → let x = respond sem to_str parse_ip name r s in
        IsKeyed (x.1, admitted sem to_str parse_ip name x.0 live)
  respond-IsKeyed (ok t, l) s live app key h k i = (i.0, ((key, app, h, k), i.1))
  respond-IsKeyed (err e, l) s live app key h k i = i

  admit-IsKeyed :
      (key : Text) (o : Option Text) (addr : ℕ) (header : Option (List ℕ))
      (s : ServerState sem to_str parse_ip name) (live : List Ticket)
      → get_application_for_key key auth ≡ o
      → IsKeyed (s, live)
      → let x = admit sem to_str parse_ip name o addr header s in
        IsKeyed (x.1, admitted sem to_str parse_ip name x.0 live)
  unfolding admit websocket_handler
  admit-IsKeyed key none addr header s live h i = i
  admit-IsKeyed key (some app) addr header s live h i =
      respond-IsKeyed _ s live app key h
        (try_acquire-IsFor sem (client_addr sem to_str parse_ip name header addr) (some (name app))
          s.rate_limiter)
        i

  route-IsKeyed :
      (p : Route) (addr : ℕ) (header : Option (List ℕ)) (s : ServerState sem to_str parse_ip name)
      (live : List Ticket)
      → IsKeyed (s, live)
      → let x = route_for sem to_str parse_ip name (some auth) p addr header s in
        IsKeyed (x.1, admitted sem to_str parse_ip name x.0 live)
  unfolding route_for authenticated_websocket_handler
  route-IsKeyed healthz addr header s live i = i
  route-IsKeyed other addr header s live i = i
  route-IsKeyed ws addr header s live i = i
  route-IsKeyed (ws_key key) addr header s live i =
      admit-IsKeyed key (get_application_for_key key auth) addr header s live refl i

  drop-IsKeyed :
      (n : ℕ) (o : Option (Ticket × List Ticket))
      (w : ServerState sem to_str parse_ip name × List Ticket)
      → take_at n w.1 ≡ o
      → IsKeyed w
      → IsKeyed (drop_at sem to_str parse_ip name o w)
  drop-IsKeyed n none w h i = i
  drop-IsKeyed n (some (t, rest)) w h i = (i.0, take_at-All HasKey n w.1 rest t i.1 h)

  run-IsKeyed :
      (es : List (Event sem to_str parse_ip name))
      (w : ServerState sem to_str parse_ip name × List Ticket)
      → IsKeyed w
      → IsKeyed (run sem to_str parse_ip name es w)
  unfolding run step route
  run-IsKeyed [] w i = i
  run-IsKeyed (request p addr header ∷ es) w i =
      run-IsKeyed es (step sem to_str parse_ip name (request p addr header) w) (
        subst
          (λ o.
            let x = route_for sem to_str parse_ip name o p addr header w.0 in
            IsKeyed (x.1, admitted sem to_str parse_ip name x.0 w.1))
          (sym i.0) (route-IsKeyed p addr header w.0 w.1 i))
  run-IsKeyed (finished n ∷ es) w i =
      run-IsKeyed es (step sem to_str parse_ip name (finished n) w)
        (drop-IsKeyed n (take_at n w.1) w refl i)

  -- With keys, every WebSocket that is open after any history of the server is counted for an
  -- application that one of the keys leads to.
  pub sockets_have_keys :
      (l : Limiter sem) (es : List (Event sem to_str parse_ip name))
      → All
          (λ t. HasKey t)
          (run sem to_str parse_ip name es (new sem to_str parse_ip name l (some auth), [])).1
  unfolding new
  sockets_have_keys l es =
      (run-IsKeyed es (new sem to_str parse_ip name l (some auth), []) (refl, tt)).1
