-- ===== src/WsProxy/Server/Admission.antt =====
-- Whom the proxy admits (crates/websocket-proxy/src/server.rs over rate_limit.rs and auth.rs).
use rollup_boost.Prelude.{
  ℕ, ◌≤◌, List, [], ◌∷◌, ◌++◌, Option, none, some, ◌≡◌, ◌⊎◌, refl, sym, ap, ◌∙◌, subst, String,
  Result, ok, err, length, nat_eq, string_eq,
}
use rollup_boost.Auth.{Text, Authentication, get_application_for_key}
use rollup_boost.RateLimit.{Semaphore, Limiter, Ticket, RateLimitError, try_acquire, drop_ticket}
use rollup_boost.RateLimit
use rollup_boost.RateLimit.Counters.{count}
use rollup_boost.RateLimit.Bounds.{take_at, granted, live_ip, live_app}
use rollup_boost.RateLimit.Release
use rollup_boost.RateLimit.Release.{limits_hold}
use rollup_boost.WsProxy.Server.{
  Route, healthz, ws, other, ws_key, ServerState, new, Event, request, finished, admitted, respond,
  client_addr, named, websocket_handler, admit, authenticated_websocket_handler, route_for, route,
  step, run, drop_at,
}

module _ (sem : Semaphore) (to_str : List ℕ → Option Text) (parse_ip : Text → Option ℕ)
    (name : Text → String) where
  abbrev World : Type 0
  World = ServerState sem to_str parse_ip name × List Ticket

  abbrev seen : World → Limiter sem × List Ticket
  seen w = (w.0.rate_limiter, w.1)

  -- What the limiter is to see of an event. A client that asks for a WebSocket connects, from the
  -- address that counts for it: for no application on the route without keys, where there are no
  -- keys; for the application of its key where there are, and not at all if its key is nobody's.
  abbrev connects : Option Text → ℕ → Option (List ℕ) → List Release.Event
  connects none addr header = []
  connects (some app) addr header =
      Release.connect (client_addr sem to_str parse_ip name header addr) (some (name app)) ∷ []

  abbrev pub seen_of : Option Authentication → Event sem to_str parse_ip name → List Release.Event
  seen_of none (request ws addr header) =
      Release.connect (client_addr sem to_str parse_ip name header addr) none ∷ []
  seen_of (some a) (request (ws_key key) addr header) =
      connects (get_application_for_key key a) addr header
  seen_of auth (request _ addr header) = []
  seen_of auth (finished n) = Release.disconnect n ∷ []

  abbrev pub all_seen :
      Option Authentication → List (Event sem to_str parse_ip name) → List Release.Event
  all_seen auth [] = []
  all_seen auth (e ∷ es) = seen_of auth e ++ all_seen auth es

  -- The limiter and the tickets after a step are those after what it is to see; who has a key stays.
  abbrev IsStep : List Release.Event → World → World → Type 0
  IsStep es w v = (seen v ≡ Release.run sem es (seen w)) × (v.0.authentication ≡ w.0.authentication)

  respond-seen :
      (r : Result RateLimitError Ticket × Limiter sem) (s : ServerState sem to_str parse_ip name)
      (live : List Ticket)
      → let x = respond sem to_str parse_ip name r s in
        (seen (x.1, admitted sem to_str parse_ip name x.0 live) ≡ (r.1, granted sem r.0 live))
        × (x.1.authentication ≡ s.authentication)
  respond-seen (ok t, l) s live = (refl, refl)
  respond-seen (err e, l) s live = (refl, refl)

  nothing-IsStep : (w : World) → IsStep [] w w
  unfolding Release.run
  nothing-IsStep w = (refl, refl)

  websocket-IsStep :
      (addr : ℕ) (header : Option (List ℕ)) (app : Option Text)
      (s : ServerState sem to_str parse_ip name) (live : List Ticket)
      → let x = websocket_handler sem to_str parse_ip name addr header app s in
        IsStep
          (Release.connect
              (client_addr sem to_str parse_ip name header addr)
              (named sem to_str parse_ip name app)
            ∷ [])
          (s, live)
          (x.1, admitted sem to_str parse_ip name x.0 live)
  unfolding websocket_handler Release.run Release.step
  websocket-IsStep addr header app s live =
      respond-seen
        (try_acquire sem (client_addr sem to_str parse_ip name header addr)
          (named sem to_str parse_ip name app) s.rate_limiter)
        s live

  admit-IsStep :
      (o : Option Text) (addr : ℕ) (header : Option (List ℕ))
      (s : ServerState sem to_str parse_ip name) (live : List Ticket)
      → let x = admit sem to_str parse_ip name o addr header s in
        IsStep (connects o addr header) (s, live) (x.1, admitted sem to_str parse_ip name x.0 live)
  unfolding admit Release.run
  admit-IsStep none addr header s live = (refl, refl)
  admit-IsStep (some app) addr header s live = websocket-IsStep addr header (some app) s live

  route-IsStep :
      (auth : Option Authentication) (p : Route) (addr : ℕ) (header : Option (List ℕ))
      (s : ServerState sem to_str parse_ip name) (live : List Ticket)
      → let x = route_for sem to_str parse_ip name auth p addr header s in
        IsStep
          (seen_of auth (request p addr header))
          (s, live)
          (x.1, admitted sem to_str parse_ip name x.0 live)
  unfolding route_for authenticated_websocket_handler
  route-IsStep none healthz addr header s live = nothing-IsStep (s, live)
  route-IsStep (some a) healthz addr header s live = nothing-IsStep (s, live)
  route-IsStep none other addr header s live = nothing-IsStep (s, live)
  route-IsStep (some a) other addr header s live = nothing-IsStep (s, live)
  route-IsStep none ws addr header s live = websocket-IsStep addr header none s live
  route-IsStep (some a) ws addr header s live = nothing-IsStep (s, live)
  route-IsStep none (ws_key key) addr header s live = nothing-IsStep (s, live)
  route-IsStep (some a) (ws_key key) addr header s live =
      admit-IsStep (get_application_for_key key a) addr header s live

  drop-IsStep :
      (n : ℕ) (o : Option (Ticket × List Ticket)) (w : World)
      → take_at n w.1 ≡ o
      → IsStep (Release.disconnect n ∷ []) w (drop_at sem to_str parse_ip name o w)
  unfolding Release.run Release.step
  drop-IsStep n none w h = (rw (h, Release.step) refl, refl)
  drop-IsStep n (some (t, rest)) w h = (rw (h, Release.step) refl, refl)

  finished_seen :
      (auth : Option Authentication) (n : ℕ) → seen_of auth (finished n) ≡ Release.disconnect n ∷ []
  finished_seen none n = refl
  finished_seen (some a) n = refl

  step-IsStep :
      (e : Event sem to_str parse_ip name) (w : World)
      → IsStep (seen_of w.0.authentication e) w (step sem to_str parse_ip name e w)
  unfolding step route
  step-IsStep (request path addr header) w =
      route-IsStep w.0.authentication path addr header w.0 w.1
  step-IsStep (finished n) w =
      rw (finished_seen w.0.authentication n) (drop-IsStep n (take_at n w.1) w refl)

  run-append :
      (es fs : List Release.Event) (v : Limiter sem × List Ticket)
      → Release.run sem (es ++ fs) v ≡ Release.run sem fs (Release.run sem es v)
  unfolding Release.run
  run-append [] fs v = refl
  run-append (e ∷ es) fs v = run-append es fs (Release.step sem e v)

  -- After any history of requests and ends of connections, the limiter and the tickets out are those
  -- that the limiter comes to by itself over exactly these events: an end of a connection is the
  -- return of its ticket, and a request for a WebSocket connects its client, from the address that
  -- counts for it. Without keys that is a request to the route without one, for no application; with
  -- keys it is a request with a key of an application, for that application; no other request is
  -- seen by the limiter. Who has a key stays.
  pub run-refines :
      (es : List (Event sem to_str parse_ip name))
      (w : ServerState sem to_str parse_ip name × List Ticket)
      → let v = run sem to_str parse_ip name es w in
        ((v.0.rate_limiter, v.1)
          ≡ Release.run sem (all_seen w.0.authentication es) (w.0.rate_limiter, w.1))
        × (v.0.authentication ≡ w.0.authentication)
  unfolding run Release.run
  run-refines [] w = (refl, refl)
  run-refines (e ∷ es) w =
      let (h, a) = step-IsStep e w in
      let (k, b) = run-refines es (step sem to_str parse_ip name e w) in
      let auth = w.0.authentication in
      (
        k
            ∙ ap (λ o. Release.run sem (all_seen o es) (seen (step sem to_str parse_ip name e w))) a
            ∙ ap (Release.run sem (all_seen auth es)) h
            ∙ sym (run-append (seen_of auth e) (all_seen auth es) (seen w)),
        b ∙ a,
      )

  -- After any history of the server, the WebSockets that are open number at most the instance limit;
  -- at most the limit of an address are open for that address, unless that limit is 0; and at most
  -- the limit of an application for that application.
  pub sockets_within_limits :
      (instance_limit per_ip : ℕ) (per_app : List (String × ℕ)) (auth : Option Authentication)
      (es : List (Event sem to_str parse_ip name)) (addr : ℕ) (app : String)
      → let start =
          new sem to_str parse_ip name (RateLimit.new sem instance_limit per_ip per_app) auth in
        let live = (run sem to_str parse_ip name es (start, [])).1 in
        (length live ≤ instance_limit)
        × ((per_ip ≡ 0) ⊎ (live_ip addr live ≤ per_ip))
        × (live_app app live ≤ count app per_app)
  unfolding new
  sockets_within_limits i p q auth es addr app =
      let start = new sem to_str parse_ip name (RateLimit.new sem i p q) auth in
      subst
        (λ z. (length z ≤ i) × ((p ≡ 0) ⊎ (live_ip addr z ≤ p)) × (live_app app z ≤ count app q))
        (sym (ap (λ z. z.1) (run-refines es (start, [])).0))
        (limits_hold sem i p q (all_seen auth es) addr app)
