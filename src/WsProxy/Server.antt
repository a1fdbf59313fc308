-- ===== src/WsProxy/Server.antt =====
-- The HTTP server of crates/websocket-proxy/src/server.rs: who may open a WebSocket, and for which
-- address and application a ticket of the rate limit is taken. The limiter is the one in memory;
-- reading the text of a header and parsing an address are parameters, as is the text that stands
-- for an application's name.
pub mod Address
pub mod Admission
pub mod Keys
use rollup_boost.Prelude.{
  ℕ, ◌+◌, ◌-◌, Bool, true, false, ◌||◌, ◌&&◌, List, [], ◌∷◌, ◌++◌, Option, none, some, leb, ◌==◌,
  nat_eq, if◌then◌else◌, Result, ok, err, String,
}
use rollup_boost.Auth.{Text, Authentication, split, get_application_for_key}
use rollup_boost.RateLimit.{Semaphore, Limiter, Ticket, RateLimitError, try_acquire, drop_ticket}
use rollup_boost.RateLimit.Bounds.{take_at}

-- What `char::is_whitespace` says of the characters that a header value may have as a text.
abbrev pub is_whitespace : ℕ → Bool
is_whitespace c = (leb 9 c && leb c 13) || (c == 32)

unfoldable pub trim_start : Text → Text
trim_start [] = []
trim_start (c ∷ cs) = let rest = trim_start cs in if is_whitespace c then rest else c ∷ cs

unfoldable pub reverse : Text → Text → Text
reverse [] t = t
reverse (c ∷ cs) t = reverse cs (c ∷ t)

unfoldable pub trim : Text → Text
unfolding trim_start reverse
trim t = reverse (trim_start (reverse (trim_start t) [])) []

-- `next_back` on the parts.
abbrev pub next_back : List Text → Option Text
next_back [] = none
next_back (p ∷ []) = some p
next_back (p ∷ (q ∷ ps)) = next_back (q ∷ ps)

abbrev pub unwrap_or : {A : Type 0} → Option A → A → A
unwrap_or none a = a
unwrap_or (some b) a = b

-- A path that is routed.
pub data Route : Type 0 where
  healthz ws other : Route
  ws_key : Text → Route

pub data Response : Type 0 where
  healthy unauthorized not_found : Response
  too_many_requests : RateLimitError → Response
  upgrade : Ticket → Response

module _ (sem : Semaphore) (to_str : List ℕ → Option Text) (parse_ip : Text → Option ℕ)
    (name : Text → String) where
  -- `authentication` decides which route there is; the counters are those of refused requests.
  pub record ServerState : Type 0 where
    pub rate_limiter : Limiter sem
    pub authentication : Option Authentication
    pub unauthorized_requests : ℕ
    pub rate_limited_requests : ℕ

  unfoldable pub new : Limiter sem → Option Authentication → ServerState
  new limiter authentication = record {
    rate_limiter = limiter;
    authentication = authentication;
    unauthorized_requests = 0;
    rate_limited_requests = 0;
  }

  abbrev pub parse_or : Option Text → ℕ → ℕ
  parse_or none fallback = fallback
  parse_or (some raw_value) fallback = unwrap_or (parse_ip (trim raw_value)) fallback

  abbrev pub extract_from : Option Text → ℕ → ℕ
  extract_from none fallback = fallback
  extract_from (some header_value) fallback = parse_or (next_back (split 44 header_value)) fallback

  unfoldable pub extract_addr : List ℕ → ℕ → ℕ
  unfolding split trim
  extract_addr [] fallback = fallback
  extract_addr (b ∷ bs) fallback = extract_from (to_str (b ∷ bs)) fallback

  -- The address of a connection: of the header with the address, if the request has it.
  abbrev pub client_addr : Option (List ℕ) → ℕ → ℕ
  client_addr none connect_addr = connect_addr
  client_addr (some value) connect_addr = extract_addr value connect_addr

  abbrev pub named : Option Text → Option String
  named none = none
  named (some app) = some (name app)

  abbrev pub respond :
      Result RateLimitError Ticket × Limiter sem → ServerState → Response × ServerState
  respond (ok ticket, l) s = (upgrade ticket, record s { rate_limiter = l })
  respond (err e, l) s = (
    too_many_requests e,
    record s { rate_limiter = l; rate_limited_requests = s.rate_limited_requests + 1 },
  )

  unfoldable pub websocket_handler :
      ℕ → Option (List ℕ) → Option Text → ServerState → Response × ServerState
  unfolding try_acquire extract_addr
  websocket_handler addr header app s =
      respond (try_acquire sem (client_addr header addr) (named app) s.rate_limiter) s

  abbrev pub unauthorized_request : ServerState → ServerState
  unauthorized_request s = record s { unauthorized_requests = s.unauthorized_requests + 1 }

  unfoldable pub admit : Option Text → ℕ → Option (List ℕ) → ServerState → Response × ServerState
  unfolding websocket_handler
  admit none addr header s = (unauthorized, unauthorized_request s)
  admit (some app) addr header s = websocket_handler addr header (some app) s

  unfoldable pub authenticated_websocket_handler :
      Text → Authentication → ℕ → Option (List ℕ) → ServerState → Response × ServerState
  unfolding admit
  authenticated_websocket_handler api_key auth addr header s =
      admit (get_application_for_key api_key auth) addr header s

  -- The router of `listen`.
  unfoldable pub route_for :
      Option Authentication → Route → ℕ → Option (List ℕ) → ServerState → Response × ServerState
  unfolding authenticated_websocket_handler
  route_for auth healthz addr header s = (healthy, s)
  route_for auth other addr header s = (not_found, s)
  route_for none ws addr header s = websocket_handler addr header none s
  route_for (some auth) ws addr header s = (not_found, s)
  route_for none (ws_key api_key) addr header s = (not_found, s)
  route_for (some auth) (ws_key api_key) addr header s =
      authenticated_websocket_handler api_key auth addr header s

  unfoldable pub route : Route → ℕ → Option (List ℕ) → ServerState → Response × ServerState
  unfolding route_for
  route path addr header s = route_for s.authentication path addr header s

  -- A request, or the end of a connection, which drops its ticket.
  pub data Event : Type 0 where
    request : Route → ℕ → Option (List ℕ) → Event
    finished : ℕ → Event

  abbrev pub admitted : Response → List Ticket → List Ticket
  admitted (upgrade t) live = t ∷ live
  admitted _ live = live

  abbrev pub drop_at :
      Option (Ticket × List Ticket) → ServerState × List Ticket → ServerState × List Ticket
  drop_at none w = w
  drop_at (some (t, rest)) w =
      (record (w.0) { rate_limiter = drop_ticket sem t w.0.rate_limiter }, rest)

  unfoldable pub step : Event → ServerState × List Ticket → ServerState × List Ticket
  unfolding route
  step (request path addr header) w =
      ((route path addr header w.0).1, admitted (route path addr header w.0).0 w.1)
  step (finished n) w = drop_at (take_at n w.1) w

  unfoldable pub run : List Event → ServerState × List Ticket → ServerState × List Ticket
  unfolding step
  run [] w = w
  run (e ∷ es) w = run es (step e w)
