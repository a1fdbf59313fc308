-- ===== src/WsProxy/Registry/Silence.antt =====
-- What the proxy does with a client that is silent (crates/websocket-proxy/src/registry.rs).
use rollup_boost.Prelude.{
  ℕ, ◌+◌, ◌-◌, ◌/◌, ◌<◌, Bool, true, false, List, [], ◌∷◌, some, ◌≡◌, refl, inl, inr, arith, ltb,
  ◌==◌, nat_eq, Bool-cases, All, Any, ◌≢◌,
}
use rollup_boost.Sockets.{text, binary, ping, pong, close, message, failure, ended}
use rollup_boost.WsProxy.Registry.{
  ReaderEvent, frame, timeout_check, Reason, client_closed, client_failed, client_ended, timed_out,
  panicked, read, start_reader,
}

abbrev pub is_pong : {E : Type 0} → ReaderEvent E → Bool
is_pong (frame (message (pong b))) = true
is_pong _ = false

-- Among the events there is no pong, and a timeout_check after an instant.
abbrev pub IsSilent : {E : Type 0} → List (ℕ × ReaderEvent E) → Type 0
IsSilent {E} es = All (λ (x : ℕ × ReaderEvent E). is_pong x.1 ≡ false) es

abbrev pub HasTickAfter : {E : Type 0} → ℕ → List (ℕ × ReaderEvent E) → Type 0
HasTickAfter {E} t es = Any (λ (x : ℕ × ReaderEvent E). (x.1 ≡ timeout_check) × (t < x.0)) es

read_silent :
    {E : Type 0} (es : List (ℕ × ReaderEvent E)) (timeout last_pong : ℕ)
    → IsSilent es
    → HasTickAfter (last_pong + timeout) es
    → (r : Reason) × (read true timeout es last_pong ≡ some r)
unfolding read
read_silent [] timeout last_pong h l = absurd l
read_silent ((now, timeout_check) ∷ es) timeout last_pong h (inl (e, l)) =
    (timed_out, ground (arith, l))
read_silent ((now, timeout_check) ∷ es) timeout last_pong h (inr l) =
    elim (Bool-cases (ltb timeout (now - last_pong))) [
      | inl e ↦ (timed_out, rw (e) refl)
      | inr e ↦ rw (e) (read_silent es timeout last_pong h.1 l)
    ]
read_silent ((now, frame (message (pong b))) ∷ es) timeout last_pong h l = absurd (cc)
read_silent ((now, frame (message close)) ∷ es) timeout last_pong h l = (client_closed, refl)
read_silent ((now, frame (failure e)) ∷ es) timeout last_pong h l = (client_failed, refl)
read_silent ((now, frame ended) ∷ es) timeout last_pong h l = (client_ended, refl)
read_silent ((now, frame (message (text b))) ∷ es) timeout last_pong h (inr l) =
    read_silent es timeout last_pong h.1 l
read_silent ((now, frame (message (binary b))) ∷ es) timeout last_pong h (inr l) =
    read_silent es timeout last_pong h.1 l
read_silent ((now, frame (message (ping b))) ∷ es) timeout last_pong h (inr l) =
    read_silent es timeout last_pong h.1 l
read_silent ((now, frame (message (text b))) ∷ es) timeout last_pong h (inl l) = absurd cc
read_silent ((now, frame (message (binary b))) ∷ es) timeout last_pong h (inl l) = absurd cc
read_silent ((now, frame (message (ping b))) ∷ es) timeout last_pong h (inl l) = absurd cc

-- Where pings are enabled, a client that sends no pong is left by the first timeout_check of its checker
-- later than the timeout after its start.
pub silent_client_leaves :
    {E : Type 0} (es : List (ℕ × ReaderEvent E)) (timeout started : ℕ)
    → IsSilent es
    → HasTickAfter (started + timeout) es
    → (r : Reason) × (start_reader true timeout started es ≡ some r)
unfolding start_reader
silent_client_leaves es timeout started h l = elim (Bool-cases (timeout / 4 == 0)) [
  | inl e ↦ (panicked, rw (e) refl)
  | inr e ↦ rw (e) (read_silent es timeout started h l)
]

-- With a timeout under four milliseconds every client is left at once, also where pings are
-- disabled.
pub short_timeout_panics :
    {E : Type 0} (es : List (ℕ × ReaderEvent E)) (enabled : Bool) (timeout started : ℕ)
    → timeout < 4
    → start_reader enabled timeout started es ≡ some panicked
unfolding start_reader
short_timeout_panics es enabled timeout started h = ground (arith, h)

-- Where pings are disabled, no client times out.
read_disabled :
    {E : Type 0} (es : List (ℕ × ReaderEvent E)) (timeout last_pong : ℕ)
    → read false timeout es last_pong ≢ some timed_out
unfolding read
read_disabled [] timeout last_pong h = absurd cc
read_disabled ((now, timeout_check) ∷ es) timeout last_pong h = read_disabled es timeout last_pong h
read_disabled ((now, frame (message (pong b))) ∷ es) timeout last_pong h =
    read_disabled es timeout last_pong h
read_disabled ((now, frame (message close)) ∷ es) timeout last_pong h = absurd cc
read_disabled ((now, frame (failure e)) ∷ es) timeout last_pong h = absurd cc
read_disabled ((now, frame ended) ∷ es) timeout last_pong h = absurd cc
read_disabled ((now, frame (message (text b))) ∷ es) timeout last_pong h =
    read_disabled es timeout last_pong h
read_disabled ((now, frame (message (binary b))) ∷ es) timeout last_pong h =
    read_disabled es timeout last_pong h
read_disabled ((now, frame (message (ping b))) ∷ es) timeout last_pong h =
    read_disabled es timeout last_pong h
