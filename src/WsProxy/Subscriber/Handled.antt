-- ===== src/WsProxy/Subscriber/Handled.antt =====
-- What the handler of an upstream is called with (crates/websocket-proxy/src/subscriber.rs).
use rollup_boost.Prelude.{
  ℕ, ◌+◌, List, [], ◌∷◌, ◌++◌, append_assoc, append-nil, Option, some, leb, Result, ok, err, ◌≡◌,
  refl, sym, ap, ◌∙◌, Bool-cases, ◌⊎◌, inl, inr,
}
use rollup_boost.Sockets.{Backoff, text, binary, ping, pong, close, message, failure, ended}
use rollup_boost.WsProxy.Subscriber.{
  Event, deadline_check, ping_failed, read, WebsocketSubscriber, listen, handle, handle_message,
  connected, attempted, connect_and_listen, established,
}

-- The contents of the text and binary frames among the events.
abbrev pub payloads : {E : Type 0} → List (ℕ × Event E) → List (List ℕ)
payloads [] = []
payloads ((now, read (message (text bytes))) ∷ es) = bytes ∷ payloads es
payloads ((now, read (message (binary bytes))) ∷ es) = bytes ∷ payloads es
payloads ((now, _) ∷ es) = payloads es

module _ (backoff : Backoff) {E : Type 0} (connection_closed : E) where
  -- What is handled from a state on is a prefix of `all`, and all of it while the loop goes on.
  abbrev IsHandled :
      List (List ℕ)
      → List (List ℕ)
      → Option (Result E (Unit {0})) × WebsocketSubscriber backoff connection_closed
      → Type 0
  IsHandled before all r =
      (now : List (List ℕ)) × (later : List (List ℕ)) × (r.1.handled ≡ before ++ now)
      × (now ++ later ≡ all)
      × ((later ≡ []) ⊎ ((x : Result E (Unit {0})) × (r.0 ≡ some x)))

  none-IsHandled :
      (x : Result E (Unit {0})) (all : List (List ℕ))
      (s : WebsocketSubscriber backoff connection_closed)
      → IsHandled s.handled all (some x, s)
  none-IsHandled x all s = ([], all, sym (append-nil s.handled), refl, inr (x, refl))

  one-IsHandled :
      (before : List (List ℕ)) (bytes : List ℕ) (all : List (List ℕ))
      (r : Option (Result E (Unit {0})) × WebsocketSubscriber backoff connection_closed)
      → IsHandled (before ++ (bytes ∷ [])) all r
      → IsHandled before (bytes ∷ all) r
  one-IsHandled before bytes all r (now, later, e, k, c) =
      (bytes ∷ now, later, e ∙ append_assoc before (bytes ∷ []) now, ap (λ z. bytes ∷ z) k, c)

  listen-IsHandled :
      (es : List (ℕ × Event E)) (deadline : ℕ) (s : WebsocketSubscriber backoff connection_closed)
      → IsHandled s.handled (payloads es) (listen backoff connection_closed es deadline s)
  unfolding listen handle_message
  listen-IsHandled [] deadline s = ([], [], sym (append-nil s.handled), refl, inl refl)
  listen-IsHandled ((now, deadline_check) ∷ es) deadline s = elim (Bool-cases (leb deadline now)) [
    | inl e ↦ rw (e) (none-IsHandled (err connection_closed) (payloads es) s)
    | inr e ↦ rw (e) (listen-IsHandled es deadline s)
  ]
  listen-IsHandled ((now, ping_failed e) ∷ es) deadline s = none-IsHandled (err e) (payloads es) s
  listen-IsHandled ((now, read ended) ∷ es) deadline s = none-IsHandled (ok tt) (payloads es) s
  listen-IsHandled ((now, read (failure e)) ∷ es) deadline s =
      none-IsHandled (err e) (payloads es) s
  listen-IsHandled ((now, read (message close)) ∷ es) deadline s =
      none-IsHandled (err connection_closed) (payloads es) s
  listen-IsHandled ((now, read (message (ping b))) ∷ es) deadline s = listen-IsHandled es deadline s
  listen-IsHandled ((now, read (message (pong b))) ∷ es) deadline s =
      listen-IsHandled es (now + s.options.pong_timeout) s
  listen-IsHandled ((now, read (message (text b))) ∷ es) deadline s =
      one-IsHandled s.handled b (payloads es)
        (listen backoff connection_closed es deadline (handle backoff connection_closed b s))
        (listen-IsHandled es deadline (handle backoff connection_closed b s))
  listen-IsHandled ((now, read (message (binary b))) ∷ es) deadline s =
      one-IsHandled s.handled b (payloads es)
        (listen backoff connection_closed es deadline (handle backoff connection_closed b s))
        (listen-IsHandled es deadline (handle backoff connection_closed b s))

  -- On a connection, the handler is called with the contents of its text and binary frames, in order
  -- and each once, up to the end of the connection; as long as that is open, none is left out.
  pub connection-IsHandled :
      (started : ℕ) (es : List (ℕ × Event E)) (s : WebsocketSubscriber backoff connection_closed)
      → (now : List (List ℕ)) × (later : List (List ℕ)) × ((connect_and_listen backoff
            connection_closed
            (established started es)
            s).1.handled
          ≡ s.handled ++ now)
        × (now ++ later ≡ payloads es)
        × ((later ≡ [])
            ⊎ ((x : Result E (Unit {0})) × ((connect_and_listen backoff connection_closed
                    (established started es)
                    s).0
                  ≡ some x)))
  unfolding connect_and_listen
  connection-IsHandled started es s =
      listen-IsHandled es (started + s.options.initial_grace_period)
        (connected backoff connection_closed (attempted backoff connection_closed s))
