-- ===== src/Flashblocks/Inbound/Forwarded.antt =====
-- Which flashblocks are handed on (crates/rollup-boost/src/flashblocks/inbound.rs).
use rollup_boost.Prelude.{
  ℕ, ◌+◌, Bool, true, false, List, [], ◌∷◌, ◌++◌, append_assoc, append-nil, Option, none, some, leb,
  nat_eq, ◌≡◌, refl, sym, ap, ◌∙◌, subst, ◌⊎◌, Bool-cases, inl, inr, if◌then◌else◌,
}
use rollup_boost.Payload.Trace.{CacheOps}
use rollup_boost.Flashblocks.{FlashblocksPayloadV1}
use rollup_boost.Sockets.{text, binary, ping, pong, close, message, failure, ended, Backoff}
use rollup_boost.Flashblocks.Inbound.{
  FlashblocksReceiverError, pong_timeout, message_missing, connection_error, connection_closed,
  send_error, Event, ping_tick, read, timer, Receiver, handle, reader, on_frame, forward, on_pong,
  go_on,
}

module _ (pings : CacheOps ℕ (Unit {0})) (backoff : Backoff)
    (from_str : List ℕ → Option FlashblocksPayloadV1) (from_slice : List ℕ → Option ℕ) where
  abbrev add : Option FlashblocksPayloadV1 → List FlashblocksPayloadV1 → List FlashblocksPayloadV1
  add none ps = ps
  add (some p) ps = p ∷ ps

  -- The flashblocks in the text frames among the events.
  abbrev pub flashblocks_of : List (ℕ × Event) → List FlashblocksPayloadV1
  flashblocks_of [] = []
  flashblocks_of ((now, read (message (text t)) is_open) ∷ es) =
      add (from_str t) (flashblocks_of es)
  flashblocks_of ((now, _) ∷ es) = flashblocks_of es

  abbrev IsForwarded :
      List FlashblocksPayloadV1
      → List FlashblocksPayloadV1
      → Option (ℕ × FlashblocksReceiverError) × Receiver pings backoff from_str from_slice
      → Type 0
  IsForwarded before all r =
      (now : List FlashblocksPayloadV1) × (later : List FlashblocksPayloadV1) × (r.1.sent
        ≡ before ++ now)
      × (now ++ later ≡ all)
      × ((later ≡ []) ⊎ ((x : ℕ × FlashblocksReceiverError) × (r.0 ≡ some x)))

  over-IsForwarded :
      (x : ℕ × FlashblocksReceiverError) (all : List FlashblocksPayloadV1)
      (r : Receiver pings backoff from_str from_slice)
      → IsForwarded r.sent all (some x, r)
  over-IsForwarded x all r = ([], all, sym (append-nil r.sent), refl, inr (x, refl))

  one-IsForwarded :
      (before all : List FlashblocksPayloadV1) (p : FlashblocksPayloadV1)
      (r : Option (ℕ × FlashblocksReceiverError) × Receiver pings backoff from_str from_slice)
      → IsForwarded (before ++ (p ∷ [])) all r
      → IsForwarded before (p ∷ all) r
  one-IsForwarded before all p r (now, later, e, k, c) =
      (p ∷ now, later, e ∙ append_assoc before (p ∷ []) now, ap (λ z. p ∷ z) k, c)

  on_pong-sent :
      (o : Option ℕ) (now : ℕ) (r : Receiver pings backoff from_str from_slice)
      → (on_pong pings backoff from_str from_slice o now r).sent ≡ r.sent
  unfolding on_pong
  on_pong-sent none now r = refl
  on_pong-sent (some uuid) now r = refl

  text-IsForwarded :
      (o : Option FlashblocksPayloadV1) (is_open : Bool) (now : ℕ) (es : List (ℕ × Event))
      (r : Receiver pings backoff from_str from_slice)
      → IsForwarded
          (forward pings backoff from_str from_slice o is_open r).1.sent
          (flashblocks_of es)
          (reader pings backoff from_str from_slice es
            (forward pings backoff from_str from_slice o is_open r).1)
      → IsForwarded r.sent (add o (flashblocks_of es)) (
          go_on pings backoff from_str from_slice
            (forward pings backoff from_str from_slice o is_open r)
            now
            (reader pings backoff from_str from_slice es
              (forward pings backoff from_str from_slice o is_open r).1))
  unfolding forward
  text-IsForwarded none is_open now es r h = h
  text-IsForwarded (some p) true now es r h =
      one-IsForwarded r.sent (flashblocks_of es) p
        (reader pings backoff from_str from_slice es (record r { sent = r.sent ++ (p ∷ []) })) h
  text-IsForwarded (some p) false now es r h =
      over-IsForwarded (now, send_error) (p ∷ flashblocks_of es) r

  -- Whatever a connection brings, the flashblocks that its reading task hands on are those of the
  -- text frames, in order and each once, up to the error that ends the task; as long as there is none,
  -- none is left out. A failed ping is no such error: the task goes on.
  pub reader-IsForwarded :
      (es : List (ℕ × Event)) (r : Receiver pings backoff from_str from_slice)
      → (now : List FlashblocksPayloadV1) × (later : List FlashblocksPayloadV1) × ((reader pings
            backoff from_str from_slice es r).1.sent
          ≡ r.sent ++ now)
        × (now ++ later ≡ flashblocks_of es)
        × ((later ≡ [])
            ⊎ ((x : ℕ × FlashblocksReceiverError) × ((reader pings backoff from_str from_slice es
                    r).0
                  ≡ some x)))
  unfolding reader on_frame
  reader-IsForwarded [] r = ([], [], sym (append-nil r.sent), refl, inl refl)
  reader-IsForwarded ((now, ping_tick uuid true) ∷ es) r =
      reader-IsForwarded es (record r { ping_cache = pings.insert uuid tt r.ping_cache })
  reader-IsForwarded ((now, ping_tick uuid false) ∷ es) r = reader-IsForwarded es r
  reader-IsForwarded ((now, timer) ∷ es) r = elim (Bool-cases (leb r.next_tick now)) [
    | inl e ↦ rw (e) (over-IsForwarded (now, pong_timeout) (flashblocks_of es) r)
    | inr e ↦ rw (e) (reader-IsForwarded es r)
  ]
  reader-IsForwarded ((now, read (failure e) is_open) ∷ es) r =
      over-IsForwarded (now, connection_error) (flashblocks_of es) r
  reader-IsForwarded ((now, read ended is_open) ∷ es) r =
      over-IsForwarded (now, message_missing) (flashblocks_of es) r
  reader-IsForwarded ((now, read (message close) is_open) ∷ es) r =
      over-IsForwarded (now, connection_closed) (flashblocks_of es) r
  reader-IsForwarded ((now, read (message (ping bytes)) is_open) ∷ es) r = reader-IsForwarded es r
  reader-IsForwarded ((now, read (message (binary bytes)) is_open) ∷ es) r = reader-IsForwarded es r
  reader-IsForwarded ((now, read (message (pong bytes)) is_open) ∷ es) r =
      subst
        (λ z. IsForwarded z (flashblocks_of es) (
          reader pings backoff from_str from_slice es
            (on_pong pings backoff from_str from_slice (from_slice bytes) now r)))
        (on_pong-sent (from_slice bytes) now r)
        (reader-IsForwarded es (on_pong pings backoff from_str from_slice (from_slice bytes) now r))
  reader-IsForwarded ((now, read (message (text t)) is_open) ∷ es) r =
      let r' = record r { messages_received = r.messages_received + 1 } in
      text-IsForwarded (from_str t) is_open now es r' (
        reader-IsForwarded es (forward pings backoff from_str from_slice (from_str t) is_open r').1)

  abbrev HasNoFailedPing : List (ℕ × Event) → Type 0
  HasNoFailedPing [] = Unit {0}
  HasNoFailedPing ((now, ping_tick uuid false) ∷ es) = ⊥
  HasNoFailedPing ((now, _) ∷ es) = HasNoFailedPing es

  -- As long as no ping fails, a connection comes out as its reading task does.
  handle-reader :
      (es : List (ℕ × Event)) (r : Receiver pings backoff from_str from_slice)
      → HasNoFailedPing es
      → handle pings backoff from_str from_slice es r
        ≡ reader pings backoff from_str from_slice es r
  unfolding handle reader
  handle-reader [] r h = refl
  handle-reader ((now, ping_tick uuid true) ∷ es) r h =
      handle-reader es (record r { ping_cache = pings.insert uuid tt r.ping_cache }) h
  handle-reader ((now, ping_tick uuid false) ∷ es) r h = absurd h
  handle-reader ((now, timer) ∷ es) r h =
      ap (λ z. if leb r.next_tick now then (some (now, pong_timeout), r) else z)
        (handle-reader es r h)
  handle-reader ((now, read f is_open) ∷ es) r h =
      let handled = on_frame pings backoff from_str from_slice f is_open now r in
      ap (λ z. go_on pings backoff from_str from_slice handled now z) (handle-reader es handled.1 h)
