-- ===== src/Flashblocks/Inbound/Pongs.antt =====
-- Which pongs keep a connection alive (crates/rollup-boost/src/flashblocks/inbound.rs).
use rollup_boost.Prelude.{
  ℕ, ◌+◌, ◌≤◌, Bool, true, false, List, [], ◌∷◌, Option, none, some, leb, nat_eq, nat_beq_iff, ◌≡◌,
  refl, ap, ◌∙◌, Bool-cases, inl, inr, arith, All, Any,
}
use rollup_boost.Payload.Trace.{CacheOps}
use rollup_boost.Flashblocks.{FlashblocksPayloadV1}
use rollup_boost.Sockets.{text, binary, ping, pong, close, message, failure, ended, Backoff}
use rollup_boost.Flashblocks.Inbound.{
  FlashblocksReceiverError, ping_failed, pong_timeout, message_missing, connection_error,
  connection_closed, Event, ping_tick, read, timer, Receiver, handle, on_frame, forward, on_pong,
  restarted, go_on, connected,
}

module _ (pings : CacheOps ℕ (Unit {0})) (backoff : Backoff)
    (from_str : List ℕ → Option FlashblocksPayloadV1) (from_slice : List ℕ → Option ℕ) where
  -- The ids of a connection's pings and those of its pongs are kept apart by `forged`.
  abbrev is_forged : (ℕ → Bool) → Option ℕ → Bool
  is_forged forged none = true
  is_forged forged (some uuid) = forged uuid

  abbrev pub KeepsApart : (ℕ → Bool) → ℕ × Event → Type 0
  KeepsApart forged (now, ping_tick uuid is_sent) = forged uuid ≡ false
  KeepsApart forged (now, read (message (pong bytes)) is_open) =
      is_forged forged (from_slice bytes) ≡ true
  KeepsApart forged (now, _) = Unit {0}

  -- No forged id is outstanding.
  abbrev IsClean : (ℕ → Bool) → Receiver pings backoff from_str from_slice → Type 0
  IsClean forged r = (uuid : ℕ) → forged uuid ≡ true → pings.get uuid r.ping_cache ≡ none

  insert-IsClean :
      (forged : ℕ → Bool) (uuid : ℕ) (r : Receiver pings backoff from_str from_slice)
      → forged uuid ≡ false
      → IsClean forged r
      → IsClean forged (record r { ping_cache = pings.insert uuid tt r.ping_cache })
  insert-IsClean forged uuid r h c j k = elim (pings.get-insert uuid j tt r.ping_cache) [
    | inl e ↦ e
    | inr e ↦ ground (arith, e, c j k, h, k, nat_beq_iff uuid j)
  ]

  remove-IsClean :
      (forged : ℕ → Bool) (uuid : ℕ) (r : Receiver pings backoff from_str from_slice)
      → IsClean forged r
      → IsClean forged (record r { ping_cache = pings.remove uuid r.ping_cache })
  remove-IsClean forged uuid r c j k = ground (arith, pings.get-remove uuid j r.ping_cache, c j k)

  get-remove_same : (uuid : ℕ) (c : pings.Cache) → pings.get uuid (pings.remove uuid c) ≡ none
  get-remove_same uuid c = ground (arith, pings.get-remove uuid uuid c, nat_beq_iff uuid uuid)

  -- A forged pong restarts nothing.
  on_pong-IsClean :
      (forged : ℕ → Bool) (o : Option ℕ) (now : ℕ) (r : Receiver pings backoff from_str from_slice)
      → is_forged forged o ≡ true
      → IsClean forged r
      → IsClean forged (on_pong pings backoff from_str from_slice o now r)
        × ((on_pong pings backoff from_str from_slice o now r).next_tick ≡ r.next_tick)
  unfolding on_pong
  on_pong-IsClean forged none now r h c = (c, refl)
  on_pong-IsClean forged (some uuid) now r h c = (
    remove-IsClean forged uuid r c,
    ap (λ z. restarted pings backoff from_str from_slice z now r) (c uuid h),
  )

  forward-IsClean :
      (forged : ℕ → Bool) (o : Option FlashblocksPayloadV1) (is_open : Bool)
      (r : Receiver pings backoff from_str from_slice)
      → IsClean forged r
      → IsClean forged (forward pings backoff from_str from_slice o is_open r).1
        × ((forward pings backoff from_str from_slice o is_open r).1.next_tick ≡ r.next_tick)
  unfolding forward
  forward-IsClean forged none is_open r c = (c, refl)
  forward-IsClean forged (some p) true r c = (c, refl)
  forward-IsClean forged (some p) false r c = (c, refl)

  -- The connection has ended.
  abbrev IsOver :
      Option (ℕ × FlashblocksReceiverError) × Receiver pings backoff from_str from_slice → Type 0
  IsOver x = (e : ℕ × FlashblocksReceiverError) × (x.0 ≡ some e)

  go_on-IsOver :
      (x : Option FlashblocksReceiverError × Receiver pings backoff from_str from_slice) (now : ℕ)
      (rest : Option (ℕ × FlashblocksReceiverError) × Receiver pings backoff from_str from_slice)
      → IsOver rest
      → IsOver (go_on pings backoff from_str from_slice x now rest)
  go_on-IsOver (none, r) now rest h = h
  go_on-IsOver (some e, r) now rest h = ((now, e), refl)

  abbrev pub HasTimer : ℕ → List (ℕ × Event) → Type 0
  HasTimer t es = Any (λ (x : ℕ × Event). (x.1 ≡ timer) × (t ≤ x.0)) es

  handle-IsOver :
      (forged : ℕ → Bool) (es : List (ℕ × Event)) (r : Receiver pings backoff from_str from_slice)
      (t : ℕ)
      → r.next_tick ≡ t
      → IsClean forged r
      → All (KeepsApart forged) es
      → HasTimer t es
      → IsOver (handle pings backoff from_str from_slice es r)
  unfolding handle on_frame
  handle-IsOver forged [] r t e c h l = absurd l
  handle-IsOver forged ((now, ping_tick uuid false) ∷ es) r t e c h l = ((now, ping_failed), refl)
  handle-IsOver forged ((now, ping_tick uuid true) ∷ es) r t e c h (inl l) = absurd cc
  handle-IsOver forged ((now, ping_tick uuid true) ∷ es) r t e c h (inr l) =
      handle-IsOver forged es (record r { ping_cache = pings.insert uuid tt r.ping_cache }) t e
        (insert-IsClean forged uuid r h.0 c) h.1 l
  handle-IsOver forged ((now, timer) ∷ es) r t e c h (inl l) =
      ((now, pong_timeout), ground (arith, l, e))
  handle-IsOver forged ((now, timer) ∷ es) r t e c h (inr l) =
      elim (Bool-cases (leb r.next_tick now)) [
        | inl k ↦ ((now, pong_timeout), rw (k) refl)
        | inr k ↦ rw (k) (handle-IsOver forged es r t e c h.1 l)
      ]
  handle-IsOver forged ((now, read (failure x) is_open) ∷ es) r t e c h l =
      ((now, connection_error), refl)
  handle-IsOver forged ((now, read ended is_open) ∷ es) r t e c h l = ((now, message_missing), refl)
  handle-IsOver forged ((now, read (message f) is_open) ∷ es) r t e c h (inl l) = absurd cc
  handle-IsOver forged ((now, read (message close) is_open) ∷ es) r t e c h (inr l) =
      ((now, connection_closed), refl)
  handle-IsOver forged ((now, read (message (ping bytes)) is_open) ∷ es) r t e c h (inr l) =
      handle-IsOver forged es r t e c h.1 l
  handle-IsOver forged ((now, read (message (binary bytes)) is_open) ∷ es) r t e c h (inr l) =
      handle-IsOver forged es r t e c h.1 l
  handle-IsOver forged ((now, read (message (pong bytes)) is_open) ∷ es) r t e c h (inr l) =
      let (clean, same) = on_pong-IsClean forged (from_slice bytes) now r h.0 c in
      handle-IsOver forged es (on_pong pings backoff from_str from_slice (from_slice bytes) now r) t
        (same ∙ e) clean h.1 l
  handle-IsOver forged ((now, read (message (text s)) is_open) ∷ es) r t e c h (inr l) =
      let r' = record r { messages_received = r.messages_received + 1 } in
      let (clean, same) = forward-IsClean forged (from_str s) is_open r' c in
      go_on-IsOver (forward pings backoff from_str from_slice (from_str s) is_open r') now _ (
        handle-IsOver forged es
          (forward pings backoff from_str from_slice (from_str s) is_open r').1 t (same ∙ e) clean
          h.1 l)

  -- A connection on which no pong answers one of its pings, whatever else is read, is over by the
  -- first look at the timer that comes at the pong timeout after its start or later.
  pub unanswered_ends :
      (forged : ℕ → Bool) (start : ℕ) (es : List (ℕ × Event))
      (r : Receiver pings backoff from_str from_slice)
      → All (KeepsApart forged) es
      → HasTimer (start + r.config.pong_timeout) es
      → (e : ℕ × FlashblocksReceiverError) × ((handle pings backoff from_str from_slice es
            (connected pings backoff from_str from_slice start r)).0
          ≡ some e)
  unanswered_ends forged start es r h l =
      handle-IsOver forged es (connected pings backoff from_str from_slice start r)
        (start + r.config.pong_timeout) refl (λ uuid k. pings.get-empty uuid) h l

  -- A pong counts once: a second one with the same id, whenever it comes, changes nothing.
  pub on_pong_twice :
      (o : Option ℕ) (now later : ℕ) (r : Receiver pings backoff from_str from_slice)
      → (on_pong pings backoff from_str from_slice o later
          (on_pong pings backoff from_str from_slice o now r)).next_tick
        ≡ (on_pong pings backoff from_str from_slice o now r).next_tick
  unfolding on_pong
  on_pong_twice none now later r = refl
  on_pong_twice (some uuid) now later r =
      ap
        (λ z.
          restarted pings backoff from_str from_slice z later
            (on_pong pings backoff from_str from_slice (some uuid) now r))
        (get-remove_same uuid r.ping_cache)
