-- ===== src/Flashblocks/Outbound/Order.antt =====
-- What a client is sent (crates/rollup-boost/src/flashblocks/outbound.rs).
use rollup_boost.Prelude.{
  ℕ, Bool, true, false, List, [], ◌∷◌, ◌++◌, append_assoc, append-nil, ◌≡◌, sym, ◌∙◌, subst,
}
use rollup_boost.Sockets.{Frame, message, failure, ended, next, closed, lagged}
use rollup_boost.Flashblocks.Outbound.{
  Event, term_changed, inbound, payload, Subscription, subscribed, count_sent, broadcast_loop,
}

-- The results that a receiver gets while the channel carries `ms`: the messages in order, of which
-- some are dropped where it has fallen behind.
pub data Feed : List (List ℕ) → List Event → Type 0 where
  nothing : {ms : List (List ℕ)} → Feed ms []
  some_payload :
      {m : List ℕ} {b : Bool} {ms : List (List ℕ)} {es : List Event}
      → Feed ms es
      → Feed (m ∷ ms) (payload (next m) b ∷ es)
  fallen_behind :
      {m : List ℕ} {b : Bool} {ms : List (List ℕ)} {es : List Event}
      → Feed ms (payload lagged b ∷ es)
      → Feed (m ∷ ms) (payload lagged b ∷ es)
  caught_up :
      {b : Bool} {ms : List (List ℕ)} {es : List Event}
      → Feed ms es
      → Feed ms (payload lagged b ∷ es)
  channel_closed :
      {b : Bool} {ms : List (List ℕ)} {es : List Event} → Feed ms (payload closed b ∷ es)
  flag_changed :
      {b : Bool} {ms : List (List ℕ)} {es : List Event} → Feed ms es → Feed ms (term_changed b ∷ es)
  frame_read :
      {f : Frame (Unit {0})} {ms : List (List ℕ)} {es : List Event}
      → Feed ms es
      → Feed ms (inbound f ∷ es)

-- One list is the other with some elements left out.
pub data IsSubsequence {A : Type 0} : List A → List A → Type 0 where
  none_left : {ys : List A} → IsSubsequence [] ys
  taken : {x : A} {xs ys : List A} → IsSubsequence xs ys → IsSubsequence (x ∷ xs) (x ∷ ys)
  left_out : {y : A} {xs ys : List A} → IsSubsequence xs ys → IsSubsequence xs (y ∷ ys)

abbrev IsSentFrom : List (List ℕ) → List (List ℕ) → Subscription → Type 0
IsSentFrom before ms s = (now : List (List ℕ)) × (s.received ≡ before ++ now) × IsSubsequence now ms

stop-IsSentFrom : (ms : List (List ℕ)) (s : Subscription) → IsSentFrom s.received ms s
stop-IsSentFrom ms s = ([], sym (append-nil s.received), none_left)

loop-IsSentFrom :
    (ms : List (List ℕ)) (es : List Event) (s : Subscription)
    → Feed ms es
    → IsSentFrom s.received ms (broadcast_loop es s)
unfolding broadcast_loop
loop-IsSentFrom ms [] s f = stop-IsSentFrom ms s
loop-IsSentFrom ms (term_changed true ∷ es) s f = stop-IsSentFrom ms s
loop-IsSentFrom ms (term_changed false ∷ es) s (flag_changed f) = loop-IsSentFrom ms es s f
loop-IsSentFrom ms (inbound (message m) ∷ es) s (frame_read f) = loop-IsSentFrom ms es s f
loop-IsSentFrom ms (inbound (failure e) ∷ es) s f = stop-IsSentFrom ms s
loop-IsSentFrom ms (inbound ended ∷ es) s f = stop-IsSentFrom ms s
loop-IsSentFrom ms (payload closed b ∷ es) s f = stop-IsSentFrom ms s
loop-IsSentFrom ms (payload (next p) false ∷ es) s f = stop-IsSentFrom ms s
loop-IsSentFrom ms (payload (next p) true ∷ es) s (some_payload {ms = rest} f) =
    let (now, e, k) =
      loop-IsSentFrom rest es (record (count_sent s) { received = s.received ++ (p ∷ []) }) f in
    (p ∷ now, e ∙ append_assoc s.received (p ∷ []) now, taken k)
loop-IsSentFrom ms (payload lagged b ∷ es) s (caught_up f) = loop-IsSentFrom ms es s f
loop-IsSentFrom ms (payload lagged b ∷ es) s (fallen_behind {ms = rest} f) =
    let (now, e, k) = loop-IsSentFrom rest (payload lagged b ∷ es) s f in (now, e, left_out k)

-- However the events of a client fall, what it is sent are messages of the channel in their order,
-- none of them twice: some may be left out, where it has fallen behind and after its end.
pub received-IsSubsequence :
    (ms : List (List ℕ)) (es : List Event)
    → Feed ms es
    → IsSubsequence (broadcast_loop es subscribed).received ms
received-IsSubsequence ms es f =
    let (now, e, k) = loop-IsSentFrom ms es subscribed f in
    subst (λ z. IsSubsequence z ms) (sym e) k
