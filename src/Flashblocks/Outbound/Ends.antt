-- ===== src/Flashblocks/Outbound/Ends.antt =====
-- How the publisher's tasks end (crates/rollup-boost/src/flashblocks/outbound.rs).
use rollup_boost.Prelude.{
  true, false, List, [], ◌∷◌, ◌++◌, ◌≡◌, refl, ◌∙◌, inl, inr, arith, All, Any,
}
use rollup_boost.Sockets.{message, failure, ended, next, closed, lagged}
use rollup_boost.Flashblocks.Outbound.{
  Event, term_changed, inbound, payload, Subscription, subscribed, count_sent, broadcast_loop,
  ListenerEvent, listener_term_changed, handshake_failed, accepted, Publisher, new_publisher,
  attend, listener_loop,
}

-- A task is told that the publisher is gone.
abbrev pub IsTold : List Event → Type 0
IsTold es = Any (λ e. e ≡ term_changed true) es

told_ends : (es : List Event) (s : Subscription) → IsTold es → (broadcast_loop es s).is_over ≡ true
unfolding broadcast_loop
told_ends [] s h = absurd h
told_ends (term_changed true ∷ es) s h = refl
told_ends (term_changed false ∷ es) s (inl h) = absurd cc
told_ends (term_changed false ∷ es) s (inr h) = told_ends es s h
told_ends (inbound f ∷ es) s (inl h) = absurd cc
told_ends (inbound (message m) ∷ es) s (inr h) = told_ends es s h
told_ends (inbound (failure e) ∷ es) s (inr h) = refl
told_ends (inbound ended ∷ es) s (inr h) = refl
told_ends (payload r b ∷ es) s (inl h) = absurd cc
told_ends (payload (next p) true ∷ es) s (inr h) =
    told_ends es (record (count_sent s) { received = s.received ++ (p ∷ []) }) h
told_ends (payload (next p) false ∷ es) s (inr h) = refl
told_ends (payload closed b ∷ es) s (inr h) = refl
told_ends (payload lagged b ∷ es) s (inr h) = told_ends es s h

-- Every task that the listener has started is told.
abbrev pub TellsAll : ListenerEvent → Type 0
TellsAll (accepted session) = IsTold session
TellsAll (listener_term_changed b) = Unit {0}
TellsAll handshake_failed = Unit {0}

attend_over : (s : Subscription) (p : Publisher) → s.is_over ≡ true → (attend s p).subs ≡ p.subs
attend_over s p h = ground (arith, h)

loop_subs :
    (es : List ListenerEvent) (p : Publisher) → All TellsAll es → (listener_loop es p).subs ≡ p.subs
unfolding listener_loop
loop_subs [] p h = refl
loop_subs (listener_term_changed true ∷ es) p h = refl
loop_subs (listener_term_changed false ∷ es) p h = loop_subs es p h.1
loop_subs (handshake_failed ∷ es) p h = loop_subs es p h.1
loop_subs (accepted session ∷ es) p h =
    loop_subs es (attend (broadcast_loop session subscribed) p) h.1
    ∙ attend_over (broadcast_loop session subscribed) p (told_ends session subscribed h.0)

loop_over :
    (es : List ListenerEvent) (p : Publisher)
    → Any (λ e. e ≡ listener_term_changed true) es
    → (listener_loop es p).is_over ≡ true
unfolding listener_loop
loop_over [] p h = absurd h
loop_over (listener_term_changed true ∷ es) p h = refl
loop_over (listener_term_changed false ∷ es) p (inl h) = absurd cc
loop_over (listener_term_changed false ∷ es) p (inr h) = loop_over es p h
loop_over (handshake_failed ∷ es) p (inl h) = absurd cc
loop_over (handshake_failed ∷ es) p (inr h) = loop_over es p h
loop_over (accepted session ∷ es) p (inl h) = absurd cc
loop_over (accepted session ∷ es) p (inr h) =
    loop_over es (attend (broadcast_loop session subscribed) p) h

-- Once the publisher is dropped and its listener and the tasks of all clients have been told,
-- wherever among their events, the listener has ended and no subscription is left.
pub dropped_publisher_ends :
    (es : List ListenerEvent)
    → Any (λ e. e ≡ listener_term_changed true) es
    → All (λ e. TellsAll e) es
    → ((listener_loop es new_publisher).is_over ≡ true)
      × ((listener_loop es new_publisher).subs ≡ 0)
dropped_publisher_ends es h k = (loop_over es new_publisher h, loop_subs es new_publisher k)
