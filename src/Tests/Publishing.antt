-- ===== src/Tests/Publishing.antt =====
-- The theorems on what is published, and on labels.
use rollup_boost.Prelude.{◌≡◌, refl, inl, inr, List, [], ◌∷◌, true, arith}
use rollup_boost.Sockets.{next}
use rollup_boost.Flashblocks.Outbound.{
  ListenerEvent, listener_term_changed, accepted, payload, term_changed, new_publisher,
  listener_loop,
}
use rollup_boost.Flashblocks.Outbound.Ends.{dropped_publisher_ends}
use rollup_boost.WsProxy.Labels.{parse_global_metrics, print_labels, parse_global_metrics-print}

-- A client that is sent something, and then the publisher is dropped.
abbrev history : List ListenerEvent
history =
    accepted (payload (next (1 ∷ [])) true ∷ term_changed true ∷ [])
    ∷ listener_term_changed true
    ∷ []

dropped_publisher_ends_example :
    ((listener_loop history new_publisher).is_over ≡ true)
    × ((listener_loop history new_publisher).subs ≡ 0)
dropped_publisher_ends_example =
    dropped_publisher_ends history (inr (inl refl)) (inr (inl refl), (tt, tt))

-- The labels `a=b` and `c=d=`.
parse_global_metrics-print_example :
    parse_global_metrics (print_labels (((97 ∷ []), (98 ∷ [])) ∷ ((99 ∷ []), (100 ∷ 61 ∷ [])) ∷ []))
    ≡ ((97 ∷ []), (98 ∷ [])) ∷ ((99 ∷ []), (100 ∷ 61 ∷ [])) ∷ []
parse_global_metrics-print_example =
    parse_global_metrics-print ((97 ∷ []), (98 ∷ [])) (((99 ∷ []), (100 ∷ 61 ∷ [])) ∷ [])
      ((λ h. absurd cc), (λ h. absurd cc), ground arith, ground arith, ground arith)
      (((λ h. absurd cc), (λ h. absurd cc), ground arith, ground arith, ground arith), tt)
