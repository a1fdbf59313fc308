-- ===== src/FlashblocksRpc/Overlay/Backoff.antt =====
-- How long the overlay waits (crates/flashblocks-rpc/src/flashblocks.rs).
use rollup_boost.Prelude.{ℕ, ◌*◌, ◌≤◌, List, [], ◌∷◌, Option, min, ◌≡◌, refl, arith, All}
use rollup_boost.Flashblocks.{FlashblocksPayloadV1}
use rollup_boost.FlashblocksRpc.Overlay.{Connection, refused, established, receive_all, max_backoff}

module _ (from_utf8 : List ℕ → Option (List ℕ)) (decompress : List ℕ → Option (List ℕ))
    (from_str : List ℕ → Option FlashblocksPayloadV1) where
  receive_all_slept :
      (cs : List Connection) (backoff : ℕ)
      → 1 ≤ backoff
      → backoff ≤ max_backoff
      → All
          (λ s. (1 ≤ s) × (s ≤ max_backoff))
          (receive_all from_utf8 decompress from_str cs backoff).1
  unfolding receive_all
  receive_all_slept [] backoff h k = tt
  receive_all_slept (refused ∷ cs) backoff h k = (
    (h, k),
    receive_all_slept cs (min (backoff * 2) max_backoff) (omega (arith, h)) (omega arith),
  )
  receive_all_slept (established fs ∷ cs) backoff h k = receive_all_slept cs backoff h k

  -- The overlay waits at least one second and at most ten.
  pub receive_all_waits :
      (cs : List Connection)
      → All (λ s. (1 ≤ s) × (s ≤ max_backoff)) (receive_all from_utf8 decompress from_str cs 1).1
  receive_all_waits cs = receive_all_slept cs 1 (omega arith) (omega arith)

  receive_all_stays :
      (cs : List Connection)
      → All (λ s. s ≡ max_backoff) (receive_all from_utf8 decompress from_str cs max_backoff).1
  unfolding receive_all
  receive_all_stays [] = tt
  receive_all_stays (refused ∷ cs) = (refl, receive_all_stays cs)
  receive_all_stays (established fs ∷ cs) = receive_all_stays cs

  -- After four refused connections the overlay waits ten seconds after every further one that is
  -- refused, whatever connections are established in between: no success brings the wait down again.
  pub wait_never_resets :
      (cs : List Connection)
      → let slept =
          (receive_all from_utf8 decompress from_str
            (refused ∷ refused ∷ refused ∷ refused ∷ cs)
            1).1 in
        (later : List ℕ) × (slept ≡ 1 ∷ 2 ∷ 4 ∷ 8 ∷ later) × All (λ s. s ≡ max_backoff) later
  unfolding receive_all
  wait_never_resets cs =
      ((receive_all from_utf8 decompress from_str cs max_backoff).1, refl, receive_all_stays cs)
