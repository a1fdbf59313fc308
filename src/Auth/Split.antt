-- ===== src/Auth/Split.antt =====
-- Splitting an argument at colons (crates/websocket-proxy/src/auth.rs).
use rollup_boost.Prelude.{ℕ, ◌≡◌, ◌≢◌, refl, [], ◌∷◌, ◌++◌, All, arith, nat_eq}
use rollup_boost.Auth.{Text, split}

-- A text without the separator is the first piece of what it begins.
pub split_piece :
    (sep : ℕ) (s t : Text) → All (λ c. c ≢ sep) s → split sep (s ++ (sep ∷ t)) ≡ s ∷ split sep t
unfolding split
split_piece sep [] t h = ground arith
split_piece sep (c ∷ cs) t h = ground (arith, split_piece sep cs t h.1, h.0)

pub split_last : (sep : ℕ) (s : Text) → All (λ c. c ≢ sep) s → split sep s ≡ s ∷ []
unfolding split
split_last sep [] h = refl
split_last sep (c ∷ cs) h = ground (arith, split_last sep cs h.1, h.0)
