-- ===== src/RateLimit/Counters.antt =====
-- The maps of active connections in crates/websocket-proxy/src/rate_limit.rs, an absent key
-- standing for 0.
use rollup_boost.Prelude.{
  ℕ, zero, suc, ◌+◌, ◌-◌, List, [], Option, none, some, ◌≡◌, refl, if◌then◌else◌, Eq, ◌==◌, arith,
}
use rollup_boost.Prelude.Keys.{get, insert, remove, get-insert, get-remove}

abbrev pub Counter : Type 0 → Type 0
Counter K = List (K × ℕ)

abbrev pub or_zero : Option ℕ → ℕ
or_zero none = 0
or_zero (some n) = n

module _ {K : Type 0} ⦃e : Eq K⦄ where
  -- `*map.get(&key).unwrap_or(&0)`.
  unfoldable pub count : K → Counter K → ℕ
  count k m = or_zero (get k m)

  -- The increment of `try_acquire`.
  unfoldable pub bump : K → Counter K → Counter K
  bump k m = insert k (count k m + 1) m

  -- The `match current_count` of `release`: 0 and 1 remove the key.
  unfoldable pub drop_from : K → ℕ → Counter K → Counter K
  drop_from k zero m = remove k m
  drop_from k (suc zero) m = remove k m
  drop_from k (suc (suc n)) m = insert k (suc (suc n) - 1) m

  unfoldable pub drop_one : K → Counter K → Counter K
  unfolding drop_from
  drop_one k m = drop_from k (count k m) m

  pub count-empty : (k : K) → count k [] ≡ 0
  unfolding count get
  count-empty k = refl

  pub count-bump :
      (k j : K) (m : Counter K) → count j (bump k m) ≡ (if k == j then count k m + 1 else count j m)
  unfolding count bump
  count-bump k j m = ground (arith, get-insert k j (or_zero (get k m) + 1) m)

  count-drop_from :
      (k j : K) (n : ℕ) (m : Counter K)
      → count j (drop_from k n m) ≡ (if k == j then n - 1 else count j m)
  unfolding count drop_from
  count-drop_from k j zero m = ground (arith, get-remove k j m)
  count-drop_from k j (suc zero) m = ground (arith, get-remove k j m)
  count-drop_from k j (suc (suc n)) m = ground (arith, get-insert k j (suc (suc n) - 1) m)

  pub count-drop_one :
      (k j : K) (m : Counter K)
      → count j (drop_one k m) ≡ (if k == j then count k m - 1 else count j m)
  unfolding drop_one
  count-drop_one k j m = count-drop_from k j (count k m) m
