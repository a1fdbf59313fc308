-- ===== src/FlashblocksRpc/Cache/Nonces.antt =====
-- The nonces that the cache counts (crates/flashblocks-rpc/src/cache.rs).
use rollup_boost.Prelude.{
  ℕ, ◌+◌, ◌<◌, Bool, false, List, [], ◌∷◌, Option, none, some, ◌≡◌, refl, ◌⊎◌, inl, ap, ◌∙◌, sym,
  subst, arith, ◌==◌, nat_eq, nat_beq_iff, if◌then◌else◌,
}
use rollup_boost.Prelude.Keys.{get, insert, remove, get-insert, get-remove}
use rollup_boost.Prelude.Attempt.{done}
use rollup_boost.Engine.{Address}
use rollup_boost.Flashblocks.{FlashblocksPayloadV1}
use rollup_boost.FlashblocksRpc.Cache.{
  Chain, FlashblocksCacheInner, started, process_inner, count_nonces, count_signer, store_nonces,
  get_nonce, or_zero,
}
use rollup_boost.FlashblocksRpc.Cache.Taken.{process_inner_done, applied_fields}

abbrev pub is_from : Address → Option Address → Bool
is_from a none = false
is_from a (some b) = b == a

-- No address stands twice.
abbrev IsDistinct : List (Address × ℕ) → Type 0
IsDistinct [] = Unit {0}
IsDistinct ((a, n) ∷ m) = (get a m ≡ none) × IsDistinct m

remove-IsDistinct : (a : Address) (m : List (Address × ℕ)) → IsDistinct m → IsDistinct (remove a m)
unfolding remove
remove-IsDistinct a [] h = tt
remove-IsDistinct a ((b, n) ∷ m) h =
    ground (arith, remove-IsDistinct a m h.1, get-remove a b m, h.0)

insert-IsDistinct :
    (a : Address) (n : ℕ) (m : List (Address × ℕ)) → IsDistinct m → IsDistinct (insert a n m)
unfolding insert
insert-IsDistinct a n m h = (get-remove a a m ∙ ground arith, remove-IsDistinct a m h)

abbrev or_else : Option ℕ → Option ℕ → Option ℕ
or_else none o = o
or_else (some n) o = some n

-- An address has no entry, or one that is its count.
abbrev Counts : List (Address × ℕ) → Address → ℕ → Type 0
Counts m a n = ((n ≡ 0) × (get a m ≡ none)) ⊎ ((0 < n) × (get a m ≡ some n))

module _ (chain : Chain) where
  -- How many of the transactions an address has signed.
  abbrev pub signed_by : Address → List chain.Tx → ℕ
  signed_by a [] = 0
  signed_by a (tx ∷ txs) = (if is_from a (chain.recover_signer tx) then 1 else 0) + signed_by a txs

  signer-IsDistinct :
      (o : Option Address) (m : List (Address × ℕ))
      → IsDistinct m
      → IsDistinct (count_signer chain o m)
  signer-IsDistinct none m h = h
  signer-IsDistinct (some b) m h = insert-IsDistinct b _ m h

  count-IsDistinct :
      (txs : List chain.Tx) (m : List (Address × ℕ))
      → IsDistinct m
      → IsDistinct (count_nonces chain txs m)
  unfolding count_nonces
  count-IsDistinct [] m h = h
  count-IsDistinct (tx ∷ txs) m h =
      count-IsDistinct txs (count_signer chain (chain.recover_signer tx) m)
        (signer-IsDistinct (chain.recover_signer tx) m h)

  signer-Counts :
      (a : Address) (o : Option Address) (m : List (Address × ℕ)) (n : ℕ)
      → Counts m a n
      → Counts (count_signer chain o m) a ((if is_from a o then 1 else 0) + n)
  signer-Counts a none m n h = ground (arith, h)
  signer-Counts a (some b) m n h =
      ground (arith, get-insert b a (or_zero chain (get b m) + 1) m, nat_beq_iff b a)

  count-Counts :
      (a : Address) (txs : List chain.Tx) (m : List (Address × ℕ)) (n k : ℕ)
      → Counts m a n
      → signed_by a txs + n ≡ k
      → Counts (count_nonces chain txs m) a k
  unfolding count_nonces
  count-Counts a [] m n k h e = ground (arith, h, e)
  count-Counts a (tx ∷ txs) m n k h e =
      count-Counts a txs (count_signer chain (chain.recover_signer tx) m) _ k
        (signer-Counts a (chain.recover_signer tx) m n h) (omega (arith, e))

  get-store_nonces :
      (a : Address) (ns cache : List (Address × ℕ))
      → IsDistinct ns
      → get a (store_nonces chain ns cache) ≡ or_else (get a ns) (get a cache)
  unfolding store_nonces get
  get-store_nonces a [] cache h = refl
  get-store_nonces a ((b, n) ∷ ns) cache h = ground (
    arith,
    get-store_nonces a ns (insert b n cache) h.1,
    get-insert b a n cache,
    h.0,
    nat_beq_iff b a,
  )

  counted :
      (a : Address) (txs : List chain.Tx) (cache : List (Address × ℕ))
      → 0 < signed_by a txs
      → get a (store_nonces chain (count_nonces chain txs []) cache) ≡ some (signed_by a txs)
  counted a txs cache s = ground (
    arith,
    get-store_nonces a (count_nonces chain txs []) cache (count-IsDistinct txs [] tt),
    count-Counts a txs [] 0 (signed_by a txs) (inl (refl, none_yet a)) (omega arith),
  )
    where
      none_yet : (a : Address) → get {V = ℕ} a [] ≡ none
      none_yet a = unfold get in refl

  -- After a flashblock that was taken, the nonce of an address that has signed transactions of the
  -- pending block is the number of those, whatever was cached before.
  pub nonce_counts :
      (p : FlashblocksPayloadV1) (c d : FlashblocksCacheInner chain) (b : chain.Block) (a : Address)
      → process_inner chain p c ≡ done d
      → d.block ≡ some b
      → 0 < signed_by a (chain.transactions b)
      → get_nonce chain a d ≡ some (signed_by a (chain.transactions b))
  unfolding get_nonce
  nonce_counts p c d b a h k s =
      let t = process_inner_done chain p c d h in
      let (rs, same, shown, nonces, receipts) =
        applied_fields chain t.metadata t.b (record (started chain p c) { builder = t.builder }) d
          t.applied in
      let e : t.b ≡ b = (let f : some t.b ≡ some b = (sym shown ∙ k) in cc) in
      ap (get a) nonces
      ∙ subst
          (λ z.
            get a (
              store_nonces chain (count_nonces chain (chain.transactions z) [])
                (started chain p c).nonce_cache)
            ≡ some (signed_by a (chain.transactions b)))
          (sym e) (counted a (chain.transactions b) (started chain p c).nonce_cache s)
