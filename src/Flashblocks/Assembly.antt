-- ===== src/Flashblocks/Assembly.antt =====
-- What a sequence of flashblocks builds (crates/rollup-boost/src/flashblocks/service.rs).
use rollup_boost.Prelude.{
  ℕ, suc, List, [], ◌∷◌, ◌++◌, none, some, ◌≡◌, refl, ap, inl, inr, nat_eq, length, length-append,
  append-nil, append_assoc, Result, Result-cases, ok, err, arith, map,
}
use rollup_boost.Flashblocks.{
  ExecutionPayloadFlashblockDeltaV1, ExecutionPayloadBaseV1, FlashblocksPayloadV1, FlashblocksError,
  FlashblockBuilder, new, extend,
}

-- The later flashblocks of a block: indices from `n` on, and no base.
abbrev pub Follows : ℕ → List FlashblocksPayloadV1 → Type 0
Follows n [] = Unit {0}
Follows n (p ∷ ps) = (p.index ≡ n) × (p.base ≡ none) × Follows (suc n) ps

-- The flashblocks of one block from its first on: indices from 0, the base with the first alone.
abbrev pub IsStream : ExecutionPayloadBaseV1 → List FlashblocksPayloadV1 → Type 0
IsStream x [] = ⊥
IsStream x (p ∷ ps) = (p.index ≡ 0) × (p.base ≡ some x) × Follows 1 ps

abbrev pub diffs : List FlashblocksPayloadV1 → List ExecutionPayloadFlashblockDeltaV1
diffs = map λ p. p.diff

-- Every flashblock of a list must be accepted.
abbrev then_extend :
    (FlashblockBuilder → Result FlashblocksError FlashblockBuilder)
    → Result FlashblocksError FlashblockBuilder
    → Result FlashblocksError FlashblockBuilder
then_extend f (ok b) = f b
then_extend f (err e) = err e

unfoldable pub extend_all :
    List FlashblocksPayloadV1 → FlashblockBuilder → Result FlashblocksError FlashblockBuilder
extend_all [] b = ok b
extend_all (p ∷ ps) b = then_extend (extend_all ps) (extend p b)

pub extend_first :
    (p : FlashblocksPayloadV1) (x : ExecutionPayloadBaseV1)
    → p.index ≡ 0
    → p.base ≡ some x
    → extend p new ≡ ok (record { base = some x; flashblocks = p.diff ∷ [] })
unfolding extend new
extend_first p x h k = ground arith

extend_first_ok :
    (p : FlashblocksPayloadV1) (b : FlashblockBuilder)
    → extend p new ≡ ok b
    → (x : ExecutionPayloadBaseV1) × (p.index ≡ 0)
      × (p.base ≡ some x)
      × (b ≡ record { base = some x; flashblocks = p.diff ∷ [] })
unfolding extend new
extend_first_ok p b h = ground arith

extend_next :
    (p : FlashblocksPayloadV1) (b : FlashblockBuilder) (n : ℕ)
    → length b.flashblocks ≡ suc n
    → p.index ≡ suc n
    → p.base ≡ none
    → extend p b ≡ ok (record b { flashblocks = b.flashblocks ++ (p.diff ∷ []) })
unfolding extend
extend_next p b n l h k = ground arith

extend_next_ok :
    (p : FlashblocksPayloadV1) (b c : FlashblockBuilder) (n : ℕ)
    → length b.flashblocks ≡ suc n
    → extend p b ≡ ok c
    → (p.index ≡ suc n)
      × (p.base ≡ none)
      × (c ≡ record b { flashblocks = b.flashblocks ++ (p.diff ∷ []) })
unfolding extend
extend_next_ok p b c n l h = ground arith

extend_all_next :
    (ps : List FlashblocksPayloadV1) (b : FlashblockBuilder) (n : ℕ)
    → length b.flashblocks ≡ suc n
    → Follows (suc n) ps
    → extend_all ps b ≡ ok (record b { flashblocks = b.flashblocks ++ diffs ps })
unfolding extend_all
extend_all_next [] b n l f = rw append-nil
extend_all_next (p ∷ ps) b n l f = rw (extend_next p b n l f.0 f.1) (
    rw
      (extend_all_next ps (record b { flashblocks = b.flashblocks ++ (p.diff ∷ []) }) (suc n)
        (omega (arith, length-append b.flashblocks (p.diff ∷ []))) f.2)
      (rw (append_assoc b.flashblocks (p.diff ∷ []) (diffs ps))))

extend_all-Follows :
    (ps : List FlashblocksPayloadV1) (b c : FlashblockBuilder) (n : ℕ)
    → length b.flashblocks ≡ suc n
    → extend_all ps b ≡ ok c
    → Follows (suc n) ps
unfolding extend_all
extend_all-Follows [] b c n l h = tt
extend_all-Follows (p ∷ ps) b c n l h = elim (Result-cases (extend p b)) [
  | inl (d, e) ↦
      let (i, x, s) = extend_next_ok p b d n l e in
      (
        i,
        x,
        extend_all-Follows ps d c (suc n)
            (omega (
              arith,
              ap (λ (t : FlashblockBuilder). length t.flashblocks) s,
              length-append b.flashblocks (p.diff ∷ []),
            ))
            (rw e at h),
      )
  | inr (x, e) ↦ absurd (let bad : err x ≡ ok c = (rw e at h) in cc)
]

-- A builder accepts the flashblocks of one block in order, and then holds the block's base and all
-- deltas in order.
pub extend_all_accepts :
    (x : ExecutionPayloadBaseV1) (ps : List FlashblocksPayloadV1)
    → IsStream x ps
    → extend_all ps new ≡ ok (record { base = some x; flashblocks = diffs ps })
unfolding extend_all
extend_all_accepts x [] s = absurd s
extend_all_accepts x (p ∷ ps) s =
    rw (extend_first p x s.0 s.1)
      (extend_all_next ps (record { base = some x; flashblocks = p.diff ∷ [] }) 0 refl s.2)

-- If a fresh builder accepts every flashblock of a list that is not empty, then the list is the
-- stream of one block: indices 0, 1, 2, … without gap or repetition, and a base with the first
-- flashblock alone.
pub extend_all_only :
    (p : FlashblocksPayloadV1) (ps : List FlashblocksPayloadV1) (b : FlashblockBuilder)
    → extend_all (p ∷ ps) new ≡ ok b
    → (x : ExecutionPayloadBaseV1) × IsStream x (p ∷ ps)
unfolding extend_all
extend_all_only p ps b h = elim (Result-cases (extend p new)) [
  | inl (d, e) ↦
      let (x, i, k, s) = extend_first_ok p d e in
      (
        x,
        (
          i,
          k,
          extend_all-Follows ps d b 0 (ap (λ (t : FlashblockBuilder). length t.flashblocks) s)
              (rw e at h),
        ),
      )
  | inr (x, e) ↦ absurd (let bad : err x ≡ ok b = (rw e at h) in cc)
]

-- Extending by a list and then by one more flashblock.
pub extend_all_snoc :
    (ps : List FlashblocksPayloadV1) (p : FlashblocksPayloadV1) (a b c : FlashblockBuilder)
    → extend_all ps a ≡ ok b
    → extend p b ≡ ok c
    → extend_all (ps ++ (p ∷ [])) a ≡ ok c
unfolding extend_all
extend_all_snoc [] p a b c h k = ground arith
extend_all_snoc (q ∷ qs) p a b c h k = elim (Result-cases (extend q a)) [
  | inl (d, e) ↦ rw e (extend_all_snoc qs p d b c (rw e at h) k)
  | inr (x, e) ↦ absurd (let bad : err x ≡ ok b = (rw e at h) in cc)
]
