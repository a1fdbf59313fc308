-- ===== src/WsProxy/Relay/Merge.antt =====
-- Lists merged in any order, as tasks that send to one channel merge what they send.
use rollup_boost.Prelude.{List, [], ◌∷◌, ◌++◌, map, ◌≡◌, refl, ap, ◌∙◌, sym, subst}

pub data Interleaves {A : Type 0} : List A → List A → List A → Type 0 where
  nothing : Interleaves [] [] []
  left : {x : A} {xs ys zs : List A} → Interleaves xs ys zs → Interleaves (x ∷ xs) ys (x ∷ zs)
  right : {y : A} {xs ys zs : List A} → Interleaves xs ys zs → Interleaves xs (y ∷ ys) (y ∷ zs)

-- The last list holds the elements of the first ones, those of each in their order.
abbrev pub Merges : {A : Type 0} → List (List A) → List A → Type 0
Merges [] zs = zs ≡ []
Merges {A} (xs ∷ xss) zs = (rest : List A) × Interleaves xs rest zs × Merges xss rest

abbrev pub IsPrefix : {A : Type 0} → List A → List A → Type 0
IsPrefix {A} xs all = (later : List A) × (xs ++ later ≡ all)

abbrev pub ArePrefixes : {A : Type 0} → List (List A) → List (List A) → Type 0
ArePrefixes [] [] = Unit {0}
ArePrefixes [] (xs ∷ xss) = ⊥
ArePrefixes (xs ∷ xss) [] = ⊥
ArePrefixes (xs ∷ xss) (ys ∷ yss) = IsPrefix xs ys × ArePrefixes xss yss

module _ {A : Type 0} where
  cons-IsPrefix : (x : A) (xs ys : List A) → IsPrefix xs ys → IsPrefix (x ∷ xs) (x ∷ ys)
  cons-IsPrefix x xs ys (later, e) = (later, ap (λ t. x ∷ t) e)

  interleaved_prefix :
      (zs : List A) {xs ys all : List A}
      → Interleaves xs ys all
      → IsPrefix zs all
      → (as_ : List A) × (bs : List A) × IsPrefix as_ xs × IsPrefix bs ys × Interleaves as_ bs zs
  interleaved_prefix [] {xs} {ys} i h = ([], [], (xs, refl), (ys, refl), nothing)
  interleaved_prefix (z ∷ zs) nothing (later, e) = absurd cc
  interleaved_prefix (z ∷ zs) (left {x = x} {xs = xs} {zs = all} i) (later, e) =
      let same : x ≡ z = cc in
      let tail : zs ++ later ≡ all = cc in
      let (as_, bs, p, q, j) = interleaved_prefix zs i (later, tail) in
      (
        x ∷ as_,
        bs,
        cons-IsPrefix x as_ xs p,
        q,
        subst (λ t. Interleaves (x ∷ as_) bs (t ∷ zs)) same (left j),
      )
  interleaved_prefix (z ∷ zs) (right {y = y} {ys = ys} {zs = all} i) (later, e) =
      let same : y ≡ z = cc in
      let tail : zs ++ later ≡ all = cc in
      let (as_, bs, p, q, j) = interleaved_prefix zs i (later, tail) in
      (
        as_,
        y ∷ bs,
        p,
        cons-IsPrefix y bs ys q,
        subst (λ t. Interleaves as_ (y ∷ bs) (t ∷ zs)) same (right j),
      )

  nil_prefix : (xs : List A) → IsPrefix xs [] → xs ≡ []
  nil_prefix [] p = refl
  nil_prefix (x ∷ xs) (later, e) = absurd cc

  -- A prefix of a merge merges prefixes.
  pub merged_prefix :
      (xss : List (List A)) (zs all : List A)
      → IsPrefix zs all
      → Merges xss all
      → (ass : List (List A)) × ArePrefixes ass xss × Merges ass zs
  merged_prefix [] zs all (ws, e) m = ([], tt, nil_prefix zs (ws, e ∙ m))
  merged_prefix (xs ∷ xss) zs all h (rest, i, m) =
      let (as_, bs, p, q, j) = interleaved_prefix zs i h in
      let (ass, ps, n) = merged_prefix xss bs rest q m in (as_ ∷ ass, (p, ps), (bs, j, n))

  pub map-prefix :
      {B : Type 0} (f : A → B) (xs : List A) (ys : List B)
      → IsPrefix ys (map f xs)
      → (as_ : List A) × IsPrefix as_ xs × (map f as_ ≡ ys)
  map-prefix f xs [] p = ([], (xs, refl), refl)
  map-prefix f [] (y ∷ ys) (later, e) = absurd cc
  map-prefix f (x ∷ xs) (y ∷ ys) (later, e) =
      let head : y ≡ f x = cc in
      let tail : ys ++ later ≡ map f xs = cc in
      let (as_, p, k) = map-prefix f xs ys (later, tail) in
      (x ∷ as_, cons-IsPrefix x as_ xs p, ap (λ t. f x ∷ t) k ∙ ap (λ h. h ∷ ys) (sym head))
