-- ===== src/Proxy/Routing.antt =====
-- Who sees a request (crates/rollup-boost/src/proxy.rs).
use rollup_boost.Prelude.{
  Bool, true, false, ◌≡◌, ◌↔◌, inl, inr, refl, List, [], ◌∷◌, ◌++◌, Any, Result, ok, arith,
  if◌then◌else◌, Bool-cases,
}
use rollup_boost.Auth.{Text, text_eq, same_text_iff}
use rollup_boost.Proxy.{
  engine_method, forward_requests, starts_with, contains, Target, inner, builder, l2, Services,
  call,
}

contains_iff : (t : Text) (us : List Text) → (contains t us ≡ true) ↔ Any (λ u. t ≡ u) us
unfolding contains
contains_iff t [] = (λ h. absurd cc, λ h. absurd h)
contains_iff t (u ∷ us) = (
  λ h. ground (arith, contains_iff t us, same_text_iff t u),
  λ h. ground (arith, contains_iff t us, same_text_iff t u),
)

-- None of the forwarded methods is an Engine API method.
forwarded_outside :
    (t : Text) → Any (λ u. t ≡ u) forward_requests → starts_with engine_method t ≡ false
unfolding starts_with
forwarded_outside t (inl e) = rw e refl
forwarded_outside t (inr (inl e)) = rw e refl
forwarded_outside t (inr (inr (inl e))) = rw e refl
forwarded_outside t (inr (inr (inr (inl e)))) = rw e refl
forwarded_outside t (inr (inr (inr (inr (inl e))))) = rw e refl
forwarded_outside t (inr (inr (inr (inr (inr (inl e)))))) = rw e refl
forwarded_outside t (inr (inr (inr (inr (inr (inr h)))))) = absurd h

module _ {R A E : Type 0} (services : Services R A E) where
  -- An Engine API request, whose method begins with `engine_`, is answered by the server, and
  -- neither of the two clients sees it here.
  pub engine_stays_inside :
      (req : R) (rest : Text)
      → services.method req ≡ ok (engine_method ++ rest)
      → call services req ≡ (inner ∷ [], services.call_inner req)
  unfolding call
  engine_stays_inside req rest h = rw (h, call) refl

  -- A request reaches the builder exactly if its method is one of the six that are forwarded.
  pub builder_sees_iff :
      (req : R) (m : Text)
      → services.method req ≡ ok m
      → Any (λ t. t ≡ builder) (call services req).0 ↔ Any (λ u. m ≡ u) forward_requests
  unfolding call
  builder_sees_iff req m h = elim (Bool-cases (contains m forward_requests)) [
    | inl e ↦
        let f = (contains_iff m forward_requests).0 e in
        (λ x. f, λ x. rw (h, call) (rw (forwarded_outside m f) (rw e (inl refl))))
    | inr e ↦ (
      λ x. absurd (hidden (starts_with engine_method m) (rw e at (rw (h, call) at x))),
      λ x. absurd (let bad = (contains_iff m forward_requests).1 x in cc),
    )
  ]
    where
      hidden :
          (b : Bool)
          → Any
              (λ t. t ≡ builder)
              (if◌then◌else◌ {A = List Target × Result E A} b
                (inner ∷ [], services.call_inner req)
                (l2 ∷ [], services.forward_l2 req m)).0
          → ⊥
      hidden true (inl x) = absurd cc
      hidden true (inr x) = x
      hidden false (inl x) = absurd cc
      hidden false (inr x) = x

  -- A request whose method is no Engine API method is answered by the L2 client's answer, forwarded
  -- to the builder or not.
  pub l2_answers :
      (req : R) (m : Text)
      → services.method req ≡ ok m
      → starts_with engine_method m ≡ false
      → (call services req).1 ≡ services.forward_l2 req m
  unfolding call
  l2_answers req m h e = elim (Bool-cases (contains m forward_requests)) [
    | inl k ↦ rw (h, call) (rw e (rw k refl))
    | inr k ↦ rw (h, call) (rw e (rw k refl))
  ]
