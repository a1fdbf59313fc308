-- ===== src/Prelude/Attempt.antt =====
-- Code that returns, fails with an error, or panics.
use mathlib.Core.Path.{◌≡◌, refl}
use mathlib.Core.Option.{Option, none, some}
use native.Mathlib.Omega.{arith}
use rollup_boost.Prelude.Outcome.{Result, ok, err}

pub data Attempt (E A : Type 0) : Type 0 where
  done : A → Attempt E A
  failed : E → Attempt E A
  panicked : Attempt E A

infixl 5 ◌>>=◌
abbrev pub ◌>>=◌ : {E A B : Type 0} → Attempt E A → (A → Attempt E B) → Attempt E B
done a >>= f = f a
failed e >>= f = failed e
panicked >>= f = panicked

-- `option.expect(…)`, `option.ok_or(e)?` and `result.map_err(…)?`.
abbrev pub expect : {E A : Type 0} → Option A → Attempt E A
expect none = panicked
expect (some a) = done a

abbrev pub need : {E A : Type 0} → E → Option A → Attempt E A
need e none = failed e
need e (some a) = done a

abbrev pub try_result : {E F A : Type 0} → (F → E) → Result F A → Attempt E A
try_result f (ok a) = done a
try_result f (err e) = failed (f e)

-- What returns has returned from its first part.
pub >>=-eq-done :
    {E A B : Type 0} (m : Attempt E A) (f : A → Attempt E B) {b : B}
    → (m >>= f) ≡ done b
    → (a : A) × (m ≡ done a) × (f a ≡ done b)
>>=-eq-done (done a) f h = (a, refl, h)
>>=-eq-done (failed e) f h = absurd cc
>>=-eq-done panicked f h = absurd cc

pub need-eq-done : {E A : Type 0} (e : E) (o : Option A) {a : A} → need e o ≡ done a → o ≡ some a
need-eq-done e none h = absurd cc
need-eq-done e (some b) h = ground arith

pub try_result-eq-done :
    {E F A : Type 0} (f : F → E) (r : Result F A) {a : A} → try_result f r ≡ done a → r ≡ ok a
try_result-eq-done f (ok b) h = ground arith
try_result-eq-done f (err e) h = absurd cc
