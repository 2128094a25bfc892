-- ===== src/Common/Stateful.antt =====
-- Methods that change the state of an object: an answer or an error, and the state afterwards.
use mathlib.Core.Path.{◌≡◌, refl}
use mathlib.Core.Logic.{inl, inr}
use mathlib.Core.Bool.{Bool, true, false}
use mathlib.Core.Option.{Option, none, some}
use go_sdk_test.Common.Errors.{Result, ok, err, Result-cases}

abbrev pub Stateful : Type 0 → Type 0 → Type 0 → Type 0
Stateful E S A = S → Result E A × S

module _ {E S : Type 0} where
  abbrev pub continue_with : {A B : Type 0} → Result E A → (A → Stateful E S B) → Stateful E S B
  continue_with (ok a) f u = f a u
  continue_with (err e) f u = (err e, u)

  infixl 5 ◌>>=◌ ◌>>◌
  unfoldable pub ◌>>=◌ : {A B : Type 0} → Stateful E S A → (A → Stateful E S B) → Stateful E S B
  ◌>>=◌ m f u = let (answer, v) = m u in continue_with answer f v

  abbrev pub ◌>>◌ : {B : Type 0} → Stateful E S (Unit {0}) → Stateful E S B → Stateful E S B
  m >> k = m >>= λ _. k

  -- A step that only computes: `none` is the error it returns.
  unfoldable pub or_fail : {A : Type 0} → Option A → E → Stateful E S A
  or_fail none e u = (err e, u)
  or_fail (some a) e u = (ok a, u)

  unfoldable pub lift : {A : Type 0} → Result E A → Stateful E S A
  lift r u = (r, u)

  unfoldable pub return : {A : Type 0} → A → Stateful E S A
  return a u = (ok a, u)

  unfoldable pub guard : Bool → E → Stateful E S (Unit {0})
  guard true e u = (err e, u)
  guard false e u = (ok tt, u)

  -- What two methods in turn answer with, and the states between.
  pub bind_ok :
      {A B : Type 0} (m : Stateful E S A) (f : A → Stateful E S B) (s t : S) (b : B)
      → (m >>= f) s ≡ (ok b, t)
      → (a : A) × (m s ≡ (ok a, (m s).1)) × (f a (m s).1 ≡ (ok b, t))
  unfolding ◌>>=◌
  bind_ok m f s t b h = elim (Result-cases (m s).0) [
    | inl (a, e) ↦ (a, rw e refl, rw e at h)
    | inr (x, e) ↦ absurd (cc (rw e at h))
  ]
