-- ===== src/Common/Maps.antt =====
-- Go maps as association lists over keys with a Boolean equality. Iteration order is the order of
-- insertion; the program relies on none.
use Prim.Native.Nat.{ℕ}
use Prim.Native.String.{String}
use mathlib.Core.Path.{◌≡◌, refl}
use mathlib.Core.Logic.{◌↔◌}
use mathlib.Core.Bool.{Bool, true, false, ◌||◌}
use mathlib.Core.Option.{Option, none, some}
use mathlib.Core.List.{List, [], ◌∷◌}
use native.Mathlib.Omega.{arith}
use text.Mathlib.Text.{◌==◌ as str_eq}
use text.Mathlib.TextEquality.{eq_iff}
use go_sdk_test.Common.Tests.{nat_beq, nat_beq_iff, if◌then◌else◌}
use go_sdk_test.Common.Int.{ℤ, int_beq, int_beq_iff}

-- A comparison of keys, as Go's `==` on the comparable types.
pub record Comparable {ℓ} (K : Type ℓ) : Type ℓ where
  pub same_key : K → K → Bool
  pub same_key_iff : (j k : K) → (same_key j k ≡ true) ↔ (j ≡ k)

instance abbrev pub string_eq : Comparable String
string_eq = record { same_key = str_eq; same_key_iff = eq_iff }

instance abbrev pub int_eq : Comparable ℤ
int_eq = record { same_key = int_beq; same_key_iff = int_beq_iff }

instance abbrev pub nat_eq : Comparable ℕ
nat_eq = record { same_key = nat_beq; same_key_iff = nat_beq_iff }

infix 50 ◌==◌
abbrev pub ◌==◌ {ℓ} : {K : Type ℓ} ⦃c : Comparable K⦄ → K → K → Bool
◌==◌ ⦃c⦄ = c.same_key

abbrev pub Map {ℓ κ} : Type ℓ → Type κ → Type (ℓ ⊔ κ)
Map K V = List (K × V)

module _ {ℓ κ} {K : Type ℓ} {V : Type κ} ⦃c : Comparable K⦄ where
  -- `v, ok := m[key]`
  unfoldable pub lookup : K → Map K V → Option V
  lookup key [] = none
  lookup key ((k, held) ∷ rest) = if k == key then some held else lookup key rest

  -- `_, ok := m[key]`
  unfoldable pub contains : K → Map K V → Bool
  contains key m = elim (lookup key m) [ none ↦ false | some _ ↦ true ]

  -- `m[key] = v`, in place where the key is there.
  unfoldable pub insert : K → V → Map K V → Map K V
  insert key v [] = (key, v) ∷ []
  insert key v ((k, held) ∷ rest) =
      if k == key then (key, v) ∷ rest else (k, held) ∷ insert key v rest

  -- `delete(m, key)`
  unfoldable pub delete : K → Map K V → Map K V
  delete key [] = []
  delete key ((k, held) ∷ rest) = if k == key then delete key rest else (k, held) ∷ delete key rest

  pub lookup-insert :
      (key other : K) (v : V) (m : Map K V)
      → lookup other (insert key v m) ≡ (if key == other then some v else lookup other m)
  unfolding insert lookup
  lookup-insert key other v [] = refl
  lookup-insert key other v ((k, held) ∷ rest) = ground (
    arith,
    lookup-insert key other v rest,
    c.same_key_iff key other,
    c.same_key_iff k key,
    c.same_key_iff k other,
  )

  pub lookup-delete :
      (key other : K) (m : Map K V)
      → lookup other (delete key m) ≡ (if key == other then none else lookup other m)
  unfolding delete lookup
  lookup-delete key other [] = ground arith
  lookup-delete key other ((k, held) ∷ rest) = ground (
    arith,
    lookup-delete key other rest,
    c.same_key_iff key other,
    c.same_key_iff k key,
    c.same_key_iff k other,
  )

  pub contains-insert :
      (key other : K) (v : V) (m : Map K V)
      → contains other (insert key v m) ≡ (key == other || contains other m)
  unfolding contains
  contains-insert key other v m = ground (arith, lookup-insert key other v m)

  -- A Go map holds each key once.
  abbrev pub HasUniqueKeys : Map K V → Type κ
  HasUniqueKeys [] = Unit
  HasUniqueKeys ((k, v) ∷ rest) = (lookup k rest ≡ none) × HasUniqueKeys rest
