-- ===== src/Merkle/Json/Reverse.antt =====
-- buildReverseTree finds, for a value among the leaves, a leaf that holds it.
use go_sdk_test.Common.{
  ℕ, zero, suc, ◌+◌, ◌≤◌, ◌<◌, ◌≡◌, refl, inl, inr, none, some, ℤ, Map, insert, lookup,
  lookup-insert, nat_eq, int_eq, int_beq, int_beq_iff, arith, Bool-cases, Option-cases, nat_beq,
}
use go_sdk_test.Merkle.{build_reverse_tree}

-- What the reverse tree holds, are places from `lo` below `hi` where the tree holds the value.
abbrev pub IsReverse : ℕ → ℕ → Map ℕ ℤ → Map ℤ ℕ → Type 0
IsReverse lo hi t rt =
    (v : ℤ) (i : ℕ) → lookup v rt ≡ some i → (lo ≤ i) × (i < hi) × (lookup i t ≡ some v)

-- Each value of the tree from `lo` below `hi` has a place.
abbrev pub HasPlaces : ℕ → ℕ → Map ℕ ℤ → Map ℤ ℕ → Type 0
HasPlaces lo hi t rt =
    (i : ℕ) (v : ℤ) → lo ≤ i → i < hi → lookup i t ≡ some v → (j : ℕ) × (lookup v rt ≡ some j)

insert-IsReverse :
    (lo i : ℕ) (v : ℤ) (t : Map ℕ ℤ) (rt : Map ℤ ℕ)
    → lo ≤ i
    → lookup i t ≡ some v
    → IsReverse lo i t rt
    → IsReverse lo (suc i) t (insert v i rt)
insert-IsReverse lo i v t rt le held all w j found = elim (Bool-cases (int_beq v w)) [
  | inl same ↦
      let e : v ≡ w = (int_beq_iff v w).0 same in
      let here : lookup w (insert v i rt) ≡ some i = rw (lookup-insert, same) refl in
      let at_i : i ≡ j = cc (here, found) in ground (arith, held, e, at_i)
  | inr other ↦
      let there : lookup w (insert v i rt) ≡ lookup w rt = rw (lookup-insert, other) refl in
      let (a, b, c) = all w j (rw (there) at found) in (a, omega arith, c)
]

insert-HasPlaces :
    (lo i : ℕ) (v : ℤ) (t : Map ℕ ℤ) (rt : Map ℤ ℕ)
    → lookup i t ≡ some v
    → HasPlaces lo i t rt
    → HasPlaces lo (suc i) t (insert v i rt)
insert-HasPlaces lo i v t rt held all k w le lt found = elim (Bool-cases (int_beq v w)) [
  | inl same ↦ (i, rw (lookup-insert, same) refl)
  | inr other ↦
      let there : lookup w (insert v i rt) ≡ lookup w rt = rw (lookup-insert, other) refl in
      rw (there) (elim (Bool-cases (nat_beq k i)) [
        | inl here ↦
            let e : k ≡ i = ground arith in
            let w_is_v : v ≡ w = cc (e, held, found) in
            absurd (cc ((int_beq_iff v w).1 w_is_v, other))
        | inr before ↦ all k w le (ground arith) found
      ])
]

-- A place that holds nothing adds nothing.
skip-HasPlaces :
    (lo i : ℕ) (t : Map ℕ ℤ) (rt : Map ℤ ℕ)
    → lookup i t ≡ none
    → HasPlaces lo i t rt
    → HasPlaces lo (suc i) t rt
skip-HasPlaces lo i t rt empty all k w le lt found = elim (Bool-cases (nat_beq k i)) [
  | inl here ↦ let e : k ≡ i = ground arith in absurd (cc (e, empty, found))
  | inr before ↦ all k w le (ground arith) found
]

pub build_reverse_tree_lem :
    (rounds lo i : ℕ) (t : Map ℕ ℤ) (rt : Map ℤ ℕ)
    → lo ≤ i
    → IsReverse lo i t rt
    → HasPlaces lo i t rt
    → IsReverse lo (i + rounds) t (build_reverse_tree rounds i t rt)
      × HasPlaces lo (i + rounds) t (build_reverse_tree rounds i t rt)
unfolding build_reverse_tree
build_reverse_tree_lem zero lo i t rt le sound complete =
    let e : i + 0 ≡ i = omega arith in rw (e) (sound, complete)
build_reverse_tree_lem (suc rounds) lo i t rt le sound complete =
    let e : i + suc rounds ≡ suc i + rounds = omega arith in
    let e1 : i + 1 ≡ suc i = omega arith in
    rw (e, e1)
      (elim (Option-cases (lookup i t)) [
        | inl empty ↦ rw (empty) (
            build_reverse_tree_lem rounds lo (suc i) t rt (omega arith)
              (λ v j found. let (a, b, c) = sound v j found in (a, omega arith, c))
              (skip-HasPlaces lo i t rt empty complete))
        | inr (v, held) ↦ rw (held) (
            build_reverse_tree_lem rounds lo (suc i) t (insert v i rt) (omega arith)
              (insert-IsReverse lo i v t rt le held sound)
              (insert-HasPlaces lo i v t rt held complete))
      ])
