-- ===== src/Merkle/Grown.antt =====
-- The invariant of a tree that deposits have grown from `new`, one leaf after the other.
use go_sdk_test.Common.{
  ℕ, zero, suc, ◌+◌, ◌-◌, ◌*◌, ◌/◌, ◌≤◌, ◌<◌, ◌≡◌, refl, inl, inr, none, some, Option, List, [],
  ◌∷◌, ℤ, Map, insert, lookup, lookup-insert, nat_eq, int_eq, int_beq, int_beq_iff, arith,
  Bool-cases, nat_beq, ◌∙◌, length, contains, ltb-false, Option-cases, false,
}
use go_sdk_test.Merkle.{MerkleTree, new, start, logarithm2, rehash, insert_leaf}
use go_sdk_test.Merkle.Consistent.{
  IsConsistent, counted, new-IsConsistent, written-IsConsistent, counted-IsConsistent,
}
use go_sdk_test.Merkle.Append.{IsFilled, appended, appended-IsFilled, rehash-leaf, index-appended}

pub record IsGrown (m : MerkleTree) : Type 0 where
  pub consistent : IsConsistent m
  pub filled : IsFilled m
  pub complete : m.count + start m ≡ m.index
  pub bounded : (i : ℕ) (v : ℤ) → lookup i m.tree ≡ some v → i < m.index
  pub reverse :
      (v : ℤ) (i : ℕ)
      → lookup v m.reverse_tree ≡ some i
      → (start m ≤ i) × (i < m.index) × (lookup i m.tree ≡ some v)

module _ (hash : ℤ → ℤ → ℤ) (d : ℤ) (b : ℕ) where
  abbrev IsBounded : Map ℕ ℤ → Type 0
  IsBounded t = (i : ℕ) (v : ℤ) → lookup i t ≡ some v → i < b

  insert-IsBounded : (n : ℕ) (v : ℤ) (t : Map ℕ ℤ) → n < b → IsBounded t → IsBounded (insert n v t)
  insert-IsBounded n v t lt all i w found = elim (Bool-cases (nat_beq n i)) [
    | inl same ↦ ground arith
    | inr other ↦
        let same : lookup i (insert n v t) ≡ lookup i t = rw lookup-insert (ground arith) in
        all i w (rw same at found)
  ]

  rehash-IsBounded :
      (rounds cur : ℕ) (t : Map ℕ ℤ)
      → cur < b
      → IsBounded t
      → IsBounded (rehash hash d rounds cur t)
  unfolding rehash
  rehash-IsBounded zero cur t lt all = all
  rehash-IsBounded (suc rounds) cur t lt all =
      rehash-IsBounded rounds (cur / 2) _ (omega arith)
        (insert-IsBounded (cur / 2) _ t (omega arith) all)

module _ (value : ℤ) (m : MerkleTree) (room : m.index < start m * 2) (g : IsGrown m) where
  fresh : contains m.index m.tree ≡ false
  unfolding contains
  fresh = elim (Option-cases (lookup m.index m.tree)) [
    | inl missing ↦ rw (missing, contains)
    | inr (v, found) ↦ absurd (omega (arith, g.bounded m.index v found))
  ]

  leaf-appended :
      (i : ℕ)
      → start m ≤ i
      → lookup i (appended value m).tree ≡ lookup i (insert m.index value m.tree)
  leaf-appended i lo =
      rehash-leaf m.hash_fn m.default_value (start m) i _ m.index _ lo (omega arith)

  reverse-appended :
      (v : ℤ) (i : ℕ)
      → lookup v (appended value m).reverse_tree ≡ some i
      → (start m ≤ i) × (i < (appended value m).index) × (lookup i (appended value m).tree ≡ some v)
  reverse-appended v i found = elim (Bool-cases (int_beq value v)) [
    | inl same ↦
        let e : value ≡ v = (int_beq_iff value v).0 same in
        let here : lookup v (insert value m.index m.reverse_tree) ≡ some m.index =
          rw lookup-insert (rw same) in
        let last : i ≡ m.index = ground arith in
        (
          omega (arith, g.consistent.lower),
          omega (arith, index-appended m),
          leaf-appended i (omega (arith, g.consistent.lower)) ∙ rw lookup-insert (ground arith),
        )
    | inr other ↦
        let there : lookup v (insert value m.index m.reverse_tree) ≡ lookup v m.reverse_tree =
          rw lookup-insert (rw other) in
        let old = g.reverse v i (rw there at found) in
        (
          old.0,
          omega (arith, index-appended m, old.1),
          leaf-appended i old.0 ∙ rw lookup-insert (ground (arith, old.1, old.2)),
        )
  ]

  -- Appending a leaf to a grown tree does not panic and leaves a grown tree.
  pub append-IsGrown :
      (insert_leaf value m.index m ≡ some (appended value m)) × IsGrown (appended value m)
  unfolding insert_leaf
  append-IsGrown = (
    rw (ltb-false m.index (start m) g.consistent.lower),
    record {
      consistent =
          written-IsConsistent value m.index (counted m.index m) g.consistent.lower
            (omega (arith, index-appended m)) (counted-IsConsistent m.index m room g.consistent);
      filled = appended-IsFilled value m room g.consistent g.filled;
      complete = rw fresh (omega (arith, index-appended m, g.complete));
      bounded =
          rehash-IsBounded m.hash_fn m.default_value (counted m.index m).index
            (logarithm2 ((counted m.index m).index - start m)) m.index _
            (omega (arith, index-appended m))
            (insert-IsBounded m.hash_fn m.default_value (counted m.index m).index m.index value
              m.tree (omega (arith, index-appended m))
              (λ i v found. omega (arith, index-appended m, g.bounded i v found)));
      reverse = reverse-appended;
    },
  )

pub new-IsGrown : (hash : ℤ → ℤ → ℤ) (d : ℤ) (levels : ℕ) → IsGrown (new hash d levels)
unfolding new lookup
new-IsGrown hash d levels = record {
  consistent = new-IsConsistent hash d levels;
  filled = λ j k lo hi high. absurd (omega arith);
  complete = omega arith;
  bounded = λ i v found. cc;
  reverse = λ v i found. cc;
}

-- Deposits, one after the other at the index that the tree has reached.
abbrev pub append_all : List ℤ → MerkleTree → Option MerkleTree
append_all [] m = some m
append_all (v ∷ vs) m = elim (insert_leaf v m.index m) [ none ↦ none | some m' ↦ append_all vs m' ]

abbrev pub appended_all : List ℤ → MerkleTree → MerkleTree
appended_all [] m = m
appended_all (v ∷ vs) m = appended_all vs (appended v m)

-- While the leaves have room, deposits do not panic and leave a grown tree with as many more leaves.
pub append_all-IsGrown :
    (vs : List ℤ) (m : MerkleTree)
    → m.index + length vs ≤ start m * 2
    → IsGrown m
    → (append_all vs m ≡ some (appended_all vs m))
      × IsGrown (appended_all vs m)
      × ((appended_all vs m).index ≡ m.index + length vs)
append_all-IsGrown [] m room g = (refl, g, omega arith)
append_all-IsGrown (v ∷ vs) m room g =
    let step = append-IsGrown v m (omega arith) g in
    let rest = append_all-IsGrown vs (appended v m) (omega (arith, index-appended m)) step.1 in
    (rw (step.0, append_all) rest.0, rest.1, omega (arith, index-appended m, rest.2))
