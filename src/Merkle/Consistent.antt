-- ===== src/Merkle/Consistent.antt =====
-- Every stored inner node is the hash of its children, and forceInsert keeps it so.
use go_sdk_test.Common.{
  ℕ, zero, suc, ◌+◌, ◌-◌, ◌*◌, ◌/◌, ◌≤◌, ◌<◌, ◌≡◌, ◌≢◌, inl, inr, some, ℤ, Map, insert, lookup,
  lookup-insert, nat_eq, int_eq, contains, arith, ltb, ltb-false, if◌then◌else◌, Bool-cases,
  nat_beq, sym,
}
use go_sdk_test.Common.Bits.{bit_len, bit_len_half}
use go_sdk_test.Merkle.{MerkleTree, new, remove, start, logarithm2, node_value, rehash, insert_leaf}
use go_sdk_test.Merkle.Levels.{
  climb, bit_len-climb, bit_len-half-le, positive_of_bit_len, logarithm2_mono, bit_len-leaf,
  logarithm2-le-levels,
}

module _ (hash : ℤ → ℤ → ℤ) (d : ℤ) where
  -- Every stored node below `s` but `e` is the hash of its children.
  abbrev pub IsHashedBut : ℕ → ℕ → Map ℕ ℤ → Type 0
  IsHashedBut s e t =
      (i : ℕ) (v : ℤ)
      → lookup i t ≡ some v
      → i < s
      → i ≢ e
      → v ≡ hash (node_value d t (i * 2)) (node_value d t (i * 2 + 1))

  -- A write at a node concerns only the node and its parent.
  pub insert-IsHashedBut :
      (s n : ℕ) (v : ℤ) (t : Map ℕ ℤ)
      → s ≤ n
      → ((i : ℕ) (w : ℤ)
          → lookup i t ≡ some w
          → i < s
          → w ≡ hash (node_value d t (i * 2)) (node_value d t (i * 2 + 1)))
      → IsHashedBut s (n / 2) (insert n v t)
  insert-IsHashedBut s n v t le all i w found lt ne =
      let same : lookup i (insert n v t) ≡ lookup i t = rw lookup-insert (ground arith) in
      let left : lookup (i * 2) (insert n v t) ≡ lookup (i * 2) t =
        rw lookup-insert (ground arith) in
      let right : lookup (i * 2 + 1) (insert n v t) ≡ lookup (i * 2 + 1) t =
        rw lookup-insert (ground arith) in
      rw (left, right) (all i w (rw same at found) lt)

  -- One round of the climb moves the one node that may be out of date to its parent.
  round-IsHashedBut :
      (s p : ℕ) (t : Map ℕ ℤ)
      → 0 < p
      → IsHashedBut s p t
      → IsHashedBut s
          (p / 2)
          (insert p (hash (node_value d t (p * 2)) (node_value d t (p * 2 + 1))) t)
  round-IsHashedBut s p t positive all i w found lt ne =
      let new : ℤ = hash (node_value d t (p * 2)) (node_value d t (p * 2 + 1)) in
      elim (Bool-cases (nat_beq p i)) [
        | inl same ↦
            let e : p ≡ i = ground arith in
            let left : lookup (i * 2) (insert p new t) ≡ lookup (p * 2) t =
              rw lookup-insert (ground arith) in
            let right : lookup (i * 2 + 1) (insert p new t) ≡ lookup (p * 2 + 1) t =
              rw lookup-insert (ground arith) in
            let here : lookup i (insert p new t) ≡ some new = rw lookup-insert (ground arith) in
            rw (left, right) (cc here)
        | inr other ↦
            let same : lookup i (insert p new t) ≡ lookup i t = rw lookup-insert (ground arith) in
            let left : lookup (i * 2) (insert p new t) ≡ lookup (i * 2) t =
              rw lookup-insert (ground arith) in
            let right : lookup (i * 2 + 1) (insert p new t) ≡ lookup (i * 2 + 1) t =
              rw lookup-insert (ground arith) in
            rw (left, right) (all i w (rw same at found) lt (ground arith))
      ]

  -- After the climb only the parent of the last node that was written may be out of date.
  pub rehash-IsHashedBut :
      (s rounds cur : ℕ) (t : Map ℕ ℤ)
      → rounds + 1 ≤ bit_len cur
      → IsHashedBut s (cur / 2) t
      → IsHashedBut s (climb rounds cur / 2) (rehash hash d rounds cur t)
  unfolding rehash climb
  rehash-IsHashedBut s zero cur t h all = all
  rehash-IsHashedBut s (suc rounds) cur t h all =
      let more : suc (bit_len (cur / 2)) ≡ bit_len cur =
        sym (bit_len_half cur (positive_of_bit_len cur (omega arith))) in
      rehash-IsHashedBut s rounds (cur / 2) _ (omega arith)
        (round-IsHashedBut s (cur / 2) t (positive_of_bit_len (cur / 2) (omega arith)) all)

  abbrev pub IsAbove : ℕ → Map ℕ ℤ → Type 0
  IsAbove low t = (i : ℕ) (v : ℤ) → lookup i t ≡ some v → low ≤ bit_len i

  pub insert-IsAbove :
      (low n : ℕ) (v : ℤ) (t : Map ℕ ℤ)
      → low ≤ bit_len n
      → IsAbove low t
      → IsAbove low (insert n v t)
  insert-IsAbove low n v t h all i w found = elim (Bool-cases (nat_beq n i)) [
    | inl same ↦ let e : n ≡ i = ground arith in rw (← e) h
    | inr other ↦
        let same : lookup i (insert n v t) ≡ lookup i t = rw lookup-insert (ground arith) in
        all i w (rw same at found)
  ]

  -- The climb stores nothing at fewer bits than it has left at the end.
  pub rehash-IsAbove :
      (low rounds cur : ℕ) (t : Map ℕ ℤ)
      → low + rounds ≤ bit_len cur
      → IsAbove low t
      → IsAbove low (rehash hash d rounds cur t)
  unfolding rehash
  rehash-IsAbove low zero cur t h all = all
  rehash-IsAbove low (suc rounds) cur t h all =
      let more : suc (bit_len (cur / 2)) ≡ bit_len cur =
        sym (bit_len_half cur (positive_of_bit_len cur (omega arith))) in
      rehash-IsAbove low rounds (cur / 2) _ (omega arith)
        (insert-IsAbove low (cur / 2) _ t (omega arith) all)

-- What every operation keeps, while the leaves fit into the tree.
pub record IsConsistent (m : MerkleTree) : Type 0 where
  pub levels_positive : 0 < m.levels
  pub lower : start m ≤ m.index
  pub upper : m.index ≤ start m * 2
  pub hashed :
      (i : ℕ) (v : ℤ)
      → lookup i m.tree ≡ some v
      → i < start m
      → v
        ≡ m.hash_fn
            (node_value m.default_value m.tree (i * 2))
            (node_value m.default_value m.tree (i * 2 + 1))
  pub height :
      (i : ℕ) (v : ℤ)
      → lookup i m.tree ≡ some v
      → m.levels ≤ bit_len i + logarithm2 (m.index - start m)

-- The tree that forceInsert leaves.
abbrev pub written : ℤ → ℕ → MerkleTree → MerkleTree
written value n m = record m {
  tree =
      rehash m.hash_fn m.default_value (logarithm2 (m.index - start m)) n (insert n value m.tree);
  reverse_tree = insert value n m.reverse_tree;
}

-- forceInsert at a leaf place below the index keeps the tree consistent.
pub written-IsConsistent :
    (value : ℤ) (n : ℕ) (m : MerkleTree)
    → start m ≤ n
    → n < m.index
    → IsConsistent m
    → IsConsistent (written value n m)
written-IsConsistent value n m lo hi c =
    let rounds = logarithm2 (m.index - start m) in
    let t = insert n value m.tree in
    let bits : bit_len n ≡ m.levels =
      bit_len-leaf m.levels n c.levels_positive lo (omega (arith, c.upper)) in
    let room : rounds + 1 ≤ m.levels =
      logarithm2-le-levels m.levels (m.index - start m) c.levels_positive
        (omega (arith, c.upper)) in
    let below : IsAbove m.hash_fn m.default_value (m.levels - rounds) (written value n m).tree =
      rehash-IsAbove m.hash_fn m.default_value (m.levels - rounds) rounds n t (omega arith) (
        insert-IsAbove m.hash_fn m.default_value (m.levels - rounds) n value m.tree (omega arith)
          (λ i v found. omega (arith, c.height i v found))) in
    let top : bit_len (climb rounds n / 2) + rounds + 1 ≤ m.levels =
      omega (arith, bit_len-half-le (climb rounds n), bit_len-climb rounds n) in
    record {
      levels_positive = c.levels_positive;
      lower = c.lower;
      upper = c.upper;
      hashed = λ i v found lt.
          rehash-IsHashedBut m.hash_fn m.default_value (start m) rounds n t (omega arith)
            (insert-IsHashedBut m.hash_fn m.default_value (start m) n value m.tree lo c.hashed) i v
            found lt
            (λ e.
              let low : bit_len i + rounds + 1 ≤ m.levels = rw e top in
              absurd (omega (arith, below i v found)));
      height = λ i v found. omega (arith, below i v found);
    }

-- The record that Insert hands to forceInsert: count and index moved on.
abbrev pub counted : ℕ → MerkleTree → MerkleTree
counted n m = record m {
  count = if contains n m.tree then m.count else m.count + 1;
  index = if ltb m.index (n + 1) then n + 1 else m.index;
}

pub counted-IsConsistent :
    (n : ℕ) (m : MerkleTree) → n < start m * 2 → IsConsistent m → IsConsistent (counted n m)
counted-IsConsistent n m hi c =
    let grown : m.index ≤ (counted n m).index = ground arith in
    record {
      levels_positive = c.levels_positive;
      lower = omega (arith, c.lower);
      upper = ground (arith, c.upper);
      hashed = c.hashed;
      height = λ i v found. omega (
        arith,
        c.height i v found,
        logarithm2_mono (m.index - start m) ((counted n m).index - start m) (omega arith),
      );
    }

-- Insert at any leaf place returns, does not panic, and leaves a consistent tree: every stored
-- inner node is again the hash of the values at its two children.
pub insert_leaf-IsConsistent :
    (value : ℤ) (n : ℕ) (m : MerkleTree)
    → start m ≤ n
    → n < start m * 2
    → IsConsistent m
    → (m' : MerkleTree) × (insert_leaf value n m ≡ some m') × IsConsistent m'
unfolding insert_leaf
insert_leaf-IsConsistent value n m lo hi c = (
  written value n (counted n m),
  rw (ltb-false n (start m) lo),
  written-IsConsistent value n (counted n m) lo (ground arith) (counted-IsConsistent n m hi c),
)

-- Remove at a place that was filled writes the default there, and keeps the tree consistent.
pub remove-IsConsistent :
    (n : ℕ) (m : MerkleTree)
    → start m ≤ n
    → n < m.index
    → IsConsistent m
    → (m' : MerkleTree) × (remove n m ≡ some m') × IsConsistent m'
unfolding remove
remove-IsConsistent n m lo hi c = (
  written m.default_value n m,
  rw (ltb-false n (start m) lo),
  written-IsConsistent m.default_value n m lo hi c,
)

pub new-IsConsistent : (hash : ℤ → ℤ → ℤ) (d : ℤ) (levels : ℕ) → IsConsistent (new hash d levels)
unfolding new lookup
new-IsConsistent hash d levels = record {
  levels_positive = ground arith;
  lower = ground arith;
  upper = ground arith;
  hashed = λ i v found. cc;
  height = λ i v found. cc;
}
