-- ===== src/Merkle/Membership.antt =====
-- The sibling hashes and sides that the circuit takes lead from a leaf to its ancestors.
use go_sdk_test.Common.{
  ℕ, zero, suc, ◌+◌, ◌*◌, ◌/◌, ◌%◌, ◌≤◌, ◌<◌, ◌≡◌, List, [], ◌∷◌, some, ℤ, is_zero, Map, lookup,
  nat_eq, arith, if◌then◌else◌, take, refl, Bool-cases, nat_beq, inl, inr, false,
}
use go_sdk_test.Common.Bits.{bit_len, bit_len_half}
use go_sdk_test.Merkle.{
  MerkleTree, start, node_value, sibling_hashes, sibling_sides, get_sibling_index,
}
use go_sdk_test.Merkle.Levels.{climb, positive_of_bit_len}
use go_sdk_test.Merkle.Consistent.{IsConsistent}

-- How the circuit climbs: side 0 puts the running hash on the left.
abbrev pub fold_path : (ℤ → ℤ → ℤ) → ℤ → List ℤ → List ℤ → ℤ
fold_path hash v [] sides = v
fold_path hash v (s ∷ hashes) [] = v
fold_path hash v (s ∷ hashes) (side ∷ sides) =
    fold_path hash (if is_zero side then hash v s else hash s v) hashes sides

abbrev pub IsStored : ℕ → Map ℕ ℤ → Type 0
IsStored i t = (v : ℤ) × (lookup i t ≡ some v)

abbrev pub value_at : MerkleTree → ℕ → ℤ
value_at m = node_value m.default_value m.tree

-- One step of the circuit's climb.
step-eq-parent :
    (m : MerkleTree) (i : ℕ)
    → IsConsistent m
    → 2 ≤ i
    → i < start m * 2
    → IsStored (i / 2) m.tree
    → (if is_zero (ℤ.pos (i % 2))
        then m.hash_fn (value_at m i) (value_at m (get_sibling_index i))
        else m.hash_fn (value_at m (get_sibling_index i)) (value_at m i))
      ≡ value_at m (i / 2)
unfolding get_sibling_index
step-eq-parent m i c two below (v, found) =
    let parent : value_at m (i / 2) ≡ v = rw found in
    let here = c.hashed (i / 2) v found (omega arith) in
    elim (Bool-cases (nat_beq (i % 2) 1)) [
      | inl odd ↦
          let side : i % 2 ≡ 1 = ground arith in
          let sibling : get_sibling_index i ≡ i / 2 * 2 = ground arith in
          let own : i ≡ i / 2 * 2 + 1 = omega arith in rw side (cc (here, parent))
      | inr even ↦
          let side : i % 2 ≡ 0 = ground arith in
          let sibling : get_sibling_index i ≡ i / 2 * 2 + 1 = ground arith in
          let own : i ≡ i / 2 * 2 = omega arith in rw side (cc (here, parent))
    ]

-- Folding the first `k` siblings of a node into its value gives the value `k` levels up.
pub fold_path-siblings :
    (m : MerkleTree) (k fuel i : ℕ)
    → IsConsistent m
    → i ≤ fuel
    → i < start m * 2
    → k + 1 ≤ bit_len i
    → ((j : ℕ) → j < k → IsStored (climb j (i / 2)) m.tree)
    → fold_path m.hash_fn
        (value_at m i)
        (take k (sibling_hashes fuel i m))
        (take k (sibling_sides fuel i))
      ≡ value_at m (climb k i)
unfolding sibling_hashes sibling_sides climb
fold_path-siblings m zero fuel i c enough below bits stored = refl
fold_path-siblings m (suc k) zero i c enough below bits stored =
    absurd (omega (arith, positive_of_bit_len i (omega arith)))
fold_path-siblings m (suc k) (suc fuel) i c enough below bits stored =
    let more : bit_len i ≡ suc (bit_len (i / 2)) =
      bit_len_half i (positive_of_bit_len i (omega arith)) in
    let parent_positive : 0 < i / 2 = positive_of_bit_len (i / 2) (omega arith) in
    let nonzero : nat_beq i 0 ≡ false = ground arith in
    rw (nonzero, sibling_hashes, sibling_sides)
      (rw (step-eq-parent m i c (omega arith) below (stored 0 (omega arith))) (
        fold_path-siblings m k fuel (i / 2) c (omega arith) (omega arith) (omega arith)
          (λ j lt. stored (suc j) (omega arith))))
