-- ===== src/Merkle/Root.antt =====
-- The root hash of a grown tree, and the path from a deposited item to it.
use go_sdk_test.Common.{
  ℕ, zero, suc, ◌+◌, ◌-◌, ◌*◌, ◌^◌, ◌≤◌, ◌<◌, ◌≡◌, refl, sym, inl, inr, ap, none, some, List, [],
  ◌∷◌, ℤ, lookup, is_zero, leb, nat_eq, int_eq, arith, Bool-cases, Option-cases, nat_beq, ◌∙◌,
  length, false, true, take, ok,
}
use go_sdk_test.Common.Bits.{bit_len, bit_len-le}
use go_sdk_test.Merkle.{
  MerkleTree, start, logarithm2, root_scan, get_root_hash, get_sibling_hashes_for_verification,
  get_sibling_sides, sibling_hashes, sibling_sides, slice_first, circom_merkle_length,
}
use go_sdk_test.Merkle.Levels.{climb, le-pow-logarithm2, logarithm2-le-levels, bit_len-leaf}
use go_sdk_test.Merkle.Append.{climb-leaf}
use go_sdk_test.Merkle.Grown.{IsGrown}
use go_sdk_test.Merkle.Membership.{IsStored, value_at, fold_path, fold_path-siblings}
use native.Mathlib.Nat.{two-pow-succ, one-le-pow}

-- The height of the tree, and the node that the scan finds first.
abbrev pub tree_height : MerkleTree → ℕ
tree_height m = logarithm2 (m.index - start m)

abbrev pub top : MerkleTree → ℕ
top m = 2 ^ (m.levels - 1 - tree_height m)

-- The scan passes the places that are not stored and stops at a stored value that is not 0.
root_scan-eq :
    (m : MerkleTree) (v : ℤ) (gap rounds from : ℕ)
    → gap < rounds
    → ((g : ℕ) → g < gap → lookup (2 ^ (from + g)) m.tree ≡ none)
    → lookup (2 ^ (from + gap)) m.tree ≡ some v
    → is_zero v ≡ false
    → root_scan rounds (2 ^ from) m ≡ v
unfolding root_scan
root_scan-eq m v gap zero from lt skip found nonzero = absurd (omega arith)
root_scan-eq m v zero (suc rounds) from lt skip found nonzero =
    let e : from + 0 ≡ from = omega arith in
    let found' : lookup (2 ^ from) m.tree ≡ some v = rw e at found in
    rw (found', root_scan) (rw nonzero)
root_scan-eq m v (suc gap) (suc rounds) from lt skip found nonzero =
    let e : from + 0 ≡ from = omega arith in
    let missing : lookup (2 ^ from) m.tree ≡ none = rw e at (skip 0 (omega arith)) in
    let double : 2 ^ from * 2 ≡ 2 ^ suc from = rw two-pow-succ (omega arith) in
    let over : (g : ℕ) → from + suc g ≡ suc from + g = λ g. omega arith in
    rw (missing, root_scan)
      (rw double (
        root_scan-eq m v gap rounds (suc from) (omega arith)
          (λ g small. rw (over g) at (skip (suc g) (omega arith))) (rw (over gap) at found)
          nonzero))

take-take : (k n : ℕ) (xs : List ℤ) → k ≤ n → take k (take n xs) ≡ take k xs
take-take zero n xs h = refl
take-take (suc k) zero xs h = elim h [ ]
take-take (suc k) (suc n) [] h = refl
take-take (suc k) (suc n) (x ∷ xs) h = rw (take-take k n xs (omega arith))

take-slice_first : (k n : ℕ) (xs : List ℤ) → k ≤ n → take k (slice_first xs n) ≡ take k xs
unfolding slice_first
take-slice_first k n xs h = elim (Bool-cases (leb (length xs) n)) [
  | inl short ↦ rw short
  | inr long ↦ rw long (take-take k n xs h)
]

module _ (m : MerkleTree) (g : IsGrown m) (some_leaf : start m < m.index) where
  height-lt-levels : tree_height m + 1 ≤ m.levels
  height-lt-levels =
      logarithm2-le-levels m.levels (m.index - start m) g.consistent.levels_positive
        (omega (arith, g.consistent.upper))

  -- The ancestor of every leaf, at the height of the tree, is the top.
  climb-top : (i : ℕ) → start m ≤ i → i < m.index → climb (tree_height m) i ≡ top m
  climb-top i lo hi =
      climb-leaf m.levels (tree_height m) i height-lt-levels lo
        (omega (arith, le-pow-logarithm2 (m.index - start m)))

  no_node_above : (j : ℕ) → j < m.levels - 1 - tree_height m → lookup (2 ^ j) m.tree ≡ none
  no_node_above j lt = elim (Option-cases (lookup (2 ^ j) m.tree)) [
    | inl missing ↦ missing
    | inr (v, found) ↦ absurd (
        omega (
          arith,
          g.consistent.height (2 ^ j) v found,
          height-lt-levels,
          bit_len-le (suc j) (2 ^ j)
              (rw two-pow-succ (omega (arith, one-le-pow j 2 (omega arith)))),
        ))
  ]

  top-IsStored : IsStored (top m) m.tree
  top-IsStored =
      rw (climb-top (start m) (omega arith) some_leaf) at
        (g.filled (start m) (tree_height m) (omega arith) some_leaf (omega arith))

  scan-eq-top : is_zero (value_at m (top m)) ≡ false → root_scan m.levels 1 m ≡ value_at m (top m)
  scan-eq-top nonzero =
      let (v, found) = top-IsStored in
      let here : value_at m (top m) ≡ v = rw found in
      root_scan-eq m v (m.levels - 1 - tree_height m) m.levels 0
        (omega (arith, g.consistent.levels_positive))
        (λ j lt. let e : 0 + j ≡ j = omega arith in rw e (no_node_above j lt))
        (let e : 0 + (m.levels - 1 - tree_height m) ≡ m.levels - 1 - tree_height m = omega arith in
          rw e found)
        (rw (← here) nonzero)
      ∙ sym here

  -- The root hash of a grown tree with a leaf is the value at the top, unless that is 0.
  pub get_root_hash-eq-top :
      is_zero (value_at m (top m)) ≡ false → get_root_hash m ≡ ok (value_at m (top m))
  unfolding get_root_hash
  get_root_hash-eq-top nonzero =
      let complete : nat_beq (m.count + start m) m.index ≡ true = ground (arith, g.complete) in
      rw (scan-eq-top nonzero, complete)

-- What GetSiblingHashesForVerification and GetSiblingSides return for an item leads to the root.
pub record LeadsToRoot (m : MerkleTree) (item : ℤ) : Type 0 where
  pub hashes : List ℤ
  pub sides : List ℤ
  pub hashes_returned : get_sibling_hashes_for_verification item m ≡ ok hashes
  pub sides_returned : get_sibling_sides item m ≡ ok sides
  pub folds :
      get_root_hash m
      ≡ ok (fold_path m.hash_fn item (take (tree_height m) hashes) (take (tree_height m) sides))

-- In a tree grown by deposits, of height at most the circuit's 25 and with a top that is not 0, the
-- two calls succeed for every item that the reverse map knows, and folding the first `tree_height`
-- sibling hashes into the item, on the sides returned, gives what GetRootHash returns.
pub membership :
    (m : MerkleTree) (item : ℤ) (i : ℕ)
    → IsGrown m
    → lookup item m.reverse_tree ≡ some i
    → tree_height m ≤ circom_merkle_length
    → is_zero (value_at m (top m)) ≡ false
    → LeadsToRoot m item
unfolding get_sibling_hashes_for_verification get_sibling_sides climb
membership m item i g known low nonzero =
    let place = g.reverse item i known in
    let complete : nat_beq (m.count + start m) m.index ≡ true = ground (arith, g.complete) in
    let own : value_at m i ≡ item = rw (place.2) in
    let some_leaf : start m < m.index = omega (arith, place.0, place.1) in
    let bits : bit_len i ≡ m.levels =
      bit_len-leaf m.levels i g.consistent.levels_positive place.0
        (omega (arith, place.1, g.consistent.upper)) in
    let folded : fold_path m.hash_fn (value_at m i) (take (tree_height m) (sibling_hashes i i m))
          (take (tree_height m) (sibling_sides i i))
        ≡ value_at m (climb (tree_height m) i) =
      fold_path-siblings m (tree_height m) i i g.consistent (omega arith)
        (omega (arith, place.1, g.consistent.upper)) (omega (arith, height-lt-levels m g some_leaf))
        (λ j lt. g.filled i (suc j) place.0 place.1 (omega arith)) in
    let path = rw (own, climb-top m g some_leaf i place.0 (place.1)) at folded in
    record {
      hashes = slice_first (sibling_hashes i i m) circom_merkle_length;
      sides = slice_first (sibling_sides i i) circom_merkle_length;
      hashes_returned = rw (complete, known);
      sides_returned = rw (complete, known);
      folds =
          let (v, there) = top-IsStored m g some_leaf in
          rw
            (
              take-slice_first _ _ (sibling_hashes i i m) low,
              take-slice_first _ _ (sibling_sides i i) low,
            )
            (get_root_hash-eq-top m g some_leaf nonzero ∙ ap ok (sym path));
    }
