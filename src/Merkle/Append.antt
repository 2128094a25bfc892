-- ===== src/Merkle/Append.antt =====
-- Trees that grow by appending leaves, as the deposits of the contract do: every ancestor of every
-- leaf is stored, up to the height of the tree.
use go_sdk_test.Common.{
  ℕ, zero, suc, ◌+◌, ◌-◌, ◌*◌, ◌/◌, ◌^◌, ◌≤◌, ◌<◌, ◌≡◌, refl, sym, inl, inr, ap, ℤ, Map, insert,
  lookup, lookup-insert, nat_eq, int_eq, arith, Bool-cases, nat_beq, ◌∙◌, ltb, ltb→lt,
}
use native.Mathlib.Nat.{two-pow-succ, pow-le-pow_right}
use go_sdk_test.Common.Bits.{bit_len, lt-pow-bit_len}
use go_sdk_test.Merkle.{MerkleTree, start, start_idx, logarithm2, rehash}
use go_sdk_test.Merkle.Levels.{climb, logarithm2-le-levels}
use go_sdk_test.Merkle.Consistent.{IsConsistent, written, counted}
use go_sdk_test.Merkle.Membership.{IsStored}

pub insert-IsStored : (i n : ℕ) (v : ℤ) (t : Map ℕ ℤ) → IsStored i t → IsStored i (insert n v t)
insert-IsStored i n v t (w, found) = elim (Bool-cases (nat_beq n i)) [
  | inl same ↦ (v, rw lookup-insert (ground arith))
  | inr other ↦ (w, rw lookup-insert (ground arith))
]

insert-IsStored_self : (n : ℕ) (v : ℤ) (t : Map ℕ ℤ) → IsStored n (insert n v t)
insert-IsStored_self n v t = (v, rw lookup-insert (ground arith))

module _ (hash : ℤ → ℤ → ℤ) (d : ℤ) where
  pub rehash-IsStored :
      (i rounds cur : ℕ) (t : Map ℕ ℤ) → IsStored i t → IsStored i (rehash hash d rounds cur t)
  unfolding rehash
  rehash-IsStored i zero cur t h = h
  rehash-IsStored i (suc rounds) cur t h =
      rehash-IsStored i rounds (cur / 2) _ (insert-IsStored i (cur / 2) _ t h)

  -- The climb stores each ancestor that it passes.
  pub rehash-IsStored-climb :
      (k rounds cur : ℕ) (t : Map ℕ ℤ)
      → k < rounds
      → IsStored (climb k (cur / 2)) (rehash hash d rounds cur t)
  unfolding rehash climb
  rehash-IsStored-climb k zero cur t h = absurd (omega arith)
  rehash-IsStored-climb zero (suc rounds) cur t h =
      rehash-IsStored (cur / 2) rounds (cur / 2) _ (insert-IsStored_self (cur / 2) _ t)
  rehash-IsStored-climb (suc k) (suc rounds) cur t h =
      rehash-IsStored-climb k rounds (cur / 2) _ (omega arith)

  -- The climb writes no leaf.
  pub rehash-leaf :
      (s i rounds cur : ℕ) (t : Map ℕ ℤ)
      → s ≤ i
      → cur < s * 2
      → lookup i (rehash hash d rounds cur t) ≡ lookup i t
  unfolding rehash
  rehash-leaf s i zero cur t le lt = refl
  rehash-leaf s i (suc rounds) cur t le lt =
      rehash-leaf s i rounds (cur / 2) _ le (omega arith) ∙ rw lookup-insert (ground arith)

pub pow-split : (a k : ℕ) → 2 ^ (a + k) ≡ 2 ^ a * 2 ^ k
pow-split a zero = let e : a + 0 ≡ a = omega arith in rw e (omega arith)
pow-split a (suc k) =
    let e : a + suc k ≡ suc (a + k) = omega arith in
    rw (e, two-pow-succ (a + k), two-pow-succ k) (omega (arith, pow-split a k))

-- `k` halvings drop the low `k` bits.
pub climb-pow : (k p r : ℕ) → r < 2 ^ k → climb k (p * 2 ^ k + r) ≡ p
unfolding climb
climb-pow zero p r h = omega arith
climb-pow (suc k) p r h =
    let e : (p * 2 ^ suc k + r) / 2 ≡ p * 2 ^ k + r / 2 = rw (two-pow-succ k) (omega arith) in
    rw e (climb-pow k p (r / 2) (omega (arith, two-pow-succ k)))

-- All of the first 2 ^ k leaves have one ancestor `k` levels up.
pub climb-leaf :
    (levels k i : ℕ)
    → k + 1 ≤ levels
    → start_idx levels ≤ i
    → i < start_idx levels + 2 ^ k
    → climb k i ≡ 2 ^ (levels - 1 - k)
unfolding start_idx
climb-leaf levels k i h lo hi =
    let split : 2 ^ (levels - 1) ≡ 2 ^ (levels - 1 - k) * 2 ^ k =
      ap (λ (n : ℕ). 2 ^ n) (omega arith) ∙ pow-split (levels - 1 - k) k in
    let e : i ≡ 2 ^ (levels - 1 - k) * 2 ^ k + (i - start_idx levels) = omega arith in
    rw e (climb-pow k (2 ^ (levels - 1 - k)) (i - start_idx levels) (omega arith))

-- Every ancestor of a leaf is stored, the leaf included, up to the height of the tree.
abbrev pub IsFilled : MerkleTree → Type 0
IsFilled m =
    (j k : ℕ)
    → start m ≤ j
    → j < m.index
    → k ≤ logarithm2 (m.index - start m)
    → IsStored (climb k j) m.tree

-- One more leaf adds at most one level, and then there were 2 ^ k leaves.
height-suc : (n k : ℕ) → 0 < n → k ≤ logarithm2 (suc n) → logarithm2 n < k → n < 2 ^ k
unfolding logarithm2
height-suc zero k p le gt = absurd (omega arith)
height-suc (suc n) k p le gt = omega (
  arith,
  lt-pow-bit_len (bit_len n) n (omega arith),
  two-pow-succ (bit_len n),
  pow-le-pow_right {n = 2} (omega arith) {i = suc (bit_len n)} {j = k} gt,
)

-- The tree after Insert at its end.
abbrev pub appended : ℤ → MerkleTree → MerkleTree
appended value m = written value m.index (counted m.index m)

pub index-appended : (m : MerkleTree) → (counted m.index m).index ≡ m.index + 1
index-appended m = ground arith

-- The path of the new leaf is stored.
appended-path :
    (value : ℤ) (m : MerkleTree) (k : ℕ)
    → k ≤ logarithm2 ((counted m.index m).index - start m)
    → IsStored (climb k m.index) (appended value m).tree
unfolding climb
appended-path value m zero h =
    rehash-IsStored m.hash_fn m.default_value m.index _ m.index _
      (insert-IsStored_self m.index value m.tree)
appended-path value m (suc k) h = rehash-IsStored-climb m.hash_fn m.default_value k _ m.index _ h

-- Above the height before, the new leaf and an older one have the same ancestor.
shared-ancestor :
    (m : MerkleTree) (j k : ℕ)
    → m.index < start m * 2
    → 0 < m.levels
    → start m ≤ j
    → j < m.index
    → k ≤ logarithm2 ((counted m.index m).index - start m)
    → logarithm2 (m.index - start m) < k
    → climb k j ≡ climb k m.index
shared-ancestor m j k room levels lo hi high over =
    let grown : (counted m.index m).index - start m ≡ suc (m.index - start m) =
      rw index-appended (omega arith) in
    let few : m.index - start m < 2 ^ k =
      height-suc (m.index - start m) k (omega arith) (rw grown at high) over in
    let fits : k + 1 ≤ m.levels = omega (
      arith,
      grown,
      logarithm2-le-levels m.levels ((counted m.index m).index - start m) levels
          (omega (arith, grown)),
    ) in
    climb-leaf m.levels k j fits lo (omega arith)
    ∙ sym (climb-leaf m.levels k m.index fits (omega arith) (omega arith))

-- Appending a leaf stores all of its ancestors and keeps those of the older leaves; a new level at
-- the top is an ancestor of the new leaf and of all the others.
pub appended-IsFilled :
    (value : ℤ) (m : MerkleTree)
    → m.index < start m * 2
    → IsConsistent m
    → IsFilled m
    → IsFilled (appended value m)
appended-IsFilled value m room c filled j k lo hi high = elim (Bool-cases (nat_beq j m.index)) [
  | inl last ↦ let e : j ≡ m.index = ground arith in rw e (appended-path value m k high)
  | inr other ↦
      let older : j < m.index = ground (arith, index-appended m) in
      elim (Bool-cases (ltb (logarithm2 (m.index - start m)) k)) [
        | inl over ↦
            rw (shared-ancestor m j k room c.levels_positive lo older high (ltb→lt _ _ over))
              (appended-path value m k high)
        | inr under ↦
            rehash-IsStored m.hash_fn m.default_value (climb k j) _ m.index _ (
              insert-IsStored (climb k j) m.index value m.tree (filled j k lo older (ground arith)))
      ]
]
