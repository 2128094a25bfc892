-- ===== src/Merkle/Levels.antt =====
-- The level of a node by its bit length, and how the climb of forceInsert moves through the levels.
use go_sdk_test.Common.{ℕ, zero, suc, ◌+◌, ◌-◌, ◌*◌, ◌/◌, ◌^◌, ◌≤◌, ◌<◌, ◌≡◌, arith}
use go_sdk_test.Common.Bits.{
  bit_len, bit_len_half, bit_len_zero, bit_len-le, bit_len_mono, bit_len_of_range, lt-pow-bit_len,
}
use go_sdk_test.Merkle.{start_idx, logarithm2}
use native.Mathlib.Nat.{two-pow-succ, one-le-pow}

-- The ancestor `k` levels up: `k` times `cur.Rsh(cur, 1)`.
unfoldable pub climb : ℕ → ℕ → ℕ
climb zero i = i
climb (suc k) i = climb k (i / 2)

pub bit_len-half-le : (n : ℕ) → bit_len (n / 2) ≤ bit_len n - 1
bit_len-half-le zero = omega (arith, bit_len_zero)
bit_len-half-le (suc n) = omega (arith, bit_len_half (suc n) (omega arith))

pub positive_of_bit_len : (n : ℕ) → 1 ≤ bit_len n → 0 < n
positive_of_bit_len zero h = absurd (omega (arith, bit_len_zero))
positive_of_bit_len (suc n) h = omega arith

pub bit_len-climb : (k n : ℕ) → bit_len (climb k n) ≤ bit_len n - k
unfolding climb
bit_len-climb zero n = omega arith
bit_len-climb (suc k) n = omega (arith, bit_len-climb k (n / 2), bit_len-half-le n)

pub logarithm2_mono : (n m : ℕ) → n ≤ m → logarithm2 n ≤ logarithm2 m
unfolding logarithm2
logarithm2_mono zero m h = omega arith
logarithm2_mono (suc n) zero h = absurd (omega arith)
logarithm2_mono (suc n) (suc m) h = bit_len_mono n m (omega arith)

-- A tree of at most 2 ^ k leaves is at most k levels high.
pub logarithm2-le : (k n : ℕ) → n ≤ 2 ^ k → logarithm2 n ≤ k
unfolding logarithm2
logarithm2-le k zero h = omega arith
logarithm2-le k (suc n) h = bit_len-le k n (omega arith)

pub start_idx-positive : (levels : ℕ) → 0 < start_idx levels
unfolding start_idx
start_idx-positive levels = one-le-pow (levels - 1) 2 (omega arith)

-- The leaves of a tree have as many bits as it has levels.
pub bit_len-leaf :
    (levels i : ℕ)
    → 0 < levels
    → start_idx levels ≤ i
    → i < start_idx levels * 2
    → bit_len i ≡ levels
unfolding start_idx
bit_len-leaf zero i p lo hi = absurd (omega arith)
bit_len-leaf (suc k) i p lo hi =
    let e : suc k - 1 ≡ k = omega arith in
    let lo' : 2 ^ k ≤ i = rw e at lo in
    let hi' : i < 2 ^ k * 2 = rw e at hi in bit_len_of_range k i lo' (omega (arith, two-pow-succ k))

pub logarithm2-le-levels :
    (levels n : ℕ) → 0 < levels → n ≤ start_idx levels → logarithm2 n + 1 ≤ levels
unfolding start_idx
logarithm2-le-levels levels n p h = omega (arith, logarithm2-le (levels - 1) n h)

-- The tree is high enough for its leaves.
pub le-pow-logarithm2 : (n : ℕ) → n ≤ 2 ^ logarithm2 n
unfolding logarithm2
le-pow-logarithm2 zero = omega arith
le-pow-logarithm2 (suc n) = lt-pow-bit_len (bit_len n) n (omega arith)
