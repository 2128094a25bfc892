-- ===== src/Common/Bits.antt =====
-- `big.Int.BitLen`, by halving as `Rsh(n, 1)` does, and its laws.
use Prim.Native.Nat.{ℕ, zero, suc, ◌/◌, ◌^◌, ◌≤◌, ◌<◌}
use mathlib.Core.Path.{◌≡◌, refl}
use mathlib.Core.Bool.{true, false}
use native.Mathlib.Omega.{arith}
use native.Mathlib.Nat.{two-pow-succ}
use go_sdk_test.Common.Tests.{nat_beq}

bit_len_from : ℕ → ℕ → ℕ
bit_len_from zero n = 0
bit_len_from (suc f) n = elim (nat_beq n 0) [ true ↦ 0 | false ↦ suc (bit_len_from f (n / 2)) ]

-- A number has at most as many bits as its value, so the value is fuel enough.
unfoldable pub bit_len : ℕ → ℕ
unfolding bit_len_from
bit_len n = bit_len_from n n

bit_len_from_fuel : (f g n : ℕ) → n ≤ f → n ≤ g → bit_len_from f n ≡ bit_len_from g n
unfolding bit_len_from
bit_len_from_fuel zero zero n p q = refl
bit_len_from_fuel zero (suc g) n p q = ground arith
bit_len_from_fuel (suc f) zero n p q = ground arith
bit_len_from_fuel (suc f) (suc g) n p q = ground (arith, bit_len_from_fuel f g (n / 2))

pub bit_len_zero : bit_len 0 ≡ 0
unfolding bit_len
bit_len_zero = refl

-- Halving drops one bit.
pub bit_len_half : (n : ℕ) → 0 < n → bit_len n ≡ suc (bit_len (n / 2))
unfolding bit_len
bit_len_half zero h = absurd (omega arith)
bit_len_half (suc n) h = ground (arith, bit_len_from_fuel n (suc n / 2) (suc n / 2))

pub bit_len-le : (k n : ℕ) → n < 2 ^ k → bit_len n ≤ k
bit_len-le zero n h = let e : n ≡ 0 = omega arith in rw e (rw bit_len_zero (omega arith))
bit_len-le (suc k) zero h = rw bit_len_zero (omega arith)
bit_len-le (suc k) (suc n) h = omega (
  arith,
  bit_len_half (suc n) (omega arith),
  two-pow-succ k,
  bit_len-le k (suc n / 2) (omega (arith, two-pow-succ k)),
)

pub lt-pow-bit_len : (k n : ℕ) → bit_len n ≤ k → n < 2 ^ k
lt-pow-bit_len zero zero h = omega arith
lt-pow-bit_len zero (suc n) h = absurd (omega (arith, bit_len_half (suc n) (omega arith)))
lt-pow-bit_len (suc k) zero h = omega (arith, lt-pow-bit_len k zero, two-pow-succ k, bit_len_zero)
lt-pow-bit_len (suc k) (suc n) h = omega (
  arith,
  bit_len_half (suc n) (omega arith),
  two-pow-succ k,
  lt-pow-bit_len k (suc n / 2) (omega (arith, bit_len_half (suc n) (omega arith))),
)

pub bit_len_mono : (n m : ℕ) → n ≤ m → bit_len n ≤ bit_len m
bit_len_mono n m h =
    bit_len-le (bit_len m) n (omega (arith, lt-pow-bit_len (bit_len m) m (omega arith)))

-- The numbers from 2 ^ k up to 2 ^ (k + 1) have k + 1 bits.
pub bit_len_of_range : (k n : ℕ) → 2 ^ k ≤ n → n < 2 ^ suc k → bit_len n ≡ suc k
bit_len_of_range k n lo hi = ground (arith, bit_len-le (suc k) n hi, lt-pow-bit_len k n)
