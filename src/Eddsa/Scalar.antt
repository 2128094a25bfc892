-- ===== src/Eddsa/Scalar.antt =====
-- The scalar of a private key in internal/crypto/eddsa.go: what eddsaPruneBuffer makes of the hash.
use go_sdk_test.Common.{
  ℕ, zero, suc, ◌+◌, ◌*◌, ◌/◌, ◌%◌, ◌^◌, ◌≤◌, ◌<◌, ◌≡◌, List, [], ◌∷◌, arith, take, length,
  length-take,
}
use native.Mathlib.Nat.{pow-succ'}
use go_sdk_test.Eddsa.{Curve, clear_low, set_high, update_at, eddsa_prune_buffer, eddsa_scalar}

-- The number that a list of bytes spells, the lowest first.
unfoldable pub le_value : List ℕ → ℕ
le_value [] = 0
le_value (b ∷ bs) = b + 256 * le_value bs

-- Bytes are below 256.
abbrev pub AreBytes : List ℕ → Type 0
AreBytes [] = Unit
AreBytes (b ∷ bs) = (b < 256) × AreBytes bs

set_high_bounds : (b : ℕ) → (64 ≤ set_high b) × (set_high b < 128)
unfolding set_high
set_high_bounds b = ground arith

clear_low_multiple : (b : ℕ) → clear_low b % 8 ≡ 0
unfolding clear_low
clear_low_multiple b = omega arith

clear_low_byte : (b : ℕ) → b < 256 → clear_low b < 256
unfolding clear_low
clear_low_byte b h = omega arith

-- A number of `i + 1` bytes, of which the last is changed by `f`.
last_byte_bounds :
    (i : ℕ) (bs : List ℕ)
    → AreBytes bs
    → length bs ≡ suc i
    → (64 * 256 ^ i ≤ le_value (update_at set_high i bs))
      × (le_value (update_at set_high i bs) < 128 * 256 ^ i)
unfolding le_value update_at
last_byte_bounds i [] h n = absurd (omega arith)
last_byte_bounds zero (b ∷ []) (p, h) n = omega (arith, set_high_bounds b)
last_byte_bounds zero (b ∷ b' ∷ bs) h n = absurd (omega arith)
last_byte_bounds (suc i) (b ∷ bs) (p, h) n =
    let (low, high) = last_byte_bounds i bs h (omega arith) in
    rw (pow-succ' 256 i) (omega arith, omega arith)

-- The pruned buffer of 32 bytes is a multiple of 8 with its highest bit in place 254.
prune_bounds :
    (bs : List ℕ)
    → AreBytes bs
    → length bs ≡ 32
    → (le_value (eddsa_prune_buffer bs) % 8 ≡ 0)
      × (2 ^ 254 ≤ le_value (eddsa_prune_buffer bs))
      × (le_value (eddsa_prune_buffer bs) < 2 ^ 255)
unfolding eddsa_prune_buffer update_at le_value
prune_bounds [] h n = absurd (omega arith)
prune_bounds (b ∷ bs) (p, h) n =
    let (low, high) = last_byte_bounds 30 bs h (omega arith) in
    let multiple = clear_low_multiple b in
    let byte = clear_low_byte b p in (omega arith, omega arith, omega arith)

take-AreBytes : (n : ℕ) (bs : List ℕ) → AreBytes bs → AreBytes (take n bs)
take-AreBytes zero bs h = tt
take-AreBytes (suc n) [] h = tt
take-AreBytes (suc n) (b ∷ bs) (p, h) = (p, take-AreBytes n bs h)

-- Where Blake512 gives at least 32 bytes, and the little-endian reading is the usual one, the scalar of
-- every private key is a multiple of 8 from 2^254 up to 2^255, so that the eighth of it, by which
-- EddsaPrv2Pub multiplies the base point, times 8 is the scalar again, as EddsaSignPoseidon needs.
pub eddsa_scalar_bounds :
    (c : Curve) (prv : List ℕ)
    → AreBytes (c.blake_512 prv)
    → 32 ≤ length (c.blake_512 prv)
    → ((bs : List ℕ) → c.from_le_bytes bs ≡ le_value bs)
    → (eddsa_scalar c prv / 8 * 8 ≡ eddsa_scalar c prv)
      × (2 ^ 254 ≤ eddsa_scalar c prv)
      × (eddsa_scalar c prv < 2 ^ 255)
unfolding eddsa_scalar
eddsa_scalar_bounds c prv bytes long reads =
    let taken = take 32 (c.blake_512 prv) in
    let size : length taken ≡ 32 = omega (arith, length-take 32 (c.blake_512 prv)) in
    let (multiple, low, high) = prune_bounds taken (take-AreBytes 32 _ bytes) size in
    rw (reads (eddsa_prune_buffer taken)) (omega arith, low, high)
