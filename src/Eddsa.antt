-- ===== src/Eddsa.antt =====
-- internal/crypto: eddsa.go and poseidon.go. Keys and signatures on Baby Jubjub, over the curve and
-- the hashes of iden3.
pub mod Laws
pub mod Scalar
pub mod Tests
use go_sdk_test.Common.{
  ℕ, zero, suc, ◌+◌, ◌-◌, ◌*◌, ◌/◌, ◌%◌, Option, none, some, List, [], ◌∷◌, ◌++◌, ℤ, pos, negsuc,
  ltb, if◌then◌else◌, take, drop,
}

-- A point of Baby Jubjub by its two coordinates, types.JubPoint.
abbrev pub JubPoint : Type 0
JubPoint = ℤ × ℤ

-- What the files call: the modulus of the field and poseidon.Hash on its elements; Blake512, the
-- little-endian bytes of numbers, the base point, the multiplication and the order of babyjub.
pub record Curve : Type 0 where
  pub field_p : ℕ
  pub hash : List ℕ → Option ℕ
  pub blake_512 : List ℕ → List ℕ
  pub from_le_bytes : List ℕ → ℕ
  pub to_le_bytes : ℕ → List ℕ
  pub mul : ℤ → JubPoint → JubPoint
  pub b8 : JubPoint
  pub sub_order : ℕ

-- `Mod` of math/big, which is never negative.
unfoldable pub mod_nat : ℕ → ℤ → ℕ
mod_nat p (pos n) = n % p
mod_nat p (negsuc n) = p - 1 - n % p

-- `b & 0xF8`, and `b & 0x7F | 0x40`
unfoldable pub clear_low : ℕ → ℕ
clear_low b = b - b % 8

unfoldable pub set_high : ℕ → ℕ
set_high b = let low = b % 128 in if ltb low 64 then low + 64 else low

unfoldable pub update_at : (ℕ → ℕ) → ℕ → List ℕ → List ℕ
update_at f i [] = []
update_at f zero (b ∷ bs) = f b ∷ bs
update_at f (suc i) (b ∷ bs) = b ∷ update_at f i bs

unfoldable pub eddsa_prune_buffer : List ℕ → List ℕ
unfolding clear_low set_high update_at
eddsa_prune_buffer buf = update_at set_high 31 (update_at clear_low 0 buf)

module _ (c : Curve) where
  -- The loop of PoseidonBig.
  unfoldable pub reduce_all : List ℤ → List ℕ
  unfolding mod_nat
  reduce_all [] = []
  reduce_all (x ∷ xs) = mod_nat c.field_p x ∷ reduce_all xs

  unfoldable pub poseidon_big : List ℤ → Option ℕ
  unfolding reduce_all
  poseidon_big inputs = c.hash (reduce_all inputs)

  unfoldable pub eddsa_scalar : List ℕ → ℕ
  unfolding eddsa_prune_buffer
  eddsa_scalar prv = c.from_le_bytes (eddsa_prune_buffer (take 32 (c.blake_512 prv)))

  unfoldable pub eddsa_prv_2_pub : List ℕ → JubPoint
  unfolding eddsa_scalar
  eddsa_prv_2_pub prv = c.mul (pos (eddsa_scalar prv / 8)) c.b8

  -- The nonce of a signature, from the second half of the hash of the key.
  unfoldable pub eddsa_nonce : List ℕ → ℕ → ℕ
  eddsa_nonce prv msg =
      c.from_le_bytes (c.blake_512 (drop 32 (c.blake_512 prv) ++ c.to_le_bytes msg)) % c.sub_order

  -- The lines behind the hash: `Lsh(s, 3)` is 8 s.
  unfoldable pub eddsa_s : ℕ → ℕ → ℕ → ℕ
  eddsa_s r hm s = (r + hm * (s * 8)) % c.sub_order

  unfoldable pub eddsa_sign_poseidon : List ℕ → ℕ → Option (JubPoint × ℕ)
  eddsa_sign_poseidon prv msg =
      let a = eddsa_prv_2_pub prv in
      let s = eddsa_scalar prv / 8 in
      let r = eddsa_nonce prv msg in
      let r8 = c.mul (pos r) c.b8 in
      elim (poseidon_big (r8.0 ∷ r8.1 ∷ a.0 ∷ a.1 ∷ pos msg ∷ [])) [
        | none ↦ none
        | some hm ↦ some (r8, eddsa_s r hm s)
      ]
