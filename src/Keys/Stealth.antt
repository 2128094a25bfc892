-- ===== src/Keys/Stealth.antt =====
-- cryptokeys/keys.go and keyutils.go: stealth addresses, in the old and the new style, and the
-- randomization that they start from.
pub mod Pairs
pub mod Randomization
use go_sdk_test.Common.{
  ℕ, zero, suc, ◌+◌, ◌*◌, ◌/◌, ◌%◌, ◌^◌, Bool, ◌&&◌, true, false, not, Option, none, some, List, [],
  ◌∷◌, String, ℤ, pos, ltb, leb_ℤ, ◌+ℤ◌, ◌*ℤ◌, ◌==◌, string_eq, int_eq, if◌then◌else◌, Result, ok,
  err, require, ◌>>=◌,
}
use go_sdk_test.Eddsa.{JubPoint, mod_nat, poseidon_big}
use go_sdk_test.Keys.{Crypto, KeysError, not_a_number, hash_failed, spending_key_size}

module _ (c : Crypto) where
  abbrev circom_p : ℕ
  circom_p = c.curve.field_p

  unfoldable pub is_circom_negative : ℤ → Bool
  is_circom_negative n = not (leb_ℤ n (pos (circom_p / 2)))

  unfoldable pub get_circom_sign : ℤ → ℤ
  unfolding is_circom_negative
  get_circom_sign n = if is_circom_negative n then pos 1 else pos 0

  unfoldable pub adjusted_private_key : String → Result KeysError ℕ
  unfolding mod_nat
  adjusted_private_key key = do
    pk ← require (c.parse_big_int key) not_a_number
    ok (mod_nat circom_p pk)

  unfoldable pub get_randomized_stealth_pair_old :
      ℤ → String → Result KeysError (JubPoint × JubPoint)
  unfolding adjusted_private_key mod_nat
  get_randomized_stealth_pair_old s key = do
    adjusted ← adjusted_private_key key
    ok (
      c.curve.mul s c.curve.b8,
      c.curve.mul (pos (mod_nat circom_p (s *ℤ pos adjusted))) c.curve.b8,
    )

  unfoldable pub get_randomized_stealth_pair : ℤ → String → Result KeysError (JubPoint × JubPoint)
  get_randomized_stealth_pair s key = do
    adjusted ← adjusted_private_key key
    ok (c.curve.mul s c.curve.b8, c.curve.mul (pos adjusted) (c.curve.mul s c.curve.b8))

  -- A point by its second coordinate and the sign of its first, in bit 255.
  unfoldable pub compressed : JubPoint → ℤ
  unfolding get_circom_sign
  compressed h = h.1 +ℤ pos (2 ^ 255) *ℤ get_circom_sign h.0

  unfoldable pub get_stealth_address_compressed_points : ℤ → String → Result KeysError (ℤ × ℤ)
  unfolding get_randomized_stealth_pair_old compressed
  get_stealth_address_compressed_points s key = do
    points ← get_randomized_stealth_pair_old s key
    ok (compressed points.0, compressed points.1)

  unfoldable pub check_signature : ℤ → ℤ → ℤ → String → Result KeysError Bool
  unfolding get_stealth_address_compressed_points
  check_signature s address_h0 address_h1 key = do
    points ← get_stealth_address_compressed_points s key
    ok (address_h0 == points.0 && address_h1 == points.1)

  unfoldable pub signs_of : JubPoint → JubPoint → ℤ
  unfolding get_circom_sign
  signs_of h0 h1 = pos 2 *ℤ get_circom_sign h0.0 +ℤ get_circom_sign h1.0

  unfoldable pub get_stealth_address : ℤ → String → Result KeysError String
  unfolding get_randomized_stealth_pair_old signs_of poseidon_big
  get_stealth_address s key = do
    points ← get_randomized_stealth_pair_old s key
    let (h0, h1) = points
    h ← require (poseidon_big c.curve (signs_of h0 h1 ∷ h0.1 ∷ h1.1 ∷ [])) hash_failed
    ok (c.to_be_hex h)

  unfoldable pub get_h1_from_h0 : JubPoint → String → Result KeysError JubPoint
  get_h1_from_h0 h0 key = do adjusted ← adjusted_private_key key; ok (c.curve.mul (pos adjusted) h0)

  unfoldable pub verify_stealth_pair : JubPoint → JubPoint → String → Bool → Result KeysError Bool
  verify_stealth_pair h0 h1 key only_y_check = do
    candidate ← get_h1_from_h0 h0 key
    ok (if only_y_check then candidate.1 == h1.1 else candidate.0 == h1.0 && candidate.1 == h1.1)

  -- The array of two numbers that the circuit takes as a spending key.
  unfoldable pub two_of : List ℤ → Option (ℤ × ℤ)
  two_of (x ∷ y ∷ []) = some (x, y)
  two_of xs = none

  unfoldable pub get_stealth_address_new_style :
      JubPoint → String → List ℤ → Result KeysError String
  unfolding two_of get_h1_from_h0 signs_of poseidon_big
  get_stealth_address_new_style h0 key spending_public_key = do
    spending ← require (two_of spending_public_key) spending_key_size
    h1 ← get_h1_from_h0 h0 key
    n ← require (c.parse_big_int key) not_a_number
    h ←
        require
          (poseidon_big c.curve (signs_of h0 h1 ∷ h0.1 ∷ h1.1 ∷ spending.0 ∷ spending.1 ∷ n ∷ []))
          hash_failed
    ok (c.to_be_hex h)

  unfoldable pub get_h0_from_randomization : ℤ → JubPoint
  get_h0_from_randomization randomization = c.curve.mul randomization c.curve.b8

  -- `none` is the nil point of a missing key.
  unfoldable pub find_h0 : ℤ → String → Result KeysError (Option JubPoint)
  unfolding get_randomized_stealth_pair
  find_h0 randomization key =
      if key == ""
      then ok none
      else do points ← get_randomized_stealth_pair randomization key; ok (some points.0)

  -- `s` and `sPk` of round `i`.
  unfoldable pub round_s : ℤ → ℕ → ℕ
  unfolding mod_nat
  round_s r i = mod_nat circom_p (r *ℤ pos (10 ^ i))

  unfoldable pub round_spk : ℤ → ℕ → ℕ → ℕ
  unfolding round_s
  round_spk r adjusted i = round_s r i * adjusted % circom_p

  unfoldable pub is_within : ℤ → ℕ → ℕ → Bool
  unfolding round_s round_spk
  is_within r adjusted i = ltb (round_spk r adjusted i) (2 ^ 253) && ltb (round_s r i) (2 ^ 253)

  -- The loop of FindCorrectRandomization on fuel; it has no bound of its own.
  unfoldable pub find_from : ℕ → ℤ → ℕ → ℕ → Option ℕ
  find_from zero r adjusted i = none
  find_from (suc fuel) r adjusted i = elim (is_within r adjusted i) [
    | true ↦ some (round_s r i)
    | false ↦ find_from fuel r adjusted (i + 1)
  ]

  -- `none` is a loop that has not ended.
  unfoldable pub find_correct_randomization : ℕ → ℤ → String → Result KeysError (Option ℕ)
  find_correct_randomization fuel r key = do
    adjusted ← adjusted_private_key key
    ok (find_from fuel r adjusted 0)
