-- ===== src/Keys.antt =====
-- cryptokeys/keys.go and keyutils.go: the keys of a user. A method of `*UserKeys` returns its answer
-- and the keys it leaves, since the shielded private key is computed on first use and kept.
pub mod Derived
pub mod Verify
pub mod Steady
pub mod Methods
pub mod Calls
pub mod Signed
pub mod Stealth
pub mod Tests
use Prim.Native.String.{◌++◌ as append_text}
use go_sdk_test.Common.{
  ℕ, ◌+◌, ◌-◌, ◌%◌, Bool, true, false, ◌&&◌, Option, none, some, List, [], ◌∷◌, String, ℤ, pos,
  negsuc, ◌==◌, string_eq, Result, ok, err,
}
use go_sdk_test.Common.Stateful.{Stateful, ◌>>=◌, ◌>>◌, or_fail, return, guard}
use go_sdk_test.Eddsa.{Curve, JubPoint, mod_nat, poseidon_big, eddsa_prv_2_pub, eddsa_sign_poseidon}

-- The errors of the package, and those it passes on.
pub data KeysError : Type 0 where
  no_signature no_key_material not_a_number hash_failed signer_seed_size shielded_seed_size
        bad_ecdsa_key signature_size not_recoverable bad_base58 public_key_size bad_tron_address
        spending_key_size :
      KeysError

-- types.SpendingKeyPair
pub record SpendingKeyPair : Type 0 where
  pub priv_spending_key : String
  pub pub_spending_bjj_point : JubPoint

-- types.EddsaSignature
pub record EddsaSignature : Type 0 where
  pub r8 : JubPoint
  pub s : ℕ

-- What the package calls: the curve, texts as numbers and as bytes, hashes, and the signature
-- schemes of the chains.
pub record Crypto : Type 0 where
  pub curve : Curve
  pub parse_big_int : String → Option ℤ
  pub to_be_hex : ℕ → String
  pub from_hex : String → List ℕ
  pub encode_hex : List ℕ → String
  pub bytes_of : String → List ℕ
  pub keccak256 : List ℕ → List ℕ
  pub base_58 : List ℕ → String
  pub from_base_58 : String → Option (List ℕ)
  pub key_from_seed : List ℕ → List ℕ
  pub ed25519_verify : List ℕ → List ℕ → List ℕ → Bool
  pub ecdsa_address : String → Option String
  pub text_hash : List ℕ → List ℕ
  pub recover_address : List ℕ → List ℕ → Option String
  pub evm_to_tron : String → Option String
  pub to_tron_if_hex : String → Option String
  pub itoa : ℕ → String

pub record UserKeys : Type 0 where
  pub signature : String
  pub nullifying_key : String

unfoldable pub new_user_keys : String → UserKeys
new_user_keys signature = record { signature = signature; nullifying_key = "" }

unfoldable pub new_user_keys_with : String → String → UserKeys
new_user_keys_with signature key = record { signature = signature; nullifying_key = key }

unfoldable pub new_user_keys_from : String → UserKeys
new_user_keys_from key = record { signature = ""; nullifying_key = key }

-- A method: an answer or an error, and the keys afterwards.
abbrev pub Keyed : Type 0 → Type 0
Keyed A = Stateful KeysError UserKeys A

unfoldable pub require_signature : Keyed (Unit {0})
unfolding guard
require_signature u = guard (u.signature == "") no_signature u

unfoldable pub require_key_material : Keyed (Unit {0})
unfolding guard
require_key_material u = guard (u.signature == "" && u.nullifying_key == "") no_key_material u

unfoldable pub get_signature : Keyed String
unfolding require_signature
get_signature = do require_signature; λ u. (ok u.signature, u)

unfoldable pub set_signature : String → UserKeys → UserKeys
set_signature signature u = record u { signature = signature }

module _ (c : Crypto) where
  unfoldable pub shielded_key_of : String → String
  shielded_key_of signature = append_text "0x" (c.encode_hex (c.keccak256 (c.from_hex signature)))

  -- The last two lines of GetShieldedPrivateKey.
  unfoldable pub keep_shielded_key : Keyed String
  unfolding shielded_key_of
  keep_shielded_key u =
      let key = shielded_key_of u.signature in (ok key, record u { nullifying_key = key })

  unfoldable pub get_shielded_private_key : Keyed String
  unfolding require_key_material keep_shielded_key
  get_shielded_private_key u = elim (u.nullifying_key == "") [
    | false ↦ (ok u.nullifying_key, u)
    | true ↦ (require_key_material >> keep_shielded_key) u
  ]

  unfoldable pub get_shielded_public_key : Keyed String
  unfolding get_shielded_private_key poseidon_big
  get_shielded_public_key = do
    spk ← get_shielded_private_key
    n ← or_fail (c.parse_big_int spk) not_a_number
    h ← or_fail (poseidon_big c.curve (n ∷ [])) hash_failed
    return (c.to_be_hex h)

  unfoldable pub get_spending_key_pair : Keyed SpendingKeyPair
  unfolding require_signature get_signature poseidon_big eddsa_prv_2_pub
  get_spending_key_pair = do
    require_signature
    signature ← get_signature
    n ← or_fail (c.parse_big_int signature) not_a_number
    h ← or_fail (poseidon_big c.curve (pos 1 ∷ n ∷ [])) hash_failed
    return (record {
      priv_spending_key = c.to_be_hex h;
      pub_spending_bjj_point = eddsa_prv_2_pub c.curve (c.from_hex (c.to_be_hex h));
    })

  unfoldable pub sign_eddsa : ℤ → Keyed EddsaSignature
  unfolding require_signature get_spending_key_pair mod_nat eddsa_sign_poseidon
  sign_eddsa message = do
    require_signature
    pair ← get_spending_key_pair
    signed ←
        or_fail
          (eddsa_sign_poseidon c.curve (c.from_hex pair.priv_spending_key)
            (mod_nat c.curve.field_p message))
          hash_failed
    return (record { r8 = signed.0; s = signed.1 })
