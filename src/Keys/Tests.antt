-- ===== src/Keys/Tests.antt =====
-- Runs over a toy curve and toy hashes.
use go_sdk_test.Common.{
  ℕ, ◌≡◌, refl, true, false, none, some, [], ◌∷◌, pos, replicate, map, arith, ok, err, string_eq,
  ◌≤◌, ◌^◌, ◌*ℤ◌,
}
use go_sdk_test.Eddsa.{mod_nat}
use go_sdk_test.Eddsa.Tests.{toy}
use go_sdk_test.Common.Stateful.{◌>>=◌, guard}
use go_sdk_test.Keys.{
  Crypto, UserKeys, EddsaSignature, new_user_keys, set_signature, require_key_material,
  shielded_key_of, keep_shielded_key, get_shielded_private_key, no_key_material,
}
use go_sdk_test.Keys.Verify.{lower_recovery_id}
use go_sdk_test.Keys.Calls.{answer, answer_all, shielded_private_key, access_key, answer_all-eq-map}
use go_sdk_test.Keys.Stealth.{
  adjusted_private_key, get_randomized_stealth_pair, get_h1_from_h0, verify_stealth_pair, is_within,
  round_s, round_spk, find_correct_randomization,
}
use go_sdk_test.Keys.Stealth.Randomization.{
  IsWithin, AreBeyond, multiple, find_correct_randomization-returns,
}

abbrev plain : Crypto
plain = record {
  curve = toy;
  parse_big_int = λ s. some (pos 3);
  to_be_hex = λ n. "0x05";
  from_hex = λ s. replicate 32 1;
  encode_hex = λ bs. "ab";
  bytes_of = λ s. [];
  keccak256 = λ bs. bs;
  base_58 = λ bs. "b58";
  from_base_58 = λ s. none;
  key_from_seed = λ s. s;
  ed25519_verify = λ k m s. true;
  ecdsa_address = λ s. some "address";
  text_hash = λ bs. bs;
  recover_address = λ h s. none;
  evm_to_tron = λ s. some s;
  to_tron_if_hex = λ s. some s;
  itoa = λ n. "0";
}

abbrev keys : UserKeys
keys = record { signature = "0x01"; nullifying_key = "" }

kept : get_shielded_private_key plain keys ≡ (ok "0xab", record keys { nullifying_key = "0xab" })
unfolding get_shielded_private_key require_key_material keep_shielded_key shielded_key_of guard
    ◌>>=◌
kept = refl

nothing_to_derive :
    get_shielded_private_key plain (new_user_keys "") ≡ (err no_key_material, new_user_keys "")
unfolding get_shielded_private_key require_key_material keep_shielded_key guard ◌>>=◌ new_user_keys
nothing_to_derive = refl

recovered : lower_recovery_id 1 (5 ∷ 28 ∷ []) ≡ 5 ∷ 1 ∷ []
unfolding lower_recovery_id
recovered = refl

-- A signature that is set after the key was kept leaves the key of the signature before.
set_too_late :
    (get_shielded_private_key plain
      (set_signature "0x02" (record keys { nullifying_key = "0xab" }))).0
    ≡ ok "0xab"
unfolding get_shielded_private_key set_signature
set_too_late = refl

answer_all-eq-map_example :
    answer_all plain (access_key ∷ shielded_private_key ∷ access_key ∷ []) keys
    ≡ map (λ q. (answer plain q keys).0) (access_key ∷ shielded_private_key ∷ access_key ∷ [])
answer_all-eq-map_example =
    answer_all-eq-map plain (access_key ∷ shielded_private_key ∷ access_key ∷ []) keys

abbrev toy_signed : EddsaSignature
toy_signed = record { r8 = (pos 4, pos 0); s = 1 }

pair_made : get_randomized_stealth_pair plain (pos 2) "0x03" ≡ ok ((pos 2, pos 0), (pos 6, pos 0))
unfolding get_randomized_stealth_pair adjusted_private_key mod_nat
pair_made = refl

pair_accepted : verify_stealth_pair plain (pos 2, pos 0) (pos 6, pos 0) "0x03" false ≡ ok true
unfolding verify_stealth_pair get_h1_from_h0 adjusted_private_key mod_nat
pair_accepted = refl

-- The field of 2^254 elements stands for that of the curve.
abbrev wide : Crypto
wide = record plain { curve = record toy { field_p = 2 ^ 254 } }

parsed : adjusted_private_key wide "0x03" ≡ ok 3
unfolding adjusted_private_key mod_nat
parsed = refl

too_wide : is_within wide (pos (2 ^ 253)) 3 0 ≡ false
unfolding is_within round_s round_spk ◌*ℤ◌ mod_nat
too_wide = refl

second_round : IsWithin wide (pos (2 ^ 253)) 3 1
unfolding ◌*ℤ◌ mod_nat
second_round = (omega arith, omega arith)

find_correct_randomization-returns_example :
    (j : ℕ) × (j ≤ 1)
    × IsWithin wide (pos (2 ^ 253)) 3 j
    × AreBeyond wide (pos (2 ^ 253)) 3 j 0
    × (find_correct_randomization wide 2 (pos (2 ^ 253)) "0x03"
        ≡ ok (some (multiple wide (pos (2 ^ 253)) 3 j)))
    × (find_correct_randomization wide 1 (pos (multiple wide (pos (2 ^ 253)) 3 j)) "0x03"
        ≡ ok (some (multiple wide (pos (2 ^ 253)) 3 j)))
find_correct_randomization-returns_example =
    find_correct_randomization-returns wide (pos (2 ^ 253)) "0x03" 3 1 2 parsed second_round
      (omega arith)
