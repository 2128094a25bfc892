-- ===== src/Keys/Methods.antt =====
-- Every method of a user's keys is steady: it answers the same with the shielded private key kept.
use go_sdk_test.Common.{refl, inl, String, string_eq, arith, ℤ, List}
use go_sdk_test.Common.Stateful.{◌>>=◌, guard}
use go_sdk_test.Keys.{
  Crypto, require_signature, require_key_material, get_signature, keep_shielded_key,
  get_shielded_private_key, get_shielded_public_key, get_spending_key_pair, sign_eddsa,
}
use go_sdk_test.Keys.Derived.{
  poseidon_seed, poseidon_hash_hex, derived_key_from_nonce, get_signer_private_key_from_nonce,
  get_signer_solana_private_key_from_nonce, get_derived_ethereum_address, derived_solana_keypair,
  get_access_key, get_backend_token,
}
use go_sdk_test.Keys.Verify.{
  signature_of, verify_message, verify_solana_message, verify_tron_message,
}
use go_sdk_test.Keys.Steady.{settle, IsSteady, settled_key_not_empty, settle_signature, answering}

module _ (c : Crypto) where
  require_signature-IsSteady : IsSteady c require_signature
  unfolding require_signature guard settle
  require_signature-IsSteady = record { leaves = λ u. ground arith; answers = λ u. ground arith }

  require_key_material-IsSteady : IsSteady c require_key_material
  unfolding require_key_material guard settle
  require_key_material-IsSteady = record {
    leaves = λ u. ground (arith, settled_key_not_empty c u.signature);
    answers = λ u. ground (arith, settled_key_not_empty c u.signature);
  }

  signature-IsSteady : IsSteady c signature_of
  signature-IsSteady = record { leaves = λ u. inl refl; answers = λ u. rw (settle_signature c u) }

  pub shielded_private_key-IsSteady : IsSteady c (get_shielded_private_key c)
  unfolding get_shielded_private_key require_key_material keep_shielded_key guard settle ◌>>=◌
  shielded_private_key-IsSteady = record {
    leaves = λ u. ground (arith, settled_key_not_empty c u.signature);
    answers = λ u. ground (arith, settled_key_not_empty c u.signature);
  }

  pub get_signature-IsSteady : IsSteady c (get_signature)
  unfolding get_signature
  get_signature-IsSteady = search (answering, require_signature-IsSteady, signature-IsSteady)

  pub shielded_public_key-IsSteady : IsSteady c (get_shielded_public_key c)
  unfolding get_shielded_public_key
  shielded_public_key-IsSteady = search (answering, shielded_private_key-IsSteady)

  pub spending_key_pair-IsSteady : IsSteady c (get_spending_key_pair c)
  unfolding get_spending_key_pair
  spending_key_pair-IsSteady =
      search (answering, require_signature-IsSteady, get_signature-IsSteady)

  pub sign_eddsa-IsSteady : (m : ℤ) → IsSteady c (sign_eddsa c m)
  unfolding sign_eddsa
  sign_eddsa-IsSteady m = search (answering, require_signature-IsSteady, spending_key_pair-IsSteady)

  poseidon_hash_hex-IsSteady : (ss : List String) → IsSteady c (poseidon_hash_hex c ss)
  unfolding poseidon_hash_hex
  poseidon_hash_hex-IsSteady ss = search answering

  poseidon_seed-IsSteady : (n : ℤ) → IsSteady c (poseidon_seed c n)
  unfolding poseidon_seed
  poseidon_seed-IsSteady n =
      search (answering, shielded_private_key-IsSteady, shielded_public_key-IsSteady) depth 8

  pub derived_key-IsSteady : (n : ℤ) (s : String) → IsSteady c (derived_key_from_nonce c n s)
  unfolding derived_key_from_nonce
  derived_key-IsSteady n s =
      search (answering, require_key_material-IsSteady, poseidon_seed-IsSteady)

  pub signer_private_key-IsSteady : (n : ℤ) → IsSteady c (get_signer_private_key_from_nonce c n)
  unfolding get_signer_private_key_from_nonce
  signer_private_key-IsSteady n =
      search (answering, require_key_material-IsSteady, poseidon_seed-IsSteady)

  pub signer_solana_private_key-IsSteady :
      (n : ℤ) → IsSteady c (get_signer_solana_private_key_from_nonce c n)
  unfolding get_signer_solana_private_key_from_nonce
  signer_solana_private_key-IsSteady n = search (answering, signer_private_key-IsSteady)

  pub ethereum_address-IsSteady : IsSteady c (get_derived_ethereum_address c)
  unfolding get_derived_ethereum_address
  ethereum_address-IsSteady = search (answering, shielded_private_key-IsSteady)

  pub solana_keypair-IsSteady : IsSteady c (derived_solana_keypair c)
  unfolding derived_solana_keypair
  solana_keypair-IsSteady =
      search (answering, require_key_material-IsSteady, shielded_private_key-IsSteady)

  pub access_key-IsSteady : IsSteady c (get_access_key c)
  unfolding get_access_key
  access_key-IsSteady = search (
    answering, require_key_material-IsSteady, shielded_private_key-IsSteady,
    shielded_public_key-IsSteady, poseidon_hash_hex-IsSteady,
  )

  pub backend_token-IsSteady : IsSteady c (get_backend_token c)
  unfolding get_backend_token
  backend_token-IsSteady = search (
    answering, require_key_material-IsSteady, access_key-IsSteady, shielded_public_key-IsSteady,
    poseidon_hash_hex-IsSteady,
  )

  pub verify_message-IsSteady : (m : String) → IsSteady c (verify_message c m)
  unfolding verify_message
  verify_message-IsSteady m = search (answering, require_signature-IsSteady, signature-IsSteady)

  pub verify_solana_message-IsSteady : (m k : String) → IsSteady c (verify_solana_message c m k)
  unfolding verify_solana_message
  verify_solana_message-IsSteady m k =
      search (answering, require_signature-IsSteady, signature-IsSteady)

  pub verify_tron_message-IsSteady : (m a : String) → IsSteady c (verify_tron_message c m a)
  unfolding verify_tron_message
  verify_tron_message-IsSteady m a =
      search (answering, require_signature-IsSteady, signature-IsSteady) depth 9

pub ruleset methods = (
  get_signature-IsSteady, shielded_private_key-IsSteady, shielded_public_key-IsSteady,
  ethereum_address-IsSteady, solana_keypair-IsSteady, access_key-IsSteady, backend_token-IsSteady,
  spending_key_pair-IsSteady, derived_key-IsSteady, signer_private_key-IsSteady,
  signer_solana_private_key-IsSteady, sign_eddsa-IsSteady, verify_message-IsSteady,
  verify_solana_message-IsSteady, verify_tron_message-IsSteady,
)
