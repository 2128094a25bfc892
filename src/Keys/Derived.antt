-- ===== src/Keys/Derived.antt =====
-- cryptokeys/keys.go: the keys, addresses and tokens derived from the shielded private key.
use Prim.Native.String.{◌++◌ as append_text}
use go_sdk_test.Common.{
  ℕ, not, List, [], ◌∷◌, String, ℤ, length, drop, ◌==◌, nat_eq, Option, none, some,
}
use go_sdk_test.Common.Stateful.{◌>>=◌, ◌>>◌, or_fail, return, guard}
use go_sdk_test.Keys.{
  Crypto, Keyed, require_key_material, get_shielded_private_key, get_shielded_public_key,
  not_a_number, hash_failed, signer_seed_size, shielded_seed_size, bad_ecdsa_key,
}
use go_sdk_test.Eddsa.{poseidon_big}

module _ (c : Crypto) where
  unfoldable pub keccak256_utf8 : String → String
  keccak256_utf8 s = append_text "0x" (c.encode_hex (c.keccak256 (c.bytes_of s)))

  -- The loop of poseidonHashHex.
  unfoldable pub parse_all : List String → Option (List ℤ)
  parse_all [] = some []
  parse_all (s ∷ ss) = elim (c.parse_big_int s) [
    | none ↦ none
    | some n ↦ elim (parse_all ss) [ none ↦ none | some ns ↦ some (n ∷ ns) ]
  ]

  unfoldable pub poseidon_hash_hex : List String → Keyed String
  unfolding parse_all poseidon_big
  poseidon_hash_hex inputs = do
    ns ← or_fail (parse_all inputs) not_a_number
    h ← or_fail (poseidon_big c.curve ns) hash_failed
    return (c.to_be_hex h)

  unfoldable pub poseidon_seed : ℤ → Keyed String
  unfolding get_shielded_private_key get_shielded_public_key poseidon_big
  poseidon_seed nonce = do
    priv ← get_shielded_private_key c
    pub_key ← get_shielded_public_key c
    priv_big ← or_fail (c.parse_big_int priv) not_a_number
    pub_big ← or_fail (c.parse_big_int pub_key) not_a_number
    seed ← or_fail (poseidon_big c.curve (nonce ∷ priv_big ∷ pub_big ∷ [])) hash_failed
    return (c.to_be_hex seed)

  unfoldable pub derived_key_from_nonce : ℤ → String → Keyed String
  unfolding require_key_material poseidon_seed keccak256_utf8
  derived_key_from_nonce nonce scope = do
    require_key_material
    seed ← poseidon_seed nonce
    return (keccak256_utf8 (append_text scope (append_text ":" seed)))

  unfoldable pub get_shielded_private_key_from_nonce : ℤ → Keyed String
  unfolding derived_key_from_nonce
  get_shielded_private_key_from_nonce nonce =
      derived_key_from_nonce nonce "hinkal-offchain-shielded-key"

  unfoldable pub get_claimable_signature_from_nonce : ℤ → Keyed String
  unfolding derived_key_from_nonce
  get_claimable_signature_from_nonce nonce =
      derived_key_from_nonce nonce "hinkal-claimable-utxo-signature"

  unfoldable pub get_signer_private_key_from_nonce : ℤ → Keyed String
  unfolding require_key_material poseidon_seed keccak256_utf8
  get_signer_private_key_from_nonce wallet_nonce = do
    require_key_material
    seed ← poseidon_seed wallet_nonce
    return (keccak256_utf8 seed)

  unfoldable pub get_signer_solana_private_key_from_nonce : ℤ → Keyed String
  unfolding get_signer_private_key_from_nonce
  get_signer_solana_private_key_from_nonce wallet_nonce = do
    private_key ← get_signer_private_key_from_nonce wallet_nonce
    guard (not (length (c.from_hex private_key) == 32)) signer_seed_size
    return (c.base_58 (c.key_from_seed (c.from_hex private_key)))

  -- strings.TrimPrefix, HexToECDSA, PubkeyToAddress and Hex.
  unfoldable pub get_derived_ethereum_address : Keyed String
  unfolding get_shielded_private_key
  get_derived_ethereum_address = do
    priv ← get_shielded_private_key c
    or_fail (c.ecdsa_address priv) bad_ecdsa_key

  unfoldable pub derived_solana_keypair : Keyed (List ℕ)
  unfolding require_key_material get_shielded_private_key
  derived_solana_keypair = do
    require_key_material
    priv ← get_shielded_private_key c
    guard (not (length (c.from_hex priv) == 32)) shielded_seed_size
    return (c.key_from_seed (c.from_hex priv))

  unfoldable pub get_derived_solana_public_key : Keyed String
  unfolding derived_solana_keypair
  get_derived_solana_public_key = do
    keypair ← derived_solana_keypair
    return (c.base_58 (drop 32 keypair))

  unfoldable pub get_near_intents_account_id : Keyed String
  unfolding derived_solana_keypair
  get_near_intents_account_id = do
    keypair ← derived_solana_keypair
    return (c.encode_hex (drop 32 keypair))

  unfoldable pub get_near_intents_key_pair_string : Keyed String
  unfolding derived_solana_keypair
  get_near_intents_key_pair_string = do
    keypair ← derived_solana_keypair
    return (append_text "ed25519:" (c.base_58 keypair))

  unfoldable pub get_access_key : Keyed String
  unfolding require_key_material get_shielded_private_key get_shielded_public_key poseidon_hash_hex
  get_access_key = do
    require_key_material
    priv ← get_shielded_private_key c
    pub_key ← get_shielded_public_key c
    poseidon_hash_hex (priv ∷ pub_key ∷ [])

  unfoldable pub get_backend_token : Keyed String
  unfolding require_key_material get_access_key get_shielded_public_key poseidon_hash_hex
  get_backend_token = do
    require_key_material
    access_key ← get_access_key
    pub_key ← get_shielded_public_key c
    poseidon_hash_hex (access_key ∷ pub_key ∷ [])
