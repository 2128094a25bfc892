-- ===== src/Keys/Verify.antt =====
-- cryptokeys/keys.go: whether the signature of the keys is one of a message.
use Prim.Native.String.{◌++◌ as append_text}
use go_sdk_test.Common.{
  ℕ, zero, suc, ◌-◌, Bool, not, Option, none, some, List, [], ◌∷◌, ◌++◌, String, length, leb, ◌==◌,
  nat_eq, string_eq, if◌then◌else◌, ok,
}
use go_sdk_test.Common.Stateful.{◌>>=◌, ◌>>◌, or_fail, return, guard}
use go_sdk_test.Keys.{
  Crypto, Keyed, require_signature, signature_size, not_recoverable, bad_base58, public_key_size,
  bad_tron_address,
}

-- `if sig[64] >= 27 { sig[64] -= 27 }` at the byte number `i`.
unfoldable pub lower_recovery_id : ℕ → List ℕ → List ℕ
lower_recovery_id i [] = []
lower_recovery_id zero (b ∷ bs) = (if leb 27 b then b - 27 else b) ∷ bs
lower_recovery_id (suc i) (b ∷ bs) = b ∷ lower_recovery_id i bs

abbrev pub signature_of : Keyed String
signature_of u = (ok u.signature, u)

module _ (c : Crypto) where
  unfoldable pub recoverable_signature : String → Option (List ℕ)
  unfolding lower_recovery_id
  recoverable_signature signature =
      let sig = c.from_hex signature in
      if not (length sig == 65) then none else some (lower_recovery_id 64 sig)

  unfoldable pub verify_message : String → Keyed String
  unfolding require_signature recoverable_signature
  verify_message message = do
    require_signature
    signature ← signature_of
    sig ← or_fail (recoverable_signature signature) signature_size
    or_fail (c.recover_address (c.text_hash (c.bytes_of message)) sig) not_recoverable

  unfoldable pub verify_solana_message : String → String → Keyed Bool
  unfolding require_signature
  verify_solana_message message signer_public_key = do
    require_signature
    pub_bytes ← or_fail (c.from_base_58 signer_public_key) bad_base58
    guard (not (length pub_bytes == 32)) public_key_size
    signature ← signature_of
    return (c.ed25519_verify pub_bytes (c.bytes_of message) (c.from_hex signature))

  unfoldable pub tron_prefix : String → String
  tron_prefix message =
      append_text "\u{19}TRON Signed Message:\n" (c.itoa (length (c.bytes_of message)))

  unfoldable pub verify_tron_message : String → String → Keyed Bool
  unfolding require_signature recoverable_signature tron_prefix
  verify_tron_message message signer_address = do
    require_signature
    signature ← signature_of
    sig ← or_fail (recoverable_signature signature) signature_size
    address ←
        or_fail
          (c.recover_address (c.keccak256 (c.bytes_of (tron_prefix message) ++ c.bytes_of message))
            sig)
          not_recoverable
    recovered_tron ← or_fail (c.evm_to_tron address) bad_tron_address
    expected_tron ← or_fail (c.to_tron_if_hex signer_address) bad_tron_address
    return (recovered_tron == expected_tron)
