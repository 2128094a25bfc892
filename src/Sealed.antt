-- ===== src/Sealed.antt =====
-- cryptokeys/ecdh.go: one message sealed for several recipients. The packed form is the number of
-- recipients in one byte, the nonce, a sealed key of 80 bytes for each recipient, and the message.
pub mod RoundTrip
pub mod Tests
use go_sdk_test.Common.{
  ℕ, zero, suc, ◌+◌, ◌-◌, ◌*◌, ◌%◌, Bool, not, ◌||◌, Option, none, some, List, [], ◌∷◌, ◌++◌, ℤ,
  is_neg, pos_part, length, take, drop, ltb, leb, ◌==◌, nat_eq, Result, ok, err, ◌>>=◌, ◌>>◌,
  fail_if, require,
}

pub data SealError : Type 0 where
  box_seal_failed too_short index_out_of_range truncated content_key_failed secret_box_failed
        no_randomness :
      SealError

-- The boxes of golang.org/x/crypto/nacl. `seal_anonymous n` is the call number `n`, which draws its
-- own random key; `draw_key` and `draw_nonce` read random
-- bytes.
pub record Boxes : Type 0 where
  pub open_anonymous : List ℕ → List ℕ → List ℕ → Option (List ℕ)
  pub seal_anonymous : ℕ → List ℕ → List ℕ → Option (List ℕ)
  pub open_secret : List ℕ → List ℕ → List ℕ → Option (List ℕ)
  pub seal_secret : List ℕ → List ℕ → List ℕ → List ℕ
  pub draw_key : Option (List ℕ)
  pub draw_nonce : Option (List ℕ)

abbrev pub seal_bytes : ℕ
seal_bytes = 48

abbrev pub secret_key_bytes : ℕ
secret_key_bytes = 32

abbrev pub secret_nonce_bytes : ℕ
secret_nonce_bytes = 24

abbrev pub sealed_key_len : ℕ
sealed_key_len = 80

module _ (b : Boxes) where
  unfoldable pub decrypt_box_seal : List ℕ → List ℕ → List ℕ → Result SealError (List ℕ)
  decrypt_box_seal ciphertext pk sk = require (b.open_anonymous ciphertext pk sk) box_seal_failed

  -- What follows the check of the length, on the bytes behind the nonce.
  unfoldable pub open_keys : ℕ → ℕ → List ℕ → List ℕ → List ℕ → List ℕ → Result SealError (List ℕ)
  open_keys count index nonce sealed pk sk = do
    let sealed_key = take sealed_key_len (drop (index * sealed_key_len) sealed)
    let ciphertext = drop (count * sealed_key_len) sealed
    content_key ← require (b.open_anonymous sealed_key pk sk) content_key_failed
    fail_if (not (length content_key == secret_key_bytes)) content_key_failed
    require (b.open_secret ciphertext nonce content_key) secret_box_failed

  -- The first byte is taken apart from the rest; without one the bytes are too short.
  unfoldable pub decrypt_sealed_keys : List ℕ → List ℕ → List ℕ → ℤ → Result SealError (List ℕ)
  decrypt_sealed_keys [] pk sk index = err too_short
  decrypt_sealed_keys (count ∷ body) pk sk index = do
    fail_if (ltb (1 + length body) (1 + secret_nonce_bytes)) too_short
    fail_if (is_neg index || leb count (pos_part index)) index_out_of_range
    fail_if (ltb (1 + length body) (1 + secret_nonce_bytes + count * sealed_key_len)) truncated
    open_keys count (pos_part index) (take secret_nonce_bytes body) (drop secret_nonce_bytes body)
        pk sk

  -- The loop over the recipients.
  unfoldable pub seal_all : ℕ → List ℕ → List (List ℕ) → Option (List ℕ)
  seal_all n content_key [] = some []
  seal_all n content_key (pk ∷ pks) = elim (b.seal_anonymous n content_key pk) [
    | none ↦ none
    | some sealed ↦ elim (seal_all (suc n) content_key pks) [
      | none ↦ none
      | some rest ↦ some (sealed ++ rest)
    ]
  ]

  unfoldable pub encrypt_sealed_keys : List ℕ → List (List ℕ) → Result SealError (List ℕ)
  unfolding seal_all
  encrypt_sealed_keys msg recipients = do
    content_key ← require b.draw_key no_randomness
    nonce ← require b.draw_nonce no_randomness
    let ciphertext = b.seal_secret msg nonce content_key
    sealed ← require (seal_all 0 content_key recipients) no_randomness
    ok (length recipients % 256 ∷ (nonce ++ (sealed ++ ciphertext)))
