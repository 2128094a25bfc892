-- ===== src/Keys/Calls.antt =====
-- Calls of the methods that read a user's keys, one after the other. SetSignature, which replaces the
-- signature, is not among them.
use go_sdk_test.Common.{
  ◌≡◌, refl, inl, inr, Bool, String, ap, string_eq, Result, ℤ, List, [], ◌∷◌, map,
}
use go_sdk_test.Common.Stateful.{◌>>=◌, return}
use go_sdk_test.Keys.{
  Crypto, UserKeys, Keyed, KeysError, EddsaSignature, SpendingKeyPair, get_signature,
  get_shielded_private_key, get_shielded_public_key, get_spending_key_pair, sign_eddsa,
}
use go_sdk_test.Keys.Derived.{
  get_shielded_private_key_from_nonce, get_claimable_signature_from_nonce,
  get_signer_private_key_from_nonce, get_signer_solana_private_key_from_nonce,
  get_derived_ethereum_address, get_derived_solana_public_key, get_near_intents_account_id,
  get_near_intents_key_pair_string, get_access_key, get_backend_token,
}
use go_sdk_test.Keys.Verify.{verify_message, verify_solana_message, verify_tron_message}
use go_sdk_test.Keys.Steady.{settle, IsSteady, answering}
use go_sdk_test.Keys.Methods.{methods}

-- The exported methods that answer with a text, a flag, a pair of keys or a signature.
pub data Call : Type 0 where
  signature shielded_private_key shielded_public_key derived_ethereum_address
        derived_solana_public_key near_intents_account_id near_intents_key_pair_string access_key
        backend_token spending_key_pair :
      Call
  shielded_private_key_from_nonce claimable_signature_from_nonce signer_private_key_from_nonce
        signer_solana_private_key_from_nonce sign_message :
      ℤ → Call
  message_signer : String → Call
  solana_message tron_message : String → String → Call

pub data Answer : Type 0 where
  text : String → Answer
  flag : Bool → Answer
  pair : SpendingKeyPair → Answer
  signed : EddsaSignature → Answer

abbrev as_answer : {A : Type 0} → (A → Answer) → Keyed A → Keyed Answer
as_answer f m = m >>= λ a. return (f a)

module _ (c : Crypto) where
  unfoldable pub answer : Call → Keyed Answer
  answer signature = as_answer text get_signature
  answer shielded_private_key = as_answer text (get_shielded_private_key c)
  answer shielded_public_key = as_answer text (get_shielded_public_key c)
  answer derived_ethereum_address = as_answer text (get_derived_ethereum_address c)
  answer derived_solana_public_key = as_answer text (get_derived_solana_public_key c)
  answer near_intents_account_id = as_answer text (get_near_intents_account_id c)
  answer near_intents_key_pair_string = as_answer text (get_near_intents_key_pair_string c)
  answer access_key = as_answer text (get_access_key c)
  answer backend_token = as_answer text (get_backend_token c)
  answer spending_key_pair = as_answer pair (get_spending_key_pair c)
  answer (shielded_private_key_from_nonce n) =
      as_answer text (get_shielded_private_key_from_nonce c n)
  answer (claimable_signature_from_nonce n) =
      as_answer text (get_claimable_signature_from_nonce c n)
  answer (signer_private_key_from_nonce n) = as_answer text (get_signer_private_key_from_nonce c n)
  answer (signer_solana_private_key_from_nonce n) =
      as_answer text (get_signer_solana_private_key_from_nonce c n)
  answer (sign_message m) = as_answer signed (sign_eddsa c m)
  answer (message_signer m) = as_answer text (verify_message c m)
  answer (solana_message m k) = as_answer flag (verify_solana_message c m k)
  answer (tron_message m a) = as_answer flag (verify_tron_message c m a)

  -- The answers to calls, on the keys that each call leaves to the next.
  unfoldable pub answer_all : List Call → UserKeys → List (Result KeysError Answer)
  unfolding answer
  answer_all [] u = []
  answer_all (q ∷ qs) u = let (a, v) = answer q u in a ∷ answer_all qs v

  pub answer-IsSteady : (q : Call) → IsSteady c (answer q)
  unfolding answer get_derived_solana_public_key get_near_intents_account_id
      get_near_intents_key_pair_string get_shielded_private_key_from_nonce
      get_claimable_signature_from_nonce
  answer-IsSteady signature = search (answering, methods)
  answer-IsSteady shielded_private_key = search (answering, methods)
  answer-IsSteady shielded_public_key = search (answering, methods)
  answer-IsSteady derived_ethereum_address = search (answering, methods)
  answer-IsSteady derived_solana_public_key = search (answering, methods)
  answer-IsSteady near_intents_account_id = search (answering, methods)
  answer-IsSteady near_intents_key_pair_string = search (answering, methods)
  answer-IsSteady access_key = search (answering, methods)
  answer-IsSteady backend_token = search (answering, methods)
  answer-IsSteady spending_key_pair = search (answering, methods)
  answer-IsSteady (shielded_private_key_from_nonce n) = search (answering, methods)
  answer-IsSteady (claimable_signature_from_nonce n) = search (answering, methods)
  answer-IsSteady (signer_private_key_from_nonce n) = search (answering, methods)
  answer-IsSteady (signer_solana_private_key_from_nonce n) = search (answering, methods)
  answer-IsSteady (sign_message m) = search (answering, methods)
  answer-IsSteady (message_signer m) = search (answering, methods)
  answer-IsSteady (solana_message m k) = search (answering, methods)
  answer-IsSteady (tron_message m a) = search (answering, methods)

  abbrev answer_alone : UserKeys → Call → Result KeysError Answer
  answer_alone u q = (answer q u).0

  answer_alone_settled : (u : UserKeys) (q : Call) → answer_alone (settle c u) q ≡ answer_alone u q
  answer_alone_settled u q = ap (λ x. x.0) ((answer-IsSteady q).answers u)

  map_answers :
      (u : UserKeys) (qs : List Call) → map (answer_alone (settle c u)) qs ≡ map (answer_alone u) qs
  map_answers u [] = refl
  map_answers u (q ∷ qs) = rw (map_answers u qs, answer_alone_settled u q)

  -- Whatever methods of `Call` are called on a user's keys, and in whatever order, with no SetSignature
  -- between them, each answers, its errors included, as it would on the keys with none of these calls
  -- made before: keeping the shielded private key, which the first call that needs it computes,
  -- changes no answer.
  pub answer_all-eq-map :
      (qs : List Call) (u : UserKeys) → answer_all qs u ≡ map (λ q. (answer q u).0) qs
  unfolding answer_all
  answer_all-eq-map [] u = refl
  answer_all-eq-map (q ∷ qs) u = elim ((answer-IsSteady q).leaves u) [
    | inl same ↦ rw (same, answer_all-eq-map qs u)
    | inr settled ↦ rw (settled, answer_all-eq-map qs (settle c u), map_answers u qs)
  ]
