-- ===== src/Inputs/Tests.antt =====
-- The inputs of one token, padded to two.
use go_sdk_test.Common.{
  ◌≡◌, refl, false, none, List, [], ◌∷◌, pos, neg, negsuc, Result, ok, err, string_eq, nat_eq,
}
use mathlib.Core.Option
use text.Mathlib.Text.{◌==◌ as same_text}
use go_sdk_test.Utxo.{Utxo}
use go_sdk_test.Utxo.Tests.{toy, coin}
use go_sdk_test.Inputs.{Tokens, InputsError, add_padding_to_utxos, select_stuck, stuck_at}

abbrev tokens : Tokens
tokens = record {
  is_solana = false;
  to_lower = λ t. t;
  first_part = λ t. t;
  equal_fold = same_text;
  format_mint = λ t. none;
  shielded_private_key = "key";
  spending_public_key = [];
}

abbrev rows_of : Result InputsError (List (List Utxo)) → List (List Utxo)
rows_of (ok rows) = rows
rows_of (err e) = []

abbrev padded : Result InputsError (List (List Utxo))
padded = add_padding_to_utxos toy tokens 0 false ("token" ∷ []) (neg (pos 2) ∷ []) (coin ∷ [])

-- Indexes that are out of range are passed over.
stuck_in_range : select_stuck (coin ∷ []) (pos 0 ∷ pos 4 ∷ negsuc 0 ∷ []) ≡ coin ∷ []
unfolding select_stuck stuck_at
stuck_in_range = refl
