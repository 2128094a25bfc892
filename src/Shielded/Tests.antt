-- ===== src/Shielded/Tests.antt =====
-- The balance of one registered token.
use go_sdk_test.Common.{◌≡◌, refl, [], ◌∷◌, string_eq, false, none}
use text.Mathlib.Text.{◌==◌ as same_text}
use go_sdk_test.Utxo.{get_token_address}
use go_sdk_test.Utxo.Tests.{coin}
use go_sdk_test.Inputs.{Tokens}
use go_sdk_test.Funds.{count_total_amount_in_utxos}
use go_sdk_test.Shielded.{get_shielded_balance, get_total_balance, is_of_token}
use go_sdk_test.Shielded.Total.{total_balance, get_total_balance-eq-amounts}

abbrev tokens : Tokens
tokens = record {
  is_solana = false;
  to_lower = λ t. t;
  first_part = λ t. t;
  equal_fold = same_text;
  format_mint = λ t. none;
  shielded_private_key = "key";
  spending_public_key = [];
}

get_total_balance-eq-amounts_example :
    total_balance (
      get_total_balance tokens
        ("other" ∷ "token" ∷ [])
        (get_shielded_balance tokens ("other" ∷ "token" ∷ []) (coin ∷ coin ∷ [])))
    ≡ count_total_amount_in_utxos (coin ∷ coin ∷ [])
unfolding is_of_token get_token_address
get_total_balance-eq-amounts_example =
    get_total_balance-eq-amounts tokens ("other" ∷ "token" ∷ []) (coin ∷ coin ∷ [])
      ((refl, tt), (tt, tt)) (refl, (refl, tt))
