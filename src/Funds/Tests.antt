-- ===== src/Funds/Tests.antt =====
-- Fees, outputs and approvals on concrete amounts.
use go_sdk_test.Common.{
  ℕ, ◌+◌, ◌≤◌, ◌≡◌, refl, true, false, Option, some, List, [], ◌∷◌, String, ℤ, pos, neg, quo, ◌+ℤ◌,
  ◌-ℤ◌, ◌*ℤ◌, arith, ok, string_eq, nat_eq, is_neg,
}
use mathlib.Core.Option
use text.Mathlib.Text.{◌==◌ as same_text}
use go_sdk_test.Utxo.{Utxo, new_utxo, drawn_randomization, derived_h0}
use go_sdk_test.Utxo.Tests.{toy, coin}
use go_sdk_test.Funds.{
  FeeStructure, calculate_total_fee, calculate_withdrawal_amount, UserKeys, output_utxo_processing,
  change_utxo, recipient_utxo, count_total_amount_in_utxos, merge_with_fee_structure, merge_found,
  output_params,
}
use go_sdk_test.Funds.Withdrawal.{calculate_withdrawal-fits}
use go_sdk_test.Funds.Outputs.{output_utxo_processing-conserves, recipient_amount}
use go_sdk_test.Funds.Approvals.{Erc20Token}

abbrev fees : FeeStructure
fees = record { fee_token = "t"; flat_fee = pos 50; variable_rate = pos 30 }

calculate_withdrawal-fits_example :
    (w : ℕ) × (fee : ℕ) × (calculate_withdrawal_amount (neg (pos 1000)) fees ≡ pos w)
    × (calculate_total_fee (pos w) fees ≡ pos fee)
    × (w + fee ≤ 1000)
calculate_withdrawal-fits_example = calculate_withdrawal-fits "t" 1000 50 30 (omega arith)

withdrawal_of_1000 : calculate_withdrawal_amount (neg (pos 1000)) fees ≡ pos 947
unfolding calculate_withdrawal_amount ◌-ℤ◌ ◌*ℤ◌ ◌+ℤ◌ quo
withdrawal_of_1000 = refl

abbrev user_keys : UserKeys
user_keys = record { shielded_private_key = some "key"; spending_public_key = some [] }

-- Five come in and two leave, all of them to the recipient.
abbrev outputs : List Utxo
outputs =
    record (output_params coin (pos 3) "9") {
      nullifying_key = "key";
      randomization = some (pos 4);
      h0 = some (pos 1, pos 2);
    }
    ∷ record (output_params coin (pos 2) "9") {
      h0 = some (pos 7, pos 7);
      stealth_address = "a";
      encryption_key = "e";
    }
    ∷ []

abbrev recipient : Option (List String × ℤ)
recipient = some ("a" ∷ "b" ∷ "c" ∷ "d" ∷ "e" ∷ [], pos 2)

outputs_made :
    output_utxo_processing toy user_keys (coin ∷ []) (neg (pos 2)) "9" true recipient ≡ ok outputs
unfolding output_utxo_processing change_utxo recipient_utxo new_utxo drawn_randomization derived_h0
    count_total_amount_in_utxos ◌+ℤ◌ Option.bind
outputs_made = refl

enough_coins : is_neg (count_total_amount_in_utxos (coin ∷ []) +ℤ neg (pos 2)) ≡ false
unfolding count_total_amount_in_utxos ◌+ℤ◌
enough_coins = refl

output_utxo_processing-conserves_example :
    count_total_amount_in_utxos outputs
    ≡ count_total_amount_in_utxos (coin ∷ []) +ℤ neg (pos 2) +ℤ recipient_amount recipient
output_utxo_processing-conserves_example =
    output_utxo_processing-conserves toy user_keys coin [] (neg (pos 2)) "9" true recipient outputs
      enough_coins outputs_made

-- The fee is taken off the change of the fee token.
merge_lowers :
    merge_with_fee_structure
      (λ a b. same_text a b)
      fees
      ("s" ∷ "t" ∷ [])
      (pos 1 ∷ neg (pos 70) ∷ [])
    ≡ ok ("s" ∷ "t" ∷ [], pos 1 ∷ neg (pos 120) ∷ [])
unfolding merge_with_fee_structure merge_found ◌-ℤ◌
merge_lowers = refl

abbrev usd : Erc20Token
usd = record { chain_id = 1; erc20_token_address = "usd" }

abbrev eth : Erc20Token
eth = record { chain_id = 1; erc20_token_address = "0x0" }
