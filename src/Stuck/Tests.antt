-- ===== src/Stuck/Tests.antt =====
-- Runs on a chain whose state is the number of stuck UTXOs of five units.
use go_sdk_test.Common.{
  ℕ, zero, suc, ◌≡◌, refl, Bool, true, false, none, some, [], ◌∷◌, String, pos, neg, negsuc, ◌-ℤ◌,
  is_pos, replicate, ◌==◌, string_eq, nat_eq, Result, ok, err,
}
use go_sdk_test.Utxo.Tests.{toy, coin}
use mathlib.Core.Option
use go_sdk_test.Funds.{FeeStructure, merge_with_fee_structure, merge_found}
use go_sdk_test.Funds.Approvals.{Erc20Token, total_of}
use go_sdk_test.Inputs.{Tokens}
use go_sdk_test.Stuck.{
  Session, StuckError, call_failed, tokens_different_chains, validate_and_get_chain_id, same_chain,
}
use go_sdk_test.Stuck.Withdraw.{amount_to_recipient, stuck_changes, solana_stuck_changes}
use go_sdk_test.Stuck.Amounts.{stuck_changes-total}

abbrev plain_tokens : Tokens
plain_tokens = record {
  is_solana = false;
  to_lower = λ s. s;
  first_part = λ s. s;
  equal_fold = λ s t. s == t;
  format_mint = λ s. some s;
  shielded_private_key = "key";
  spending_public_key = [];
}

abbrev one_unit : FeeStructure
one_unit = record { fee_token = "token"; flat_fee = pos 1; variable_rate = pos 0 }

-- A transaction spends one UTXO when it is confirmed.
abbrev confirm : String → ℕ → Result StuckError Bool × ℕ
confirm hash zero = (err call_failed, zero)
confirm hash (suc n) = (ok true, n)

abbrev chain : Session ℕ
chain = record {
  primitives = toy;
  tokens = plain_tokens;
  keys = record { shielded_private_key = some "key"; spending_public_key = some [] };
  field_p = 1000;
  address_to_hex = λ s. some s;
  get_ethereum_address = λ s. ok "me";
  fee_structure = λ s. ok one_unit;
  relayer_address = λ s. ok "relay";
  now = λ s. "1";
  known = λ s. none;
  set_known = λ m s. s;
  contract = λ s. ok (λ n. ok false);
  reset_merkle_trees = λ s. (ok tt, s);
  stuck_utxos = λ a s. (ok (replicate s coin), s);
  submit = λ ins outs fee relay to s. (ok "hash", s);
  submit_solana = λ ins outs fee relay to s. (ok "hash", s);
  wait_for_transaction = confirm;
}

abbrev token : Erc20Token
token = record { chain_id = 1; erc20_token_address = "token" }

two_chains :
    validate_and_get_chain_id (token ∷ record token { chain_id = 2 } ∷ [])
    ≡ err tokens_different_chains
unfolding validate_and_get_chain_id same_chain
two_chains = refl

-- The fee is taken off the amount and merged into its change.
changed : stuck_changes chain one_unit "token" (pos 10) ≡ ok ("token" ∷ [], negsuc 9 ∷ [])
unfolding stuck_changes amount_to_recipient merge_with_fee_structure merge_found ◌-ℤ◌
changed = refl

stuck_changes-total_example :
    (total_of (negsuc 9 ∷ []) ≡ neg (pos 10))
    × (solana_stuck_changes chain one_unit (pos 10) ≡ ok (neg (pos 10) ∷ []))
    × (is_pos (pos 10 -ℤ one_unit.flat_fee) ≡ true)
stuck_changes-total_example =
    stuck_changes-total chain one_unit "token" (pos 10) ("token" ∷ []) (negsuc 9 ∷ []) changed
