-- ===== src/Stuck/Loop.antt =====
-- HinkalWithdrawStuckUtxos: the loop over the withdrawals.
pub mod Rounds
pub mod Ends
pub mod Finished
use go_sdk_test.Common.{
  ℕ, zero, suc, Bool, true, false, not, ◌||◌, Option, none, some, List, [], ◌∷◌, ◌++◌, String, ℤ,
  pos, neg, ◌-ℤ◌, is_pos, is_zero, length, ◌==◌, nat_eq, string_eq, Map, insert, if◌then◌else◌,
  Result, ok, err, fail_if,
}
use go_sdk_test.Common.Stateful.{Stateful, ◌>>=◌, ◌>>◌, or_fail, lift, return, guard}
use go_sdk_test.Utxo.{Primitives, Utxo, get_nullifier}
use go_sdk_test.Funds.{
  FundsError, FeeStructure, UserKeys, merge_with_fee_structure, output_utxo_processing,
  count_total_amount_in_utxos,
}
use go_sdk_test.Funds.Approvals.{Erc20Token}
use go_sdk_test.Inputs.{Tokens, InputsError, add_padding_to_utxos}
use go_sdk_test.Proof.{ProofError, ensure_amount_changes}
use go_sdk_test.Balance.Sorted.{positive_utxos_for_token, sort_and_cap_stuck_utxos}
use go_sdk_test.Stuck.{
  StuckError, Session, map_err, funds_error, inputs_error, proof_error, insufficient_balance,
  no_utxos, bad_recipient, keys_missing, no_input_row, no_token, too_many_tokens,
  validate_and_get_chain_id, positive_stuck_utxos_for_token,
}
use go_sdk_test.Stuck.Withdraw.{withdraw_stuck_token_by_chain_id}

module _ {S : Type 0} (c : Session S) where
  -- The rest of a round, from the test of the total.
  unfoldable pub withdraw_total : Bool → String → ℤ → String → Stateful StuckError S (Option String)
  withdraw_total true token total recipient = return none
  withdraw_total false token total recipient = do
    hash ← withdraw_stuck_token_by_chain_id c token total recipient
    confirmed ← c.wait_for_transaction hash
    return (some hash)

  -- One round of HinkalWithdrawStuckUtxos: `none` where no amount is left, else the hash.
  unfoldable pub withdraw_round : String → String → String → Stateful StuckError S (Option String)
  withdraw_round token eth_address recipient = do
    c.reset_merkle_trees
    stuck ← positive_stuck_utxos_for_token c token eth_address
    let total = count_total_amount_in_utxos stuck
    withdraw_total (is_zero total) token total recipient

-- The checks in front of the loop. The chain is that of the session.
unfoldable pub check_tokens : List Erc20Token → Result StuckError String
unfolding validate_and_get_chain_id
check_tokens tokens = elim (validate_and_get_chain_id tokens) [
  | err e ↦ err e
  | ok chain ↦ elim tokens [
    | [] ↦ err no_token
    | t ∷ [] ↦ ok t.erc20_token_address
    | t ∷ u ∷ ts ↦ err too_many_tokens
  ]
]

-- The hashes of the transactions, with the error that ended the loop where one did; or a loop that
-- still runs.
pub data Outcome : Type 0 where
  finished : List String → Outcome
  failed : List String → StuckError → Outcome
  running : Outcome

module _ {S : Type 0} (c : Session S) where
  -- The loop on fuel, with the hashes so far.
  unfoldable pub withdraw_loop : ℕ → String → String → String → List String → S → Outcome × S
  withdraw_loop zero token eth_address recipient results s = (running, s)
  withdraw_loop (suc fuel) token eth_address recipient results s =
      let (round, s') = withdraw_round c token eth_address recipient s in
      elim round [
        | err e ↦ (failed results e, s')
        | ok none ↦ (finished results, s')
        | ok (some hash) ↦ withdraw_loop fuel token eth_address recipient (results ++ hash ∷ []) s'
      ]

  unfoldable pub hinkal_withdraw_stuck_utxos : ℕ → List Erc20Token → String → S → Outcome × S
  hinkal_withdraw_stuck_utxos fuel tokens recipient s = elim (check_tokens tokens) [
    | err e ↦ (failed [] e, s)
    | ok token ↦ elim (c.get_ethereum_address s) [
      | err e ↦ (failed [] e, s)
      | ok eth_address ↦ withdraw_loop fuel token eth_address recipient [] s
    ]
  ]
