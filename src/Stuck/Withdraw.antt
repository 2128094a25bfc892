-- ===== src/Stuck/Withdraw.antt =====
-- One withdrawal of withdraw_stuck_utxos.go: its amounts, its inputs and outputs, and the call of the
-- relayer.
use go_sdk_test.Common.{
  ℕ, true, false, Option, none, some, List, [], ◌∷◌, String, ℤ, neg, ◌-ℤ◌, is_pos, is_zero, nat_eq,
  string_eq, if◌then◌else◌, Result, ok, err,
}
use go_sdk_test.Common.Stateful.{Stateful, ◌>>=◌, ◌>>◌, or_fail, lift, return}
use go_sdk_test.Utxo.{Utxo}
use go_sdk_test.Funds.{FundsError, FeeStructure, merge_with_fee_structure, output_utxo_processing}
use go_sdk_test.Inputs.{add_padding_to_utxos}
use go_sdk_test.Proof.{ensure_amount_changes}
use go_sdk_test.Stuck.{
  StuckError, Session, map_err, funds_error, inputs_error, proof_error, insufficient_balance,
  no_utxos, bad_recipient, keys_missing, no_input_row,
}

module _ {S : Type 0} (c : Session S) where
  -- The loop over the tokens; a row or a change that is missing is a panic.
  unfoldable pub output_rows :
      List String → List (List Utxo) → List ℤ → String → Result FundsError (List (List Utxo))
  output_rows [] rows changes time_stamp = ok []
  output_rows (t ∷ ts) [] changes time_stamp = err FundsError.panics
  output_rows (t ∷ ts) (row ∷ rows) [] time_stamp = err FundsError.panics
  output_rows (t ∷ ts) (row ∷ rows) (a ∷ as_) time_stamp =
      let rest = output_rows ts rows as_ time_stamp in
      elim (output_utxo_processing c.primitives c.keys row a time_stamp true none) [
        | err e ↦ err e
        | ok out ↦ elim rest [ err e ↦ err e | ok outs ↦ ok (out ∷ outs) ]
      ]

  unfoldable pub get_stuck_input_and_output_utxos :
      ℕ → List String → List ℤ → Stateful StuckError S (List (List Utxo) × List (List Utxo))
  get_stuck_input_and_output_utxos max_input tokens changes = do
    address ← λ s. (c.get_ethereum_address s, s)
    stuck ← c.stuck_utxos address
    inputs ← lift (
        map_err inputs_error
          (add_padding_to_utxos c.primitives c.tokens max_input false tokens changes stuck))
    time_stamp ← λ s. (ok (c.now s), s)
    outputs ← lift (map_err funds_error (output_rows tokens inputs changes time_stamp))
    return (inputs, outputs)

  -- What is left for the recipient behind the fee.
  unfoldable pub amount_to_recipient : FeeStructure → ℤ → Result StuckError ℤ
  amount_to_recipient fee total =
      let amount = total -ℤ fee.flat_fee in
      if is_pos amount then ok amount else err insufficient_balance

  -- The tokens and the changes of their amounts.
  unfoldable pub stuck_changes :
      FeeStructure → String → ℤ → Result StuckError (List String × List ℤ)
  stuck_changes fee token total = elim (amount_to_recipient fee total) [
    | err e ↦ err e
    | ok amount ↦
        map_err funds_error
          (merge_with_fee_structure c.tokens.equal_fold fee (token ∷ []) (neg amount ∷ []))
  ]

  unfoldable pub solana_stuck_changes : FeeStructure → ℤ → Result StuckError (List ℤ)
  solana_stuck_changes fee total = elim (amount_to_recipient fee total) [
    | err e ↦ err e
    | ok amount ↦ ok ((neg amount -ℤ fee.flat_fee) ∷ [])
  ]

  unfoldable pub withdraw_single_stuck_token : String → ℤ → String → Stateful StuckError S String
  withdraw_single_stuck_token token total recipient_raw = do
    fee ← λ s. (c.fee_structure s, s)
    relay ← λ s. (c.relayer_address s, s)
    recipient ← or_fail (c.address_to_hex recipient_raw) bad_recipient
    changes ← lift (stuck_changes fee token total)
    rows ← get_stuck_input_and_output_utxos 0 changes.0 changes.1
    c.submit rows.0 rows.1 fee relay recipient

  abbrev pub first_row : List (List Utxo) → Option (List Utxo)
  first_row [] = none
  first_row (row ∷ rows) = some row

  unfoldable pub withdraw_single_stuck_token_solana :
      String → ℤ → String → Stateful StuckError S String
  withdraw_single_stuck_token_solana mint total recipient = do
    fee ← λ s. (c.fee_structure s, s)
    relay ← λ s. (c.relayer_address s, s)
    changes ← lift (solana_stuck_changes fee total)
    rows ← get_stuck_input_and_output_utxos 6 (mint ∷ []) changes
    inputs ← or_fail (first_row rows.0) no_input_row
    outputs ← or_fail (first_row rows.1) no_input_row
    key ← or_fail c.keys.shielded_private_key keys_missing
    lift
        (map_err proof_error (ensure_amount_changes c.field_p (inputs ∷ []) (outputs ∷ []) changes))
    c.submit_solana inputs outputs fee relay recipient

  unfoldable pub withdraw_stuck_token_by_chain_id :
      String → ℤ → String → Stateful StuckError S String
  withdraw_stuck_token_by_chain_id token total recipient =
      if is_zero total
      then lift (err no_utxos)
      else if c.tokens.is_solana
      then withdraw_single_stuck_token_solana token total recipient
      else withdraw_single_stuck_token token total recipient
