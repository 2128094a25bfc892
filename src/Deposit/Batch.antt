-- ===== src/Deposit/Batch.antt =====
-- hinkalWithdrawBatch and HinkalDepositAndWithdraw: the withdrawals that are proved and scheduled once
-- the deposited UTXOs are in the tree.
pub mod Scheduled
pub mod Tests
use go_sdk_test.Common.{
  ℕ, Bool, true, false, Option, none, some, List, [], ◌∷◌, String, ℤ, pos, ◌==◌, string_eq,
  if◌then◌else◌, Result, ok, err,
}
use go_sdk_test.Common.Stateful.{Stateful, ◌>>=◌, ◌>>◌, or_fail, lift, return, guard}
use go_sdk_test.Utxo.{Primitives, Utxo, UtxoPatch, new_utxo, create_from}
use go_sdk_test.Funds.{FeeStructure, calculate_modified_fee_structure}
use go_sdk_test.Funds.Approvals.{Erc20Token}
use go_sdk_test.Deposit.{
  DepositError, GivenFee, RecipientUtxo, validate_deposit_and_withdraw_args, resolve_fee_structure,
  keys_missing, construction_failed, bad_recipient, no_deposited_utxos, unsupported_solana, panics,
  bad_tokens,
}
use go_sdk_test.Deposit.Flow.{
  Session, Phase, BatchItem, before_schedule_withdraw, after_schedule_withdraw, safe_update_status,
  deposit_on_chain_utxos, wait_for_deposited_utxos,
}

-- A patch that sets the address of the token alone.
abbrev pub token_patch : String → UtxoPatch
token_patch token = record {
  amount = none;
  erc20_token_address = token;
  mint_address = "";
  time_stamp = "";
  nullifying_key = "";
  spending_public_key = none;
  randomization = none;
  h0 = none;
  stealth_address = "";
  encryption_key = "";
  commitment = "";
  nullifier = "";
  is_blocked = false;
  is_new_style = false;
}

abbrev pub or_no_key : Bool → List ℤ → List ℤ
or_no_key true key = key
or_no_key false key = []

abbrev pub zero_utxo_params : String → String → List ℤ → Utxo → String → Utxo
zero_utxo_params token key spending source time_stamp = record {
  amount = pos 0;
  erc20_token_address = token;
  mint_address = "";
  time_stamp = time_stamp;
  nullifying_key = key;
  spending_public_key = or_no_key source.is_new_style spending;
  randomization = none;
  h0 = none;
  stealth_address = "";
  encryption_key = "";
  commitment = "";
  nullifier = "";
  is_blocked = false;
  is_new_style = source.is_new_style;
}

-- `if source.IsNewStyle`, which alone asks for the spending key pair.
abbrev pub spending_key_for : Bool → Option (List ℤ) → Option (List ℤ)
spending_key_for true key = key
spending_key_for false key = some []

-- The amounts of the recipients once they are known to be there.
unfoldable pub known_amounts : List (Option ℤ) → List ℤ
known_amounts [] = []
known_amounts (none ∷ as_) = known_amounts as_
known_amounts (some a ∷ as_) = a ∷ known_amounts as_

module _ {S Proof : Type 0} (c : Session S Proof) where
  unfoldable pub build_zero_utxo : String → Utxo → String → Result DepositError Utxo
  build_zero_utxo token source time_stamp = elim c.keys.shielded_private_key [
    | none ↦ err keys_missing
    | some key ↦ elim (spending_key_for source.is_new_style c.keys.spending_public_key) [
      | none ↦ err keys_missing
      | some spending ↦
          elim (new_utxo c.primitives (zero_utxo_params token key spending source time_stamp)) [
            | none ↦ err construction_failed
            | some u ↦ ok u
          ]
    ]
  ]

  -- The UTXO under the address of the token.
  unfoldable pub utxo_to_withdraw : String → Utxo → Result DepositError Utxo
  utxo_to_withdraw token u =
      if c.tokens.equal_fold u.erc20_token_address token
      then ok u
      else elim (create_from c.primitives u (token_patch token)) [
        | none ↦ err construction_failed
        | some v ↦ ok v
      ]

  -- The loop over the deposited UTXOs; an amount that is missing is a panic.
  unfoldable pub prove_withdrawals :
      String
      → FeeStructure
      → String
      → String
      → List RecipientUtxo
      → List ℤ
      → Stateful DepositError S (List (BatchItem Proof))
  unfolding build_zero_utxo utxo_to_withdraw
  prove_withdrawals token fee relay time_stamp [] amounts = return []
  prove_withdrawals token fee relay time_stamp (d ∷ ds) [] = lift (err panics)
  prove_withdrawals token fee relay time_stamp (d ∷ ds) (a ∷ as_) = do
    recipient ← or_fail (c.address_to_hex d.recipient_address) bad_recipient
    zero_utxo ← lift (build_zero_utxo token d.utxo time_stamp)
    withdrawn ← lift (utxo_to_withdraw token d.utxo)
    cross ← λ s. (ok (c.cross_fee a s), s)
    let modified =
        calculate_modified_fee_structure c.tokens.equal_fold c.is_known_token token a fee cross
    proof ←
        c.prove_withdrawal (withdrawn ∷ zero_utxo ∷ []) (zero_utxo ∷ []) modified relay recipient
    rest ← prove_withdrawals token fee relay time_stamp ds as_
    return (record { proof = proof; recipient_address = d.recipient_address } ∷ rest)

  unfoldable pub hinkal_withdraw_batch :
      String → List RecipientUtxo → List ℤ → FeeStructure → Stateful DepositError S String
  hinkal_withdraw_batch token [] amounts fee = lift (err no_deposited_utxos)
  hinkal_withdraw_batch token (d ∷ ds) amounts fee = do
    relay ← λ s. (c.relayer_address s, s)
    time_stamp ← λ s. (ok (c.now s), s)
    items ← prove_withdrawals token fee relay time_stamp (d ∷ ds) amounts
    safe_update_status c before_schedule_withdraw
    schedule_id ← c.schedule items
    safe_update_status c after_schedule_withdraw
    return schedule_id

  -- The checks behind ValidateAndGetChainID.
  unfoldable pub checked_token :
      List Erc20Token → List (Option ℤ) → List String → Result DepositError String
  unfolding validate_deposit_and_withdraw_args
  checked_token tokens amounts addresses =
      if c.tokens.is_solana
      then err unsupported_solana
      else elim (validate_deposit_and_withdraw_args tokens amounts addresses) [
        | err e ↦ err e
        | ok done ↦ elim tokens [ [] ↦ err bad_tokens | t ∷ ts ↦ ok t.erc20_token_address ]
      ]

  -- HinkalDepositAndWithdraw behind ValidateAndGetChainID: the hash of the deposit and the schedule.
  unfoldable pub hinkal_deposit_and_withdraw :
      List Erc20Token
      → List (Option ℤ)
      → List String
      → Option GivenFee
      → Stateful DepositError S (String × String)
  hinkal_deposit_and_withdraw tokens amounts addresses override = do
    token ← lift (checked_token tokens amounts addresses)
    raw ← λ s. (c.get_ethereum_address s, s)
    address ← or_fail (c.address_to_hex raw) bad_recipient
    fee ← λ s. (resolve_fee_structure (c.get_fee_structure s) override, s)
    deposit ← deposit_on_chain_utxos c token (known_amounts amounts) addresses fee
    wait_for_deposited_utxos c deposit.0
    schedule_id ← hinkal_withdraw_batch token deposit.0 (known_amounts amounts) fee
    return (deposit.1, schedule_id)
