-- ===== src/Deposit/Flow.antt =====
-- HinkalDepositOnChainUtxos and the wait for the deposited UTXOs in the tree. `S` is all that a call can change, `Proof` what ConstructZkProof returns.
pub mod Tests
use go_sdk_test.Common.{
  ℕ, zero, suc, Bool, true, false, Option, none, some, List, [], ◌∷◌, String, ℤ, pos, ◌==◌,
  string_eq, Result, ok, err,
}
use go_sdk_test.Common.Stateful.{Stateful, ◌>>=◌, ◌>>◌, lift, return, guard}
use go_sdk_test.Utxo.{Primitives, Utxo}
use go_sdk_test.Funds.{FeeStructure, UserKeys, output_utxo_processing}
use go_sdk_test.Inputs.{Tokens, add_padding_to_utxos}
use go_sdk_test.Merkle.{MerkleTree, last_leaves}
use go_sdk_test.Deposit.{
  DepositError, GivenFee, RecipientUtxo, utxo_amounts, total_amount, match_recipient_utxos,
  are_all_deposited_utxos_in_last_leaves, missing_from_merkle, hash_not_found, no_deposited_utxos,
  inputs_failed, outputs_failed,
}

pub data Phase : Type 0 where
  before_deposit after_deposit before_schedule_withdraw after_schedule_withdraw : Phase

-- One transaction of the batch.
pub record BatchItem (Proof : Type 0) : Type 0 where
  pub proof : Proof
  pub recipient_address : String

-- What the flow calls. `transact` is TransactCallDirect or its Tron counterpart, which returns a hash
-- and an error; `decode_receipt` waits for the receipt and reads the UTXOs of the user.
pub record Session (S Proof : Type 0) : Type 0 where
  pub primitives : Primitives
  pub tokens : Tokens
  pub keys : UserKeys
  pub address_to_hex : String → Option String
  pub now : S → String
  pub get_ethereum_address : S → Result DepositError String
  pub get_fee_structure : S → Result DepositError GivenFee
  pub cross_fee : ℤ → S → Option ℤ
  pub is_known_token : Bool
  pub relayer_address : S → Result DepositError String
  pub utxos : S → List Utxo
  pub prove_deposit : List ℤ → List (List Utxo) → List (List Utxo) → Stateful DepositError S Proof
  pub update_status : Phase → Stateful DepositError S String
  pub adapter : S → Result DepositError (Unit {0})
  pub transact : ℤ → Proof → S → (String × Option DepositError) × S
  pub wait_for_transaction : String → Stateful DepositError S Bool
  pub fetch_receipt : String → Stateful DepositError S (Unit {0})
  pub decode_receipt : String → Stateful DepositError S (List Utxo)
  pub reset_merkle : Stateful DepositError S (Unit {0})
  pub tree : S → Option MerkleTree
  pub pause : Stateful DepositError S (Unit {0})
  pub prove_withdrawal :
      List Utxo → List Utxo → FeeStructure → String → String → Stateful DepositError S Proof
  pub schedule : List (BatchItem Proof) → Stateful DepositError S String

module _ {S Proof : Type 0} (c : Session S Proof) where
  -- The outputs of the rows of empty inputs, with a change of 0.
  unfoldable pub empty_outputs : List (List Utxo) → String → Result DepositError (List (List Utxo))
  empty_outputs [] time_stamp = ok []
  empty_outputs (row ∷ rows) time_stamp =
      let rest = empty_outputs rows time_stamp in
      elim (output_utxo_processing c.primitives c.keys row (pos 0) time_stamp true none) [
        | err e ↦ err outputs_failed
        | ok out ↦ elim rest [ err e ↦ err e | ok outs ↦ ok (out ∷ outs) ]
      ]

  unfoldable pub padded_inputs : String → S → Result DepositError (List (List Utxo))
  padded_inputs token s =
      elim (add_padding_to_utxos c.primitives c.tokens 2 true (token ∷ []) (pos 0 ∷ [])
        (c.utxos s)) [ err e ↦ err inputs_failed | ok rows ↦ ok rows ]

  unfoldable pub prepare_deposit : String → List ℤ → Stateful DepositError S Proof
  prepare_deposit token amounts = do
    inputs ← λ s. (padded_inputs token s, s)
    time_stamp ← λ s. (ok (c.now s), s)
    outputs ← lift (empty_outputs inputs time_stamp)
    c.prove_deposit amounts inputs outputs

  -- The error of the call is kept in a variable of the branch, which hides the one that is tested
  -- behind it: what is read is the hash alone.
  unfoldable pub transact_hash : ℤ → Proof → Stateful DepositError S String
  transact_hash total proof s = let (answer, s') = c.transact total proof s in (ok answer.0, s')

  -- An update whose failure is not read.
  unfoldable pub safe_update_status : Phase → Stateful DepositError S (Unit {0})
  safe_update_status phase s = (ok tt, (c.update_status phase s).1)

  abbrev pub no_utxos : List Utxo → Bool
  no_utxos [] = true
  no_utxos (u ∷ us) = false

  unfoldable pub deposit_on_chain_utxos :
      String
      → List ℤ
      → List String
      → FeeStructure
      → Stateful DepositError S (List RecipientUtxo × String)
  deposit_on_chain_utxos token amounts addresses fee = do
    let due = utxo_amounts fee amounts
    proof ← prepare_deposit token due
    id ← c.update_status before_deposit
    ready ← λ s. (c.adapter s, s)
    hash ← transact_hash (total_amount due) proof
    guard (hash == "") hash_not_found
    confirmed ← c.wait_for_transaction hash
    c.fetch_receipt hash
    safe_update_status after_deposit
    deposited ← c.decode_receipt hash
    guard (no_utxos deposited) no_deposited_utxos
    matched ← lift (match_recipient_utxos addresses due deposited)
    return (matched, hash)

  -- tree.LastLeaves(20), or no leaves without a tree.
  abbrev pub leaves_of : Option MerkleTree → List ℤ
  leaves_of none = []
  leaves_of (some m) = last_leaves 20 m

  unfoldable pub are_found : List RecipientUtxo → Stateful DepositError S Bool
  are_found ds s =
      (are_all_deposited_utxos_in_last_leaves c.primitives ds (leaves_of (c.tree s)), s)

  -- The attempts of waitForDepositedUtxosInMerkleTree.
  unfoldable pub wait_attempts : ℕ → List RecipientUtxo → Stateful DepositError S (Unit {0})
  wait_attempts zero ds s = (err missing_from_merkle, s)
  wait_attempts (suc attempts) ds s =
      (do
        c.reset_merkle
        found ← are_found ds
        λ t. elim found [ true ↦ (ok tt, t) | false ↦ (c.pause >> wait_attempts attempts ds) t ])
        s

  unfoldable pub wait_for_deposited_utxos : List RecipientUtxo → Stateful DepositError S (Unit {0})
  wait_for_deposited_utxos [] = return tt
  wait_for_deposited_utxos (d ∷ ds) = wait_attempts 60 (d ∷ ds)
