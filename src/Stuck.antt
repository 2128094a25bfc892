-- ===== src/Stuck.antt =====
-- internal/functions/transactions/withdraw_stuck_utxos.go: the stuck UTXOs of a token are withdrawn to
-- a recipient, up to six at a time, until none is left. The state `S` is all that a call can change:
-- the chain, the trees and the known nullifiers.
pub mod Withdraw
pub mod Amounts
pub mod Loop
pub mod OnChain
pub mod Tests
use go_sdk_test.Common.{
  ℕ, zero, suc, Bool, true, false, not, ◌||◌, Option, none, some, List, [], ◌∷◌, ◌++◌, String, ℤ,
  pos, neg, ◌-ℤ◌, is_pos, is_zero, length, ◌==◌, nat_eq, string_eq, Map, insert, if◌then◌else◌,
  Result, ok, err, fail_if,
}
use go_sdk_test.Common.Stateful.{Stateful, ◌>>=◌, ◌>>◌, or_fail, lift, return, guard}
use go_sdk_test.Utxo.{Primitives, Utxo, get_nullifier}
use go_sdk_test.Funds.{
  FundsError, FeeStructure, UserKeys, merge_with_fee_structure, output_utxo_processing,
  count_total_amount_in_utxos,
}
use go_sdk_test.Funds.Approvals.{Erc20Token}
use go_sdk_test.Inputs.{Tokens, InputsError, add_padding_to_utxos}
use go_sdk_test.Proof.{ProofError, ensure_amount_changes}
use go_sdk_test.Balance.Sorted.{positive_utxos_for_token, sort_and_cap_stuck_utxos}

pub data StuckError : Type 0 where
  empty_token_array tokens_different_chains no_token too_many_tokens no_utxos insufficient_balance
        nullifier_failed not_a_number call_failed bad_recipient keys_missing no_input_row
        not_available :
      StuckError
  funds_error : FundsError → StuckError
  inputs_error : InputsError → StuckError
  proof_error : ProofError → StuckError

abbrev pub map_err {ℓ} : {E F : Type 0} {A : Type ℓ} → (E → F) → Result E A → Result F A
map_err f (ok a) = ok a
map_err f (err e) = err (f e)

-- ValidateAndGetChainID
unfoldable pub same_chain : ℕ → List Erc20Token → Bool
same_chain chain [] = true
same_chain chain (t ∷ ts) =
    let rest = same_chain chain ts in if t.chain_id == chain then rest else false

unfoldable pub validate_and_get_chain_id : List Erc20Token → Result StuckError ℕ
unfolding same_chain
validate_and_get_chain_id [] = err empty_token_array
validate_and_get_chain_id (t ∷ ts) =
    if same_chain t.chain_id (t ∷ ts) then ok t.chain_id else err tokens_different_chains

abbrev pub Known : Type 0
Known = Map String (Unit {0})

-- What the file calls. `is_nullified` is the call of the contract's `nullifiers`; `submit` proves a
-- transaction and hands it to the relayer, `submit_solana` the same for Solana.
pub record Session (S : Type 0) : Type 0 where
  pub primitives : Primitives
  pub tokens : Tokens
  pub keys : UserKeys
  pub field_p : ℕ
  pub address_to_hex : String → Option String
  pub get_ethereum_address : S → Result StuckError String
  pub fee_structure : S → Result StuckError FeeStructure
  pub relayer_address : S → Result StuckError String
  pub now : S → String
  pub known : S → Option Known
  pub set_known : Known → S → S
  pub contract : S → Result StuckError (ℤ → Result StuckError Bool)
  pub reset_merkle_trees : Stateful StuckError S (Unit {0})
  pub stuck_utxos : String → Stateful StuckError S (List Utxo)
  pub submit :
      List (List Utxo)
      → List (List Utxo)
      → FeeStructure
      → String
      → String
      → Stateful StuckError S String
  pub submit_solana :
      List Utxo → List Utxo → FeeStructure → String → String → Stateful StuckError S String
  pub wait_for_transaction : String → Stateful StuckError S Bool

-- `if knownNullifiers != nil { knownNullifiers[n] = struct{}{} }`
unfoldable pub add_known : String → Option Known → Option Known
add_known n none = none
add_known n (some m) = some (insert n tt m)

-- What is asked about one UTXO: whether the contract holds its nullifier, and under which text.
unfoldable pub ask_nullified :
    Primitives → (ℤ → Result StuckError Bool) → Utxo → Result StuckError (Bool × String)
ask_nullified p nullified u = elim (get_nullifier p u).0 [
  | none ↦ err nullifier_failed
  | some nullifier ↦ elim (p.parse_big_int nullifier) [
    | none ↦ err not_a_number
    | some n ↦ elim (nullified n) [ err e ↦ err e | ok spent ↦ ok (spent, p.to_be_hex n) ]
  ]
]

-- The loop of filterOnChainUnspentUtxos. The known nullifiers are changed in place, also where a later
-- call fails.
unfoldable pub filter_from :
    Primitives
    → (ℤ → Result StuckError Bool)
    → List Utxo
    → Option Known
    → Result StuckError (List Utxo) × Option Known
unfolding add_known
filter_from p nullified [] known = (ok [], known)
filter_from p nullified (u ∷ us) known = elim (ask_nullified p nullified u) [
  | err e ↦ (err e, known)
  | ok (true, n) ↦ filter_from p nullified us (add_known n known)
  | ok (false, n) ↦
      let (rest, after) = filter_from p nullified us known in
      (elim rest [ err e ↦ err e | ok vs ↦ ok ((get_nullifier p u).1 ∷ vs) ], after)
]

module _ {S : Type 0} (c : Session S) where
  abbrev pub keep_known : Option Known → S → S
  keep_known none s = s
  keep_known (some m) s = c.set_known m s

  unfoldable pub filter_on_chain_unspent_utxos : List Utxo → Stateful StuckError S (List Utxo)
  filter_on_chain_unspent_utxos [] s = (ok [], s)
  filter_on_chain_unspent_utxos (u ∷ us) s =
      if c.tokens.is_solana then (ok (u ∷ us), s) else elim (c.contract s) [
        | err e ↦ (err e, s)
        | ok nullified ↦
            let (answer, after) = filter_from c.primitives nullified (u ∷ us) (c.known s) in
            (answer, keep_known after s)
      ]

  unfoldable pub positive_stuck_utxos_for_token :
      String → String → Stateful StuckError S (List Utxo)
  positive_stuck_utxos_for_token token eth_address = do
    inputs ← c.stuck_utxos eth_address
    unspent ←
        filter_on_chain_unspent_utxos
          (positive_utxos_for_token c.tokens.equal_fold c.tokens.is_solana token inputs)
    return (sort_and_cap_stuck_utxos unspent)
