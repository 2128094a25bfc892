-- ===== src/Deposit.antt =====
-- internal/functions/transactions/deposit_and_withdraw.go and deposit_on_chain_utxos.go: a deposit that
-- makes one UTXO for each recipient, and the withdrawals of those UTXOs. This module has the amounts,
-- the checks and the matching.
pub mod Matched
pub mod Leaves
pub mod Flow
pub mod Batch
pub mod Tests
use go_sdk_test.Common.{
  ℕ, zero, suc, Bool, true, false, not, ◌&&◌, ◌||◌, Option, none, some, List, [], ◌∷◌, String, ℤ,
  pos, ◌+ℤ◌, is_zero, is_pos, ltb, length, ◌==◌, string_eq, int_eq, nat_eq, if◌then◌else◌, Result,
  ok, err,
}
use go_sdk_test.Utxo.{Primitives, Utxo, get_commitment}
use go_sdk_test.Funds.{FeeStructure, calculate_total_fee}
use go_sdk_test.Funds.Approvals.{Erc20Token}

pub data DepositError : Type 0 where
  bad_tokens unsupported_solana no_token one_token amounts_empty length_mismatch amount_not_positive
        no_match no_deposited_utxos missing_from_merkle hash_not_found commitment_failed
        not_a_number keys_missing construction_failed bad_recipient inputs_failed outputs_failed
        not_available call_failed panics :
      DepositError

-- A fee structure whose fields may be unset: "" and nil.
pub record GivenFee : Type 0 where
  pub fee_token : String
  pub flat_fee : Option ℤ
  pub variable_rate : Option ℤ

abbrev pub default_fee_token : String
default_fee_token = "0x0000000000000000000000000000000000000000"

abbrev pub pay_send_variable_rate : ℤ
pay_send_variable_rate = pos 10

abbrev pub or_no_fee : Option ℤ → ℤ
or_no_fee none = pos 0
or_no_fee (some a) = a

abbrev pub or_pay_send_rate : Option ℤ → ℤ
or_pay_send_rate none = pay_send_variable_rate
or_pay_send_rate (some r) = if is_zero r then pay_send_variable_rate else r

unfoldable pub pay_send_fee_structure : GivenFee → FeeStructure
pay_send_fee_structure f = record {
  fee_token = if f.fee_token == "" then default_fee_token else f.fee_token;
  flat_fee = or_no_fee f.flat_fee;
  variable_rate = or_pay_send_rate f.variable_rate;
}

-- `asked` is the answer of GetFeeStructure.
unfoldable pub resolve_fee_structure :
    Result DepositError GivenFee → Option GivenFee → Result DepositError FeeStructure
unfolding pay_send_fee_structure
resolve_fee_structure asked (some given) = ok (pay_send_fee_structure given)
resolve_fee_structure (ok f) none = ok (pay_send_fee_structure f)
resolve_fee_structure (err e) none = err e

-- The loop over the amounts: a nil amount is `none`.
unfoldable pub all_positive : List (Option ℤ) → Bool
all_positive [] = true
all_positive (none ∷ as_) = false
all_positive (some a ∷ as_) = let rest = all_positive as_ in if is_pos a then rest else false

unfoldable pub validate_deposit_and_withdraw_args :
    List Erc20Token → List (Option ℤ) → List String → Result DepositError (Unit {0})
unfolding all_positive
validate_deposit_and_withdraw_args tokens amounts addresses =
    if length tokens == 0
    then err no_token
    else if ltb 1 (length tokens)
    then err one_token
    else if length amounts == 0
    then err amounts_empty
    else if not (length amounts == length addresses)
    then err length_mismatch
    else if all_positive amounts
    then ok tt
    else err amount_not_positive

-- depositAndWithdrawUtxoAmounts: each amount with its fee.
unfoldable pub utxo_amounts : FeeStructure → List ℤ → List ℤ
utxo_amounts f [] = []
utxo_amounts f (a ∷ as_) = (a +ℤ calculate_total_fee a f) ∷ utxo_amounts f as_

-- and their sum
unfoldable pub total_amount : List ℤ → ℤ
total_amount [] = pos 0
total_amount (a ∷ as_) = a +ℤ total_amount as_

pub record RecipientUtxo : Type 0 where
  pub recipient_address : String
  pub utxo : Utxo

-- The inner loop of matchRecipientUtxos: the first UTXO of the amount, and the others.
unfoldable pub take_match : ℤ → List Utxo → Option (Utxo × List Utxo)
take_match amount [] = none
take_match amount (u ∷ us) =
    let rest = take_match amount us in
    if u.amount == amount
    then some (u, us)
    else elim rest [ none ↦ none | some (v, vs) ↦ some (v, u ∷ vs) ]

-- An amount that is missing is a panic.
unfoldable pub match_recipient_utxos :
    List String → List ℤ → List Utxo → Result DepositError (List RecipientUtxo)
unfolding take_match
match_recipient_utxos [] amounts available = ok []
match_recipient_utxos (r ∷ rs) [] available = err panics
match_recipient_utxos (r ∷ rs) (a ∷ as_) available = elim (take_match a available) [
  | none ↦ err no_match
  | some (u, others) ↦ elim (match_recipient_utxos rs as_ others) [
    | err e ↦ err e
    | ok out ↦ ok (record { recipient_address = r; utxo = u } ∷ out)
  ]
]

-- A key of the set of leaves.
unfoldable pub has_leaf : ℤ → List ℤ → Bool
has_leaf x [] = false
has_leaf x (y ∷ ys) = let rest = has_leaf x ys in if y == x then true else rest

unfoldable pub commitment_number : Primitives → Utxo → Result DepositError ℤ
commitment_number p u = elim (get_commitment p u).0 [
  | none ↦ err commitment_failed
  | some text ↦ elim (p.parse_big_int text) [ none ↦ err not_a_number | some n ↦ ok n ]
]

-- areAllDepositedUtxosInLastLeaves; no deposited UTXO answers true at once, as the loop does.
unfoldable pub are_all_deposited_utxos_in_last_leaves :
    Primitives → List RecipientUtxo → List ℤ → Result DepositError Bool
unfolding has_leaf
are_all_deposited_utxos_in_last_leaves p [] leaves = ok true
are_all_deposited_utxos_in_last_leaves p (d ∷ ds) leaves = elim (commitment_number p d.utxo) [
  | err e ↦ err e
  | ok n ↦
      let rest = are_all_deposited_utxos_in_last_leaves p ds leaves in
      if has_leaf n leaves then rest else ok false
]
