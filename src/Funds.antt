-- ===== src/Funds.antt =====
-- Amounts: internal/functions/fees/fees.go, output_utxo_processing.go and merge_with_fee_structure.go
-- of internal/functions/pre-transaction, and the amount helpers of
-- internal/functions/transactions/proofless_deposit.go and withdraw_stuck_utxos.go.
pub mod Withdrawal
pub mod Outputs
pub mod Approvals
pub mod Merge
mod Tests
use go_sdk_test.Common.{
  ℕ, suc, zero, ◌+◌, Bool, true, false, not, ◌&&◌, ◌||◌, Option, none, some, List, [], ◌∷◌, ◌++◌,
  String, ℤ, pos, neg, quo, ◌+ℤ◌, ◌-ℤ◌, ◌*ℤ◌, ltb_ℤ, leb_ℤ, is_neg, is_pos, is_zero, ◌==◌,
  string_eq, nat_eq, if◌then◌else◌, length, take, ltb, Result, ok, err,
}
use mathlib.Core.Option
use go_sdk_test.Utxo.{Primitives, Utxo, new_utxo, get_token_address}

pub data FundsError : Type 0 where
  insufficient_funds keys_missing malformed_recipient construction_failed fee_over_value panics
        array_length_mismatch duplicate_stealth :
      FundsError

pub record FeeStructure : Type 0 where
  pub fee_token : String
  pub flat_fee : ℤ
  pub variable_rate : ℤ

abbrev pub bps_denominator : ℤ
bps_denominator = pos 10000

unfoldable pub calculate_total_fee : ℤ → FeeStructure → ℤ
calculate_total_fee amount f = f.flat_fee +ℤ quo (amount *ℤ f.variable_rate) bps_denominator

-- The variable fee of two different tokens is `cross`, the outcome of the price request.
unfoldable pub calculate_modified_fee_structure :
    (String → String → Bool) → Bool → String → ℤ → FeeStructure → Option ℤ → FeeStructure
unfolding calculate_total_fee
calculate_modified_fee_structure equal_fold known token amount f cross =
    let same = calculate_total_fee amount f in
    let cross_fee = f.flat_fee +ℤ elim cross [ none ↦ pos 0 | some v ↦ v ] in
    record {
      fee_token = f.fee_token;
      flat_fee =
          if not known || equal_fold f.fee_token token || is_zero f.variable_rate
          then same
          else cross_fee;
      variable_rate = pos 0;
    }

unfoldable pub calculate_withdrawal_amount : ℤ → FeeStructure → ℤ
calculate_withdrawal_amount amount_with_fee f =
    let positive = neg amount_with_fee in
    if is_zero f.variable_rate
    then positive -ℤ f.flat_fee
    else quo ((positive -ℤ f.flat_fee) *ℤ bps_denominator) (bps_denominator +ℤ f.variable_rate)

-- countTotalAmountInUtxos, and countStuckUtxoAmount on UTXOs that all have an amount.
unfoldable pub count_total_amount_in_utxos : List Utxo → ℤ
count_total_amount_in_utxos [] = pos 0
count_total_amount_in_utxos (u ∷ us) = u.amount +ℤ count_total_amount_in_utxos us

-- BigintMax on two values.
abbrev pub bigint_max : ℤ → ℤ → ℤ
bigint_max a b = if ltb_ℤ a b then b else a

-- What GetShieldedPrivateKey and GetSpendingKeyPair return.
pub record UserKeys : Type 0 where
  pub shielded_private_key : Option String
  pub spending_public_key : Option (List ℤ)

abbrev pub output_params : Utxo → ℤ → String → Utxo
output_params like amount time_stamp = record {
  amount = amount;
  erc20_token_address = like.erc20_token_address;
  mint_address = like.mint_address;
  time_stamp = time_stamp;
  nullifying_key = "";
  spending_public_key = [];
  randomization = none;
  h0 = none;
  stealth_address = "";
  encryption_key = "";
  commitment = "";
  nullifier = "";
  is_blocked = false;
  is_new_style = true;
}

-- The UTXO that goes back to the sender.
unfoldable pub change_utxo : Primitives → UserKeys → Utxo → ℤ → String → Option Utxo
change_utxo p keys like amount time_stamp = elim keys.shielded_private_key [
  | none ↦ none
  | some key ↦ elim keys.spending_public_key [
    | none ↦ none
    | some spending ↦ new_utxo p (record (output_params like amount time_stamp) {
      nullifying_key = key;
      spending_public_key = spending;
    })
  ]
]

-- The UTXO of the recipient, from the parts of the address between commas.
unfoldable pub recipient_utxo : Primitives → List String → Utxo → ℤ → String → Option Utxo
recipient_utxo p (stealth ∷ h00 ∷ h01 ∷ fourth ∷ encryption ∷ rest) like amount time_stamp =
    elim (p.parse_big_int h00) [
      | none ↦ none
      | some x ↦ elim (p.parse_big_int h01) [
        | none ↦ none
        | some y ↦ new_utxo p (record (output_params like amount time_stamp) {
          h0 = some (x, y);
          stealth_address = stealth;
          encryption_key = encryption;
        })
      ]
    ]
recipient_utxo p parts like amount time_stamp = none

-- OutputUtxoProcessing. `recipient` holds the parts of the recipient's address and its amount, where
-- both are given. No input UTXO is a panic.
unfoldable pub output_utxo_processing :
    Primitives
    → UserKeys
    → List Utxo
    → ℤ
    → String
    → Bool
    → Option (List String × ℤ)
    → Result FundsError (List Utxo)
output_utxo_processing p keys [] change time_stamp revert recipient = err panics
output_utxo_processing p keys (first ∷ others) change time_stamp revert recipient =
    let total = count_total_amount_in_utxos (first ∷ others) in
    if revert && is_neg change && is_neg (total +ℤ change)
    then err insufficient_funds
    else elim (change_utxo p keys first (bigint_max (total +ℤ change) (pos 0)) time_stamp) [
      | none ↦ err construction_failed
      | some u ↦ elim recipient [
        | none ↦ ok (u ∷ [])
        | some (parts, amount) ↦ elim (recipient_utxo p parts first amount time_stamp) [
          | none ↦ err malformed_recipient
          | some r ↦ ok (u ∷ r ∷ [])
        ]
      ]
    ]

-- merge_with_fee_structure.go: the first change of the fee token is lowered by the flat fee; a token
-- without a change is a panic.
unfoldable pub merge_found :
    (String → String → Bool)
    → FeeStructure
    → List String
    → List ℤ
    → Option (Result FundsError (List ℤ))
merge_found equal_fold f [] changes = none
merge_found equal_fold f (token ∷ tokens) [] =
    let rest = merge_found equal_fold f tokens [] in
    if equal_fold token f.fee_token then some (err panics) else rest
merge_found equal_fold f (token ∷ tokens) (c ∷ cs) =
    let rest = merge_found equal_fold f tokens cs in
    let lowered : Result FundsError (List ℤ) =
      if is_pos c && ltb_ℤ c f.flat_fee then err fee_over_value else ok ((c -ℤ f.flat_fee) ∷ cs) in
    if equal_fold token f.fee_token then some lowered else elim rest [
      | none ↦ none
      | some (err x) ↦ some (err x)
      | some (ok cs') ↦ some (ok (c ∷ cs'))
    ]

unfoldable pub merge_with_fee_structure :
    (String → String → Bool)
    → FeeStructure
    → List String
    → List ℤ
    → Result FundsError (List String × List ℤ)
unfolding merge_found
merge_with_fee_structure equal_fold f tokens changes =
    elim (merge_found equal_fold f tokens changes) [
      | none ↦ ok (tokens ++ f.fee_token ∷ [], changes ++ neg f.flat_fee ∷ [])
      | some (err x) ↦ err x
      | some (ok cs) ↦ ok (tokens, cs)
    ]
