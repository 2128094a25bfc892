-- ===== src/Funds/Approvals.antt =====
-- The amount helpers of internal/functions/transactions/proofless_deposit.go: what a deposit without
-- a proof has to approve. `equal_fold` is strings.EqualFold.
use go_sdk_test.Common.{
  ℕ, ◌≡◌, refl, sym, ◌∙◌, Bool, false, not, ◌&&◌, ◌||◌, Option, none, some, List, [], ◌∷◌, ◌++◌,
  String, ℤ, pos, ◌+ℤ◌, is_pos, ◌==◌, string_eq, nat_eq, if◌then◌else◌, length, Map, insert,
  contains, Result, ok, err, arith, Bool-cases, inl, inr, +ℤ_assoc, +ℤ_zero, int_laws,
}
use go_sdk_test.Funds.{FundsError}

-- What these helpers read of a token.
pub record Erc20Token : Type 0 where
  pub chain_id : ℕ
  pub erc20_token_address : String

pub record TokenWithBalance : Type 0 where
  pub token : Erc20Token
  pub balance : ℤ

unfoldable pub positive_amount : Option ℤ → ℤ
positive_amount none = pos 0
positive_amount (some a) = if is_pos a then a else pos 0

module _ (equal_fold : String → String → Bool) where
  -- The inner loop of aggregateAmountsForApproval, and the append behind it.
  unfoldable pub add_amount : Erc20Token → ℤ → List TokenWithBalance → List TokenWithBalance
  add_amount token amount [] = record { token = token; balance = amount } ∷ []
  add_amount token amount (o ∷ os) =
      let rest = add_amount token amount os in
      if o.token.chain_id == token.chain_id
        && equal_fold o.token.erc20_token_address token.erc20_token_address
      then record o { balance = o.balance +ℤ amount } ∷ os
      else o ∷ rest

  -- The loop over the tokens; a token without an amount is a panic.
  unfoldable pub aggregate_from :
      List Erc20Token → List ℤ → List TokenWithBalance → Option (List TokenWithBalance)
  unfolding add_amount
  aggregate_from [] amounts out = some out
  aggregate_from (t ∷ ts) [] out = none
  aggregate_from (t ∷ ts) (a ∷ as_) out = aggregate_from ts as_ (add_amount t a out)

  unfoldable pub aggregate_amounts_for_approval :
      List Erc20Token → List ℤ → Option (List TokenWithBalance)
  unfolding aggregate_from
  aggregate_amounts_for_approval tokens amounts = aggregate_from tokens amounts []

  -- The native part of the deposit.
  unfoldable pub eth_value_from : String → List Erc20Token → List ℤ → ℤ → Option ℤ
  unfolding positive_amount
  eth_value_from zero_address [] amounts value = some value
  eth_value_from zero_address (t ∷ ts) [] value =
      let rest = eth_value_from zero_address ts [] value in
      if equal_fold t.erc20_token_address zero_address then none else rest
  eth_value_from zero_address (t ∷ ts) (a ∷ as_) value = eth_value_from zero_address ts as_ (
      if equal_fold t.erc20_token_address zero_address
      then value +ℤ positive_amount (some a)
      else value)

  -- The loop over the aggregated tokens: the approvals, and whether the fee token is among them.
  unfoldable pub approvals_from :
      String → String → ℤ → List TokenWithBalance → List TokenWithBalance × Bool
  unfolding positive_amount
  approvals_from zero_address fee_token fee [] = ([], false)
  approvals_from zero_address fee_token fee (o ∷ os) =
      let (rest, found) = approvals_from zero_address fee_token fee os in
      let is_fee =
        not (equal_fold fee_token zero_address)
        && equal_fold o.token.erc20_token_address fee_token in
      let deposit = positive_amount (some o.balance) in
      let balance = if is_fee then deposit +ℤ fee else deposit in
      if equal_fold o.token.erc20_token_address zero_address then (rest, found) else (
        (if is_pos balance then record { token = o.token; balance = balance } ∷ rest else rest),
        is_fee || found,
      )

  abbrev first_chain : List Erc20Token → ℕ
  first_chain [] = 0
  first_chain (t ∷ ts) = t.chain_id

  -- buildWrapperApprovalInputs: the approvals and the value that is sent along.
  unfoldable pub build_wrapper_approval_inputs :
      String → String → Option ℤ → List Erc20Token → List ℤ → Option (List TokenWithBalance × ℤ)
  unfolding positive_amount eth_value_from aggregate_amounts_for_approval approvals_from
  build_wrapper_approval_inputs zero_address fee_token fee_amount tokens amounts =
      let fee = positive_amount fee_amount in
      let is_fee_native = equal_fold fee_token zero_address in
      elim (eth_value_from zero_address tokens amounts (pos 0)) [
        | none ↦ none
        | some value ↦ elim (aggregate_amounts_for_approval tokens amounts) [
          | none ↦ none
          | some deposits ↦
              let (approvals, found) = approvals_from zero_address fee_token fee deposits in
              let extra : TokenWithBalance = record {
                token = record { chain_id = first_chain tokens; erc20_token_address = fee_token };
                balance = fee;
              } in
              some (
                (if not is_fee_native && is_pos fee && not found
                    then approvals ++ extra ∷ []
                    else approvals),
                (if is_fee_native then value +ℤ fee else value),
              )
        ]
      ]

-- assertNoDuplicateStealthAddressStructures, on the texts that it compares.
unfoldable pub assert_no_duplicates :
    List String → Map String (Unit {0}) → Result FundsError (Unit {0})
assert_no_duplicates [] seen = ok tt
assert_no_duplicates (key ∷ keys) seen =
    let rest = assert_no_duplicates keys (insert key tt seen) in
    if contains key seen then err FundsError.duplicate_stealth else rest

unfoldable pub total_balance : List TokenWithBalance → ℤ
total_balance [] = pos 0
total_balance (o ∷ os) = o.balance +ℤ total_balance os

unfoldable pub total_of : List ℤ → ℤ
total_of [] = pos 0
total_of (a ∷ as_) = a +ℤ total_of as_

module _ (equal_fold : String → String → Bool) where
  total-add_amount :
      (t : Erc20Token) (a : ℤ) (os : List TokenWithBalance)
      → total_balance (add_amount equal_fold t a os) ≡ total_balance os +ℤ a
  unfolding add_amount total_balance
  total-add_amount t a [] = omega int_laws
  total-add_amount t a (o ∷ os) =
      elim (Bool-cases (
        o.token.chain_id == t.chain_id
        && equal_fold o.token.erc20_token_address t.erc20_token_address)) [
          | inl same ↦ rw (same) (omega int_laws)
          | inr other ↦ rw (other, total-add_amount t a os) (omega int_laws)
        ]

  total-aggregate_from :
      (tokens : List Erc20Token) (amounts : List ℤ) (os : List TokenWithBalance)
      → length tokens ≡ length amounts
      → (out : List TokenWithBalance) × (aggregate_from equal_fold tokens amounts os ≡ some out)
        × (total_balance out ≡ total_balance os +ℤ total_of amounts)
  unfolding aggregate_from total_of
  total-aggregate_from [] [] os h = (os, refl, sym (+ℤ_zero (total_balance os)))
  total-aggregate_from [] (a ∷ as_) os h = absurd (omega arith)
  total-aggregate_from (t ∷ ts) [] os h = absurd (omega arith)
  total-aggregate_from (t ∷ ts) (a ∷ as_) os h =
      let (out, returned, total) =
        total-aggregate_from ts as_ (add_amount equal_fold t a os) (omega arith) in
      (
        out,
        returned,
        total ∙ rw (total-add_amount t a os) (+ℤ_assoc (total_balance os) a (total_of as_)),
      )

  -- On as many amounts as tokens the aggregation returns, and neither loses nor invents an amount:
  -- the balances add up to the amounts.
  pub aggregate-total :
      (tokens : List Erc20Token) (amounts : List ℤ)
      → length tokens ≡ length amounts
      → (out : List TokenWithBalance) × (aggregate_amounts_for_approval equal_fold tokens amounts
          ≡ some out)
        × (total_balance out ≡ total_of amounts)
  unfolding aggregate_amounts_for_approval total_balance
  aggregate-total tokens amounts h =
      let (out, returned, total) = total-aggregate_from tokens amounts [] h in
      (out, returned, total ∙ omega int_laws)
