-- ===== src/Shielded.antt =====
-- internal/functions/balance/get_shielded_balance.go, and GetTotalBalance and GetStuckShieldedBalances
-- of data-structures/hinkal/hinkal.go. The registry of a chain is the list of its token addresses; the
-- UTXOs that GetInputUtxoAndBalance or its stuck variant returns are an argument.
pub mod Total
mod Tests
use go_sdk_test.Common.{
  Bool, true, false, Option, none, some, List, [], ◌∷◌, String, ℤ, pos, ◌+ℤ◌, is_pos, ◌==◌,
  string_eq, Map, lookup, insert, if◌then◌else◌,
}
use go_sdk_test.Utxo.{Utxo, get_token_address}
use go_sdk_test.Inputs.{Tokens}

-- type TokenBalance
pub record TokenBalance : Type 0 where
  pub token : String
  pub balance : ℤ
  pub timestamp : String

-- Whether the UTXO is of the token; one without an address is of none.
unfoldable pub is_of_token : Tokens → String → Utxo → Bool
is_of_token c token u = elim (get_token_address c.is_solana u) [
  | none ↦ false
  | some address ↦ c.equal_fold token address
]

unfoldable pub balance_of : Tokens → String → List Utxo → ℤ
unfolding is_of_token ◌+ℤ◌
balance_of c token [] = pos 0
balance_of c token (u ∷ us) =
    let rest = balance_of c token us in (if is_of_token c token u then u.amount else pos 0) +ℤ rest

-- The first time stamp that is not empty.
unfoldable pub timestamp_of : Tokens → String → List Utxo → String
unfolding is_of_token
timestamp_of c token [] = ""
timestamp_of c token (u ∷ us) =
    let rest = timestamp_of c token us in
    if is_of_token c token u then (if u.time_stamp == "" then rest else u.time_stamp) else rest

-- The loop over the registry.
unfoldable pub balances_from :
    Tokens → List Utxo → List String → Map String TokenBalance → Map String TokenBalance
unfolding balance_of timestamp_of
balances_from c us [] m = m
balances_from c us (token ∷ tokens) m = balances_from c us tokens (
    insert (c.to_lower token)
      (record {
        token = token;
        balance = balance_of c token us;
        timestamp = timestamp_of c token us;
      })
      m)

unfoldable pub get_shielded_balance : Tokens → List String → List Utxo → Map String TokenBalance
unfolding balances_from
get_shielded_balance c registry us = balances_from c us registry []

abbrev pub total_entry : String → Option TokenBalance → TokenBalance
total_entry token none = record { token = token; balance = pos 0; timestamp = "0" }
total_entry token (some b) = record {
  token = token;
  balance = b.balance;
  timestamp = if b.timestamp == "" then "0" else b.timestamp;
}

-- GetTotalBalance, on the shielded balances.
unfoldable pub get_total_balance :
    Tokens → List String → Map String TokenBalance → List TokenBalance
get_total_balance c [] shielded = []
get_total_balance c (token ∷ tokens) shielded =
    total_entry token (lookup (c.to_lower token) shielded) ∷ get_total_balance c tokens shielded

unfoldable pub get_stuck_shielded_balances : List TokenBalance → List TokenBalance
get_stuck_shielded_balances [] = []
get_stuck_shielded_balances (b ∷ bs) =
    let rest = get_stuck_shielded_balances bs in if is_pos b.balance then b ∷ rest else rest
