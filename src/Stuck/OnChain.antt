-- ===== src/Stuck/OnChain.antt =====
-- filterOnChainUnspentUtxos: which UTXOs are left, and what becomes known.
use go_sdk_test.Common.{
  Bool, false, not, ◌&&◌, ◌||◌, Option, some, List, [], ◌∷◌, String, ℤ, string_eq, ◌==◌, Result, ok,
  err, none,
}
use go_sdk_test.Utxo.{Primitives, Utxo, get_nullifier}
use go_sdk_test.Stuck.{StuckError}

module _ (p : Primitives) (nullified : ℤ → Result StuckError Bool) where
  -- The number that GetNullifier's text stands for.
  abbrev pub nullifier_number : Utxo → Option ℤ
  nullifier_number u = elim (get_nullifier p u).0 [ none ↦ none | some text ↦ p.parse_big_int text ]

  -- The contract does not hold the nullifier of the UTXO.
  unfoldable pub is_unspent : Utxo → Bool
  is_unspent u = elim (nullifier_number u) [
    | none ↦ false
    | some n ↦ elim (nullified n) [ err e ↦ false | ok spent ↦ not spent ]
  ]

  -- The contract holds it, and its number is written `key`.
  unfoldable pub is_spent_as : String → Utxo → Bool
  is_spent_as key u = elim (nullifier_number u) [
    | none ↦ false
    | some n ↦ elim (nullified n) [ err e ↦ false | ok spent ↦ spent && p.to_be_hex n == key ]
  ]

  unfoldable pub any_spent_as : String → List Utxo → Bool
  any_spent_as key [] = false
  any_spent_as key (u ∷ us) = is_spent_as key u || any_spent_as key us

  abbrev pub with_nullifier : Utxo → Utxo
  with_nullifier u = (get_nullifier p u).1
