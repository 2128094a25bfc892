-- ===== src/Proof/Tests.antt =====
-- The amounts of a small withdrawal, and names of circuits.
use go_sdk_test.Common.{
  ◌≡◌, refl, true, some, List, [], ◌∷◌, ℤ, pos, neg, ◌+ℤ◌, ◌-ℤ◌, arith, ok, err, string_eq, nat_eq,
}
use mathlib.Core.Option
use go_sdk_test.Utxo.{Utxo, new_utxo, drawn_randomization, derived_h0}
use go_sdk_test.Utxo.Tests.{toy, coin}
use go_sdk_test.Funds.{
  UserKeys, output_utxo_processing, change_utxo, output_params, count_total_amount_in_utxos,
}
use go_sdk_test.Proof.{
  ensure_amount_changes, calc_amount_changes, amount_change, amounts_agree, amount_changes_differ,
  get_zk_proof_verifier_name, circuit,
}
use go_sdk_test.Proof.Amounts.{AreProcessed, ensure_amount_changes-processed}
use go_sdk_test.Proof.Balanced.{AreBalanced, ensure_amount_changes-AreBalanced}

abbrev user_keys : UserKeys
user_keys = record { shielded_private_key = some "key"; spending_public_key = some [] }

abbrev rows : List (List Utxo)
rows = (coin ∷ []) ∷ []

abbrev changes : List ℤ
changes = neg (pos 2) ∷ []

-- Five come in and two leave.
abbrev outs : List (List Utxo)
outs =
    (record (output_params coin (pos 3) "9") {
      nullifying_key = "key";
      randomization = some (pos 4);
      h0 = some (pos 1, pos 2);
    }
      ∷ [])
    ∷ []

rows-AreProcessed : AreProcessed toy user_keys "9" true rows changes outs
unfolding output_utxo_processing change_utxo new_utxo drawn_randomization derived_h0
    count_total_amount_in_utxos ◌+ℤ◌ Option.bind
rows-AreProcessed = (refl, refl, tt)

rows_agree : ensure_amount_changes 101 rows outs changes ≡ ok tt
rows_agree =
    ensure_amount_changes-processed 101 toy user_keys "9" true rows changes outs rows-AreProcessed

ensure_amount_changes-AreBalanced_example : AreBalanced rows outs changes
unfolding count_total_amount_in_utxos ◌-ℤ◌ ◌+ℤ◌
ensure_amount_changes-AreBalanced_example =
    ensure_amount_changes-AreBalanced 101 rows outs changes (omega arith, omega arith, tt)
      rows_agree

-- A change that the outputs do not show.
unbalanced : ensure_amount_changes 101 rows outs (neg (pos 1) ∷ []) ≡ err amount_changes_differ
unfolding ensure_amount_changes calc_amount_changes amount_change amounts_agree
    count_total_amount_in_utxos ◌-ℤ◌ ◌+ℤ◌
unbalanced = refl

one_by_one : get_zk_proof_verifier_name rows outs ≡ some (circuit 1 1 1)
unfolding get_zk_proof_verifier_name
one_by_one = refl
