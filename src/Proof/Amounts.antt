-- ===== src/Proof/Amounts.antt =====
-- EnsureAmountChanges accepts what OutputUtxoProcessing makes.
use go_sdk_test.Common.{
  ℕ, ◌≡◌, refl, ◌∙◌, Bool, true, false, Bool-cases, inl, inr, none, List, [], ◌∷◌, String, ℤ, ◌+ℤ◌,
  ◌-ℤ◌, is_neg, int_beq, int_beq_iff, int_laws, +ℤ_zero, ok,
}
use go_sdk_test.Utxo.{Primitives, Utxo}
use go_sdk_test.Funds.{UserKeys, output_utxo_processing, count_total_amount_in_utxos}
use go_sdk_test.Funds.Outputs.{output_utxo_processing-conserves}
use go_sdk_test.Proof.{
  amount_change, calc_amount_changes, normalized, amounts_agree, ensure_amount_changes,
}

-- The outputs of each token are what OutputUtxoProcessing makes of its inputs and its change,
-- without a recipient, and the inputs and the change do not fall below zero together.
abbrev pub AreProcessed :
    Primitives → UserKeys → String → Bool → List (List Utxo) → List ℤ → List (List Utxo) → Type 0
AreProcessed p keys ts revert [] [] outs = Unit {0}
AreProcessed p keys ts revert (row ∷ rows) (change ∷ changes) (out ∷ outs) =
    (is_neg (count_total_amount_in_utxos row +ℤ change) ≡ false)
    × (output_utxo_processing p keys row change ts revert none ≡ ok out)
    × AreProcessed p keys ts revert rows changes outs
AreProcessed p keys ts revert [] (change ∷ changes) outs = ⊥
AreProcessed p keys ts revert (row ∷ rows) [] outs = ⊥
AreProcessed p keys ts revert (row ∷ rows) (change ∷ changes) [] = ⊥

-- The outputs of one token are its inputs and the change.
processed-total :
    (p : Primitives) (keys : UserKeys) (ts : String) (revert : Bool) (row : List Utxo) (change : ℤ)
    (out : List Utxo)
    → is_neg (count_total_amount_in_utxos row +ℤ change) ≡ false
    → output_utxo_processing p keys row change ts revert none ≡ ok out
    → count_total_amount_in_utxos out ≡ count_total_amount_in_utxos row +ℤ change
unfolding output_utxo_processing
processed-total p keys ts revert [] change out enough done = absurd (cc done)
processed-total p keys ts revert (first ∷ others) change out enough done =
    output_utxo_processing-conserves p keys first others change ts revert none out enough done
    ∙ +ℤ_zero _

amount_change-balanced :
    (field_p : ℕ) (change : ℤ) (row out : List Utxo)
    → count_total_amount_in_utxos out ≡ count_total_amount_in_utxos row +ℤ change
    → amount_change field_p false row out ≡ normalized field_p change
unfolding amount_change
amount_change-balanced field_p change row out h =
    rw (h, cancel (count_total_amount_in_utxos row) change)
      (elim (Bool-cases (is_neg change)) [
        | inl negative ↦ rw (negative) refl
        | inr other ↦ rw (other) refl
      ])
  where
    cancel : (a c : ℤ) → a +ℤ c -ℤ a ≡ c
    cancel a c = omega int_laws

amounts_agree-processed :
    (field_p : ℕ) (p : Primitives) (keys : UserKeys) (ts : String) (revert : Bool)
    (rows : List (List Utxo)) (changes : List ℤ) (outs : List (List Utxo))
    → AreProcessed p keys ts revert rows changes outs
    → amounts_agree field_p (calc_amount_changes field_p false rows outs) changes ≡ true
unfolding amounts_agree calc_amount_changes
amounts_agree-processed field_p p keys ts revert [] [] outs h = refl
amounts_agree-processed field_p p keys ts revert [] (change ∷ changes) outs h = absurd h
amounts_agree-processed field_p p keys ts revert (row ∷ rows) [] outs h = absurd h
amounts_agree-processed field_p p keys ts revert (row ∷ rows) (change ∷ changes) [] h = absurd h
amounts_agree-processed field_p p keys ts revert (row ∷ rows) (change ∷ changes) (out ∷ outs)
      (enough, done, h) =
    let e =
      amount_change-balanced field_p change row out
        (processed-total p keys ts revert row change out enough done) in
    let same : int_beq (normalized field_p change) (normalized field_p change) ≡ true =
      (int_beq_iff (normalized field_p change) (normalized field_p change)).1 refl in
    rw (e, same) (amounts_agree-processed field_p p keys ts revert rows changes outs h)

-- EnsureAmountChanges accepts, for each token, the outputs that OutputUtxoProcessing makes of its
-- inputs and the change, without a recipient, where inputs and change do not fall below zero
-- together.
pub ensure_amount_changes-processed :
    (field_p : ℕ) (p : Primitives) (keys : UserKeys) (ts : String) (revert : Bool)
    (rows : List (List Utxo)) (changes : List ℤ) (outs : List (List Utxo))
    → AreProcessed p keys ts revert rows changes outs
    → ensure_amount_changes field_p rows outs changes ≡ ok tt
unfolding ensure_amount_changes
ensure_amount_changes-processed field_p p keys ts revert rows changes outs h =
    rw (amounts_agree-processed field_p p keys ts revert rows changes outs h) refl
