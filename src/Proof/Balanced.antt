-- ===== src/Proof/Balanced.antt =====
-- EnsureAmountChanges accepts only balanced changes.
use go_sdk_test.Common.{
  ℕ, ◌*◌, ◌<◌, ◌≡◌, refl, sym, ap, ◌∙◌, true, false, Bool-cases, inl, inr, List, [], ◌∷◌, ℤ, pos,
  negsuc, abs, pos_part, neg_part, ◌+ℤ◌, ◌-ℤ◌, is_neg, int_beq, int_beq_iff, +ℤ_parts, eq_of_parts,
  int_laws, ok, arith,
}
use go_sdk_test.Utxo.{Utxo}
use go_sdk_test.Funds.{count_total_amount_in_utxos}
use go_sdk_test.Proof.{
  amount_change, calc_amount_changes, normalized, amounts_agree, ensure_amount_changes,
}

-- Amounts below half of the field.
abbrev pub IsSmall : ℕ → ℤ → Type 0
IsSmall field_p a = abs a * 2 < field_p

abbrev pub total_out : List (List Utxo) → ℤ
total_out [] = pos 0
total_out (out ∷ outs) = count_total_amount_in_utxos out

abbrev pub other_outs : List (List Utxo) → List (List Utxo)
other_outs [] = []
other_outs (out ∷ outs) = outs

-- Each change is what the outputs of its token are more than the inputs.
abbrev pub AreBalanced : List (List Utxo) → List (List Utxo) → List ℤ → Type 0
AreBalanced [] outs [] = Unit {0}
AreBalanced [] outs (change ∷ changes) = ⊥
AreBalanced (row ∷ rows) outs [] = ⊥
AreBalanced (row ∷ rows) outs (change ∷ changes) =
    (total_out outs ≡ count_total_amount_in_utxos row +ℤ change)
    × AreBalanced rows (other_outs outs) changes

-- The changes asked for, and those that there are, are below half of the field.
abbrev pub AreSmall : ℕ → List (List Utxo) → List (List Utxo) → List ℤ → Type 0
AreSmall field_p [] outs changes = Unit {0}
AreSmall field_p (row ∷ rows) outs [] = Unit {0}
AreSmall field_p (row ∷ rows) outs (change ∷ changes) =
    IsSmall field_p (total_out outs -ℤ count_total_amount_in_utxos row)
    × IsSmall field_p change
    × AreSmall field_p rows (other_outs outs) changes

-- Normalized amounts that are small differ if the amounts do.
normalized-injective :
    (field_p : ℕ) (a b : ℤ)
    → IsSmall field_p a
    → IsSmall field_p b
    → normalized field_p a ≡ normalized field_p b
    → a ≡ b
normalized-injective field_p (pos m) (pos n) small small' e = e
normalized-injective field_p (negsuc j) (negsuc k) small small' e =
    eq_of_parts (negsuc j) (negsuc k) (
      omega (
        arith,
        ap pos_part e,
        ap neg_part e,
        +ℤ_parts (pos field_p) (negsuc j),
        +ℤ_parts (pos field_p) (negsuc k),
      ))
normalized-injective field_p (negsuc j) (pos n) small small' e =
    absurd (
      omega (arith, ap pos_part e, ap neg_part e, +ℤ_parts (pos field_p) (negsuc j), small, small'))
normalized-injective field_p (pos m) (negsuc k) small small' e =
    absurd (
      omega (arith, ap pos_part e, ap neg_part e, +ℤ_parts (pos field_p) (negsuc k), small, small'))

amount_change-eq-normalized :
    (field_p : ℕ) (row out : List Utxo)
    → amount_change field_p false row out
      ≡ normalized field_p (count_total_amount_in_utxos out -ℤ count_total_amount_in_utxos row)
unfolding amount_change
amount_change-eq-normalized field_p row out =
    elim (Bool-cases
      (is_neg (count_total_amount_in_utxos out -ℤ count_total_amount_in_utxos row))) [
        | inl negative ↦ rw (negative) refl
        | inr other ↦ rw (other) refl
      ]

calc-cons :
    (field_p : ℕ) (row : List Utxo) (rows outs : List (List Utxo))
    → (d : ℤ) × (calc_amount_changes field_p false (row ∷ rows) outs
        ≡ d ∷ calc_amount_changes field_p false rows (other_outs outs))
      × (d ≡ normalized field_p (total_out outs -ℤ count_total_amount_in_utxos row))
unfolding calc_amount_changes count_total_amount_in_utxos
calc-cons field_p row rows [] = (_, refl, amount_change-eq-normalized field_p row [])
calc-cons field_p row rows (out ∷ outs) = (_, refl, amount_change-eq-normalized field_p row out)

calc-nil : (field_p : ℕ) (outs : List (List Utxo)) → calc_amount_changes field_p false [] outs ≡ []
unfolding calc_amount_changes
calc-nil field_p outs = refl

agree-AreBalanced :
    (field_p : ℕ) (rows outs : List (List Utxo)) (changes : List ℤ)
    → AreSmall field_p rows outs changes
    → amounts_agree field_p (calc_amount_changes field_p false rows outs) changes ≡ true
    → AreBalanced rows outs changes
unfolding amounts_agree
agree-AreBalanced field_p [] outs [] small same = tt
agree-AreBalanced field_p [] outs (change ∷ changes) small same = absurd (cc (rw (nothing) at same))
  where
    nothing : calc_amount_changes field_p false [] outs ≡ []
    nothing = calc-nil field_p outs
agree-AreBalanced field_p (row ∷ rows) outs [] small same =
    let (d, e, value) = calc-cons field_p row rows outs in absurd (cc (rw (e) at same))
agree-AreBalanced field_p (row ∷ rows) outs (change ∷ changes) (there, asked, small) same =
    let (d, e, value) = calc-cons field_p row rows outs in
    let diff = total_out outs -ℤ count_total_amount_in_utxos row in
    elim (Bool-cases (int_beq d (normalized field_p change))) [
      | inr other ↦ absurd (cc (rw (e, other) at same))
      | inl agree ↦
          let equal : diff ≡ change =
            normalized-injective field_p diff change there asked
              (sym value ∙ (int_beq_iff d (normalized field_p change)).0 agree) in
          (
            balance (total_out outs) (count_total_amount_in_utxos row) change equal,
            agree-AreBalanced field_p rows (other_outs outs) changes small (rw (e, agree) at same),
          )
    ]
  where
    restore : (o i : ℤ) → o ≡ i +ℤ (o -ℤ i)
    restore o i = omega int_laws

    balance : (o i c : ℤ) → o -ℤ i ≡ c → o ≡ i +ℤ c
    balance o i c h = restore o i ∙ ap (λ x. i +ℤ x) h

-- EnsureAmountChanges accepts only changes that are, for each token, what its outputs are more than
-- its inputs, one for each token, where these differences and the changes are below half of the
-- field.
pub ensure_amount_changes-AreBalanced :
    (field_p : ℕ) (rows outs : List (List Utxo)) (changes : List ℤ)
    → AreSmall field_p rows outs changes
    → ensure_amount_changes field_p rows outs changes ≡ ok tt
    → AreBalanced rows outs changes
unfolding ensure_amount_changes
ensure_amount_changes-AreBalanced field_p rows outs changes small accepted =
    elim (Bool-cases
      (amounts_agree field_p (calc_amount_changes field_p false rows outs) changes)) [
        | inl same ↦ agree-AreBalanced field_p rows outs changes small same
        | inr other ↦ absurd (cc (rw (other) at accepted))
      ]
