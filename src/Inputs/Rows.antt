-- ===== src/Inputs/Rows.antt =====
-- The rows of AddPaddingToUtxos all have one length, and their amounts do.
use go_sdk_test.Common.{
  ℕ, zero, suc, ◌+◌, ◌-◌, ◌≤◌, ◌≡◌, refl, sym, ap, ◌∙◌, Bool, true, false, Bool-cases, inl, inr,
  ◌⊎◌, Option-cases, some, List, [], ◌∷◌, ◌++◌, String, ℤ, pos, ltb, max, length, length-append,
  length-take, take, append_assoc, append-nil, ◌<◌, lookup, string_eq, Result-cases, ok, arith,
  if◌then◌else◌,
}
use go_sdk_test.Utxo.{Primitives, Utxo, new_utxo}
use go_sdk_test.Utxo.Caching.{IsMadeFrom, new_utxo-IsMadeFrom}
use go_sdk_test.Funds.{count_total_amount_in_utxos}
use go_sdk_test.Balance.Sorted.{IsPadded, total-append_zero}
use go_sdk_test.Inputs.{
  Tokens, Rows, encode_token_with_id, or_no_utxos, collect_rows, max_utxo_num, token_params,
  zero_params, append_padding, is_short, later_changes, pad_row, pad_rows,
}
use go_sdk_test.Inputs.PerToken.{HavePaddedRows}

token_params-zero :
    (c : Tokens) (token : String) (params : Utxo)
    → token_params c token ≡ some params
    → params.amount ≡ pos 0
unfolding token_params
token_params-zero c token params h = elim (Bool-cases c.is_solana) [
  | inr evm ↦
      let e : zero_params c token "" ≡ params = cc (rw (evm) at h) in ap (λ u. u.amount) (sym e)
  | inl solana ↦ elim (Option-cases (c.format_mint token)) [
    | inl missing ↦ absurd (cc (rw (solana, missing) at h))
    | inr (compressed, found) ↦
        let e : zero_params c compressed token ≡ params = cc (rw (solana, found) at h) in
        ap (λ u. u.amount) (sym e)
  ]
]

-- UTXOs of no amount.
abbrev pub AreEmpty : List Utxo → Type 0
AreEmpty [] = Unit {0}
AreEmpty (z ∷ zs) = (z.amount ≡ pos 0) × AreEmpty zs

-- The row itself, with UTXOs of no amount behind it.
abbrev pub IsFilledUp : List Utxo → List Utxo → Type 0
IsFilledUp row out =
    (zs : List Utxo) × (out ≡ row ++ zs)
    × AreEmpty zs
    × (count_total_amount_in_utxos out ≡ count_total_amount_in_utxos row)

append_padding-IsFilledUp :
    (p : Primitives) (c : Tokens) (token : String) (diff : ℕ) (us out : List Utxo)
    → append_padding p c token diff us ≡ ok out
    → (length out ≡ length us + diff) × IsFilledUp us out
unfolding append_padding
append_padding-IsFilledUp p c token zero us out done =
    let e : us ≡ out = cc done in
    (
      ap length (sym e) ∙ omega arith,
      ([], sym e ∙ sym (append-nil us), tt, ap count_total_amount_in_utxos (sym e)),
    )
append_padding-IsFilledUp p c token (suc diff) us out done =
    elim (Option-cases (token_params c token)) [
      | inl missing ↦ absurd (cc (rw (missing) at done))
      | inr (params, given) ↦ elim (Option-cases (new_utxo p params)) [
        | inl missing ↦ absurd (cc (rw (given, missing) at done))
        | inr (z, made) ↦
            let (_, _, a, _, _) : IsMadeFrom params (some z) =
              rw (made) at (new_utxo-IsMadeFrom p params) in
            let no_amount = a ∙ token_params-zero c token params given in
            let (longer, (zs, behind, empty, total)) =
              append_padding-IsFilledUp p c token diff (us ++ z ∷ []) out
                (rw (given, made) at done) in
            (
              omega (arith, longer, length-append us (z ∷ [])),
              (
                z ∷ zs,
                behind ∙ append_assoc us (z ∷ []) zs,
                (no_amount, empty),
                total ∙ total-append_zero us z no_amount,
              ),
            )
      ]
    ]

-- The front of a row that is too long, with an amount that does for the first of the changes.
abbrev pub IsCut : ℕ → List ℤ → List Utxo → List Utxo → Type 0
IsCut n [] row out = ⊥
IsCut n (change ∷ changes) row out =
    (n < length row)
    × (out ≡ take n row)
    × (is_short change (count_total_amount_in_utxos out) ≡ false)

pad_row-IsCut :
    (p : Primitives) (c : Tokens) (max_input : ℕ) (token : String) (changes : List ℤ)
    (row out : List Utxo)
    → ltb max_input (length row) ≡ true
    → pad_row p c max_input token changes row ≡ ok out
    → (length out ≡ max_input) × IsCut max_input changes row out
unfolding pad_row
pad_row-IsCut p c max_input token [] row out many done = absurd (cc (rw (many) at done))
pad_row-IsCut p c max_input token (change ∷ changes) row out many done =
    let kept = take max_input row in
    elim (Bool-cases (is_short change (count_total_amount_in_utxos kept))) [
      | inl short ↦ absurd (cc (rw (many, short) at done))
      | inr enough ↦
          let e : out ≡ kept = cc (rw (many, enough) at done) in
          rw (e) (length-take max_input row ∙ ground arith, (ground (arith, many), refl, enough))
    ]

pad_row-returns :
    (p : Primitives) (c : Tokens) (max_input : ℕ) (token : String) (changes : List ℤ)
    (row out : List Utxo)
    → pad_row p c max_input token changes row ≡ ok out
    → (length out ≡ max_input) × (IsFilledUp row out ⊎ IsCut max_input changes row out)
unfolding pad_row
pad_row-returns p c max_input token changes row out done =
    elim (Bool-cases (ltb max_input (length row))) [
      | inr few ↦
          let (longer, filled) =
            append_padding-IsFilledUp p c token (max_input - length row) row out
              (rw (few) at done) in
          (ground (arith, longer), inl filled)
      | inl many ↦
          let (exact, cut) = pad_row-IsCut p c max_input token changes row out many done in
          (exact, inr cut)
    ]

-- Each row of inputs comes back as one of `n` inputs, filled up or cut.
abbrev pub AreRows : ℕ → List ℤ → List (List Utxo) → List (List Utxo) → Type 0
AreRows n changes [] [] = Unit {0}
AreRows n changes [] (out ∷ outs) = ⊥
AreRows n changes (row ∷ rows) [] = ⊥
AreRows n changes (row ∷ rows) (out ∷ outs) =
    (length out ≡ n)
    × (IsFilledUp row out ⊎ IsCut n changes row out)
    × AreRows n (later_changes changes) rows outs

pub pad_rows-AreRows :
    (p : Primitives) (c : Tokens) (force : Bool) (m : Rows) (max_input : ℕ) (tokens : List String)
    (changes : List ℤ) (outs : List (List Utxo))
    → pad_rows p c max_input tokens changes (collect_rows c force m tokens) ≡ ok outs
    → AreRows max_input changes (collect_rows c force m tokens) outs
unfolding pad_rows collect_rows
pad_rows-AreRows p c force m max_input [] changes outs done =
    let e : outs ≡ [] = cc done in rw (e) tt
pad_rows-AreRows p c force m max_input (token ∷ tokens) changes outs done =
    let row = if force then [] else or_no_utxos (lookup (encode_token_with_id c token) m) in
    let rows = collect_rows c force m tokens in
    elim (Result-cases (pad_row p c max_input token changes row)) [
      | inr (x, failed) ↦ absurd (cc (rw (failed) at done))
      | inl (out, made) ↦
          elim (Result-cases (pad_rows p c max_input tokens (later_changes changes) rows)) [
            | inr (x, failed) ↦ absurd (cc (rw (made, failed) at done))
            | inl (others, more) ↦
                let e : outs ≡ out ∷ others = cc (rw (made, more) at done) in
                let (exact, suffices) = pad_row-returns p c max_input token changes row out made in
                rw (e) (
                  exact,
                  suffices,
                  pad_rows-AreRows p c force m max_input tokens (later_changes changes) others more,
                )
          ]
    ]

-- Rows that the circuits have already, none of them longer than 2, are all of length 2.
pub two_inputs :
    (c : Tokens) (m : Rows) (tokens : List String) (changes : List ℤ)
    → HavePaddedRows c 2 m tokens
    → max_utxo_num (collect_rows c false m tokens) ≤ 2
    → AreRows 2 changes (collect_rows c false m tokens) (collect_rows c false m tokens)
unfolding collect_rows max_utxo_num
two_inputs c m [] changes h short = tt
two_inputs c m (t ∷ ts) changes ((us, found, padded), h) short =
    let row : or_no_utxos (lookup (encode_token_with_id c t) m) ≡ us = ap or_no_utxos found in
    let short' : max (length us) (max_utxo_num (collect_rows c false m ts)) ≤ 2 =
      rw (row) at short in
    let exact : length us ≡ 2 = two us padded (omega arith) in
    rw (row) (
      exact,
      inl ([], sym (append-nil us), tt, refl),
      two_inputs c m ts (later_changes changes) h (omega arith),
    )
  where
    two : (us : List Utxo) → IsPadded 2 us → length us ≤ 2 → length us ≡ 2
    two us (inl e) le = e
    two us (inr (a, b)) le = absurd (omega arith)

pub no_inputs :
    (c : Tokens) (m : Rows) (tokens : List String) → max_utxo_num (collect_rows c true m tokens) ≡ 0
unfolding collect_rows max_utxo_num
no_inputs c m [] = refl
no_inputs c m (t ∷ ts) = rw (no_inputs c m ts) refl
