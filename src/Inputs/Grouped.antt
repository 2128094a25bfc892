-- ===== src/Inputs/Grouped.antt =====
-- GetInputUtxoAndBalancePerToken: the row of a token has exactly the token's UTXOs, from the largest
-- on, and then empty ones.
use mathlib.Core.List.{Perm}
use mathlib.Core.List.Perm
use go_sdk_test.Common.{
  ℕ, zero, suc, ◌≡◌, refl, sym, ap, ◌∙◌, Bool, true, false, Option, none, some, List, [], ◌∷◌, ◌++◌,
  append_assoc, append-nil, String, pos, ◌==◌, string_eq, keep, keep-append, lookup, contains,
  lookup-insert, Bool-cases, Option-cases, Result-cases, inl, inr, ok, length, ltb_ℤ,
}
use go_sdk_test.Utxo.{Primitives, Utxo, new_utxo, get_token_address}
use go_sdk_test.Utxo.Caching.{IsMadeFrom, new_utxo-IsMadeFrom}
use go_sdk_test.Balance.Sorted.{
  sort_and_pad_utxos, sort_by_amount, insert_by_amount, pad_utxos, cut_at_six, needs_padding,
  IsDescending, sort-IsDescending,
}
use go_sdk_test.Inputs.{
  Tokens, Rows, encode_token_with_id, or_no_utxos, zero_params, add_key, add_item, group_items,
  ensure_tokens, key_params, padded_result, pad_each, get_input_utxo_and_balance_per_token,
}
use go_sdk_test.Inputs.PerToken.{padded_result-ok}
use go_sdk_test.Inputs.Rows.{AreEmpty}

insert-Perm : (u : Utxo) (us : List Utxo) → Perm (insert_by_amount u us) (u ∷ us)
unfolding insert_by_amount
insert-Perm u [] = Perm.refl _
insert-Perm u (v ∷ vs) = elim (Bool-cases (ltb_ℤ u.amount v.amount)) [
  | inr here ↦ rw (here) (Perm.refl _)
  | inl behind ↦ rw (behind) (Perm.trans (Perm.cons v (insert-Perm u vs)) (Perm.swap u v vs))
]

sort-Perm : (us : List Utxo) → Perm (sort_by_amount us) us
unfolding sort_by_amount
sort-Perm [] = Perm.refl _
sort-Perm (u ∷ us) = Perm.trans (insert-Perm u (sort_by_amount us)) (Perm.cons u (sort-Perm us))

-- The loop without a cut adds UTXOs of no amount alone.
pad_utxos-AreEmpty :
    (fuel : ℕ) (pad : Option Utxo) (min_input : ℕ) (us out : List Utxo)
    → ((z : Utxo) → pad ≡ some z → z.amount ≡ pos 0)
    → pad_utxos fuel pad min_input false us ≡ some (some out)
    → (zs : List Utxo) × (out ≡ us ++ zs) × AreEmpty zs
unfolding pad_utxos cut_at_six
pad_utxos-AreEmpty zero pad min_input us out h done = absurd (cc done)
pad_utxos-AreEmpty (suc fuel) pad min_input us out h done =
    elim (Bool-cases (needs_padding min_input (length us))) [
      | inr ended ↦
          let e : us ≡ out = cc (rw (ended) at done) in ([], sym e ∙ sym (append-nil us), tt)
      | inl more ↦ elim (Option-cases pad) [
        | inl missing ↦ absurd (cc (rw (more, missing) at done))
        | inr (z, made) ↦
            let (zs, behind, empty) =
              pad_utxos-AreEmpty fuel (some z) min_input (us ++ z ∷ []) out (λ y e. h y (made ∙ e))
                (rw (more, made) at done) in
            (z ∷ zs, behind ∙ append_assoc us (z ∷ []) zs, (h z made, empty))
      ]
    ]

key_params-zero :
    (c : Tokens) (key : String) (params : Utxo)
    → key_params c key ≡ some params
    → params.amount ≡ pos 0
unfolding key_params
key_params-zero c key params h = elim (Bool-cases c.is_solana) [
  | inr evm ↦
      let e : zero_params c (c.to_lower (c.first_part key)) "" ≡ params = cc (rw (evm) at h) in
      ap (λ u. u.amount) (sym e)
  | inl solana ↦ elim (Option-cases (c.format_mint (c.first_part key))) [
    | inl missing ↦ absurd (cc (rw (solana, missing) at h))
    | inr (compressed, found) ↦
        let e : zero_params c (c.to_lower compressed) (c.first_part key) ≡ params =
          cc (rw (solana, found) at h) in
        ap (λ u. u.amount) (sym e)
  ]
]

-- The UTXO has the address that the key is made of.
abbrev pub has_key : Tokens → String → Utxo → Bool
has_key c key u = elim (get_token_address c.is_solana u) [
  | none ↦ false
  | some address ↦ encode_token_with_id c address == key
]

add_item-row :
    (c : Tokens) (key : String) (u : Utxo) (m : Rows)
    → or_no_utxos (lookup key (add_item c none u m))
      ≡ or_no_utxos (lookup key m) ++ keep (has_key c key) (u ∷ [])
unfolding add_item
add_item-row c key u m = elim (Option-cases (get_token_address c.is_solana u)) [
  | inl missing ↦
      let h : has_key c key u ≡ false = rw (has_key, missing) refl in
      rw (h, add_item, missing) (sym (append-nil _))
  | inr (address, found) ↦
      let own = encode_token_with_id c address in
      let row = or_no_utxos (lookup own m) ++ u ∷ [] in
      elim (Bool-cases (own == key)) [
        | inr other ↦
            let h : has_key c key u ≡ false = rw (has_key, found) other in
            rw (h, add_item, found, lookup-insert own key row m, other) (sym (append-nil _))
        | inl same ↦
            let e : own ≡ key = (string_eq.same_key_iff own key).0 same in
            let h : has_key c key u ≡ true = rw (has_key, found) same in
            rw (h, add_item, found, lookup-insert own key row m, same)
              (ap (λ k. or_no_utxos (lookup k m) ++ u ∷ []) e)
      ]
]

group_items-eq-keep :
    (c : Tokens) (key : String) (us : List Utxo) (m : Rows)
    → or_no_utxos (lookup key (group_items c none us m))
      ≡ or_no_utxos (lookup key m) ++ keep (has_key c key) us
unfolding group_items
group_items-eq-keep c key [] m = sym (append-nil _)
group_items-eq-keep c key (u ∷ us) m =
    group_items-eq-keep c key us (add_item c none u m)
    ∙ ap (λ row. row ++ keep (has_key c key) us) (add_item-row c key u m)
    ∙ append_assoc (or_no_utxos (lookup key m)) (keep (has_key c key) (u ∷ [])) _
    ∙ ap (λ row. or_no_utxos (lookup key m) ++ row) (sym (keep-append (has_key c key) (u ∷ []) us))

add_key-row :
    (key other : String) (m : Rows)
    → or_no_utxos (lookup other (add_key key m)) ≡ or_no_utxos (lookup other m)
unfolding add_key contains
add_key-row key other m = elim (Option-cases (lookup key m)) [
  | inr (us, found) ↦ rw (add_key, contains, found) refl
  | inl missing ↦ elim (Bool-cases (key == other)) [
    | inr different ↦ rw (add_key, contains, missing, lookup-insert key other [] m, different) refl
    | inl same ↦
        let e : key ≡ other = (string_eq.same_key_iff key other).0 same in
        let none_there : lookup other m ≡ none = ap (λ k. lookup k m) (sym e) ∙ missing in
        rw (add_key, contains, missing, lookup-insert key other [] m, same, none_there) refl
  ]
]

ensure_tokens-row :
    (c : Tokens) (ts : List String) (key : String) (m : Rows)
    → or_no_utxos (lookup key (ensure_tokens c ts m)) ≡ or_no_utxos (lookup key m)
unfolding ensure_tokens
ensure_tokens-row c [] key m = refl
ensure_tokens-row c (t ∷ ts) key m =
    ensure_tokens-row c ts key (add_key (encode_token_with_id c t) m)
    ∙ add_key-row (encode_token_with_id c t) key m

-- The row of a key: the UTXOs of that key, from the largest on, and behind them UTXOs of no amount.
abbrev pub IsRowOf : Tokens → List Utxo → String → List Utxo → Type 0
IsRowOf c us key row =
    (ss zs : List Utxo) × (row ≡ ss ++ zs)
    × Perm ss (keep (has_key c key) us)
    × IsDescending ss
    × AreEmpty zs

pad_each-row :
    (p : Primitives) (c : Tokens) (min_input : ℕ) (m m' : Rows) (key : String)
    (held row : List Utxo)
    → pad_each p c min_input false m ≡ ok m'
    → lookup key m ≡ some held
    → lookup key m' ≡ some row
    → (zs : List Utxo) × (row ≡ sort_by_amount held ++ zs) × AreEmpty zs
unfolding pad_each lookup sort_and_pad_utxos
pad_each-row p c min_input [] m' key held row done found found' = absurd (cc found)
pad_each-row p c min_input ((k, us) ∷ rest) m' key held row done found found' =
    elim (Option-cases (key_params c k)) [
      | inl missing ↦ absurd (cc (rw (missing) at done))
      | inr (params, given) ↦
          elim (Result-cases (padded_result (sort_and_pad_utxos p params 7 min_input false us))) [
            | inr (x, failed) ↦ absurd (cc (rw (given, failed) at done))
            | inl (out, padded) ↦ elim (Result-cases (pad_each p c min_input false rest)) [
              | inr (x, failed) ↦ absurd (cc (rw (given, padded, failed) at done))
              | inl (others, more) ↦
                  let e : m' ≡ (k, out) ∷ others = cc (rw (given, padded, more) at done) in
                  elim (Bool-cases (k == key)) [
                    | inl same ↦
                        let us_held : us ≡ held = cc (rw (same) at found) in
                        let out_row : out ≡ row = cc (rw (e, same) at found') in
                        rw (← us_held, ← out_row)
                          (pad_utxos-AreEmpty 7 (new_utxo p params) min_input (sort_by_amount us)
                            out (made_empty p c k params given) (padded_result-ok _ out padded))
                    | inr other ↦
                        pad_each-row p c min_input rest others key held row more
                          (rw (other) at found) (rw (e, other) at found')
                  ]
            ]
          ]
    ]
  where
    made_empty :
        (p : Primitives) (c : Tokens) (k : String) (params : Utxo)
        → key_params c k ≡ some params
        → (z : Utxo) → new_utxo p params ≡ some z
        → z.amount ≡ pos 0
    made_empty p c k params given z made =
        let (_, _, a, _, _) : IsMadeFrom params (some z) =
          rw (made) at (new_utxo-IsMadeFrom p params) in
        a ∙ key_params-zero c k params given

-- A row that GetInputUtxoAndBalancePerToken returns, with no filter and no cut.
pub per_token-IsRowOf :
    (p : Primitives) (c : Tokens) (min_input : ℕ) (ts : List String) (us : List Utxo) (m : Rows)
    (key : String) (held row : List Utxo)
    → get_input_utxo_and_balance_per_token p c min_input false none ts us ≡ ok m
    → lookup key (ensure_tokens c ts (group_items c none us [])) ≡ some held
    → lookup key m ≡ some row
    → IsRowOf c us key row
unfolding get_input_utxo_and_balance_per_token lookup
per_token-IsRowOf p c min_input ts us m key held row done there found =
    let grouped = ensure_tokens c ts (group_items c none us []) in
    let (zs, behind, empty) = pad_each-row p c min_input grouped m key held row done there found in
    let e : held ≡ keep (has_key c key) us =
      sym (ap or_no_utxos there)
      ∙ ensure_tokens-row c ts key (group_items c none us [])
      ∙ group_items-eq-keep c key us [] in
    (sort_by_amount held, zs, behind, rw (← e) (sort-Perm held), sort-IsDescending held, empty)
