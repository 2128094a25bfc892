-- ===== src/Inputs/PerToken.antt =====
-- Every token that is to be ensured has a row, and the rows are padded.
use go_sdk_test.Common.{
  ℕ, zero, suc, ◌≡◌, refl, ◌∙◌, Bool, true, Bool-cases, inl, inr, Option, Option-cases, none, some,
  List, [], ◌∷◌, ◌++◌, String, ◌==◌, string_eq, length, lookup, contains, lookup-insert,
  Result-cases, ok,
}
use go_sdk_test.Utxo.{Primitives, Utxo, new_utxo}
use go_sdk_test.Balance.Sorted.{
  sort_and_pad_utxos, sort_by_amount, pad_utxos, cut_at_six, needs_padding, IsPadded, enough_inputs,
}
use go_sdk_test.Inputs.{
  Tokens, Rows, encode_token_with_id, add_key, ensure_tokens, key_params, padded_result, pad_each,
  get_input_utxo_and_balance_per_token, group_items,
}

-- What the loop returns has a number of inputs that the circuits have.
pad_utxos-IsPadded :
    (fuel : ℕ) (pad : Option Utxo) (min_input : ℕ) (slice : Bool) (us out : List Utxo)
    → pad_utxos fuel pad min_input slice us ≡ some (some out)
    → IsPadded min_input out
unfolding pad_utxos
pad_utxos-IsPadded zero pad min_input slice us out h = absurd (cc h)
pad_utxos-IsPadded (suc fuel) pad min_input slice us out h =
    elim (Bool-cases (needs_padding min_input (length us))) [
      | inr ended ↦
          let e : us ≡ out = cc (rw (ended) at h) in
          rw (e) at (enough_inputs min_input (length us) ended)
      | inl more ↦ elim (Option-cases pad) [
        | inl missing ↦ absurd (cc (rw (more, missing) at h))
        | inr (z, made) ↦
            pad_utxos-IsPadded fuel (some z) min_input slice (cut_at_six slice (us ++ z ∷ [])) out
              (rw (more, made) at h)
      ]
    ]

pub padded_result-ok :
    (o : Option (Option (List Utxo))) (out : List Utxo)
    → padded_result o ≡ ok out
    → o ≡ some (some out)
padded_result-ok none out h = absurd (cc h)
padded_result-ok (some none) out h = absurd (cc h)
padded_result-ok (some (some us)) out h = cc h

sort_and_pad-IsPadded :
    (p : Primitives) (params : Utxo) (min_input : ℕ) (slice : Bool) (us out : List Utxo)
    → padded_result (sort_and_pad_utxos p params 7 min_input slice us) ≡ ok out
    → IsPadded min_input out
unfolding sort_and_pad_utxos
sort_and_pad-IsPadded p params min_input slice us out h =
    pad_utxos-IsPadded 7 (new_utxo p params) min_input slice (sort_by_amount us) out
      (padded_result-ok _ out h)

-- A key that is in the map stays in it.
abbrev pub HasRow : String → Rows → Type 0
HasRow key m = (us : List Utxo) × (lookup key m ≡ some us)

add_key-HasRow_self : (key : String) (m : Rows) → HasRow key (add_key key m)
unfolding add_key contains
add_key-HasRow_self key m = elim (Option-cases (lookup key m)) [
  | inl missing ↦
      let same : key == key ≡ true = (string_eq.same_key_iff key key).1 refl in
      rw (add_key, contains, missing) ([], lookup-insert key key [] m ∙ rw (same) refl)
  | inr (us, found) ↦ rw (add_key, contains, found) (us, found)
]

add_key-HasRow : (key other : String) (m : Rows) → HasRow other m → HasRow other (add_key key m)
unfolding add_key contains
add_key-HasRow key other m (us, found) = elim (Option-cases (lookup key m)) [
  | inr (held, there) ↦ rw (add_key, contains, there) (us, found)
  | inl missing ↦ elim (Bool-cases (key == other)) [
    | inl same ↦ rw (add_key, contains, missing) ([], lookup-insert key other [] m ∙ rw (same) refl)
    | inr different ↦
        rw (add_key, contains, missing) (us, lookup-insert key other [] m ∙ rw (different) found)
  ]
]

ensure_tokens-HasRow :
    (c : Tokens) (ts : List String) (key : String) (m : Rows)
    → HasRow key m
    → HasRow key (ensure_tokens c ts m)
unfolding ensure_tokens
ensure_tokens-HasRow c [] key m h = h
ensure_tokens-HasRow c (t ∷ ts) key m h =
    ensure_tokens-HasRow c ts key _ (add_key-HasRow (encode_token_with_id c t) key m h)

abbrev pub HaveRows : Tokens → Rows → List String → Type 0
HaveRows c m [] = Unit {0}
HaveRows c m (t ∷ ts) = HasRow (encode_token_with_id c t) m × HaveRows c m ts

pub ensure_tokens-HaveRows :
    (c : Tokens) (ts : List String) (m : Rows) → HaveRows c (ensure_tokens c ts m) ts
unfolding ensure_tokens
ensure_tokens-HaveRows c [] m = tt
ensure_tokens-HaveRows c (t ∷ ts) m =
    let key = encode_token_with_id c t in
    (
      ensure_tokens-HasRow c ts key (add_key key m) (add_key-HasRow_self key m),
      ensure_tokens-HaveRows c ts (add_key key m),
    )

-- A row of the map that is padded has a padded row for it.
abbrev pub HasPaddedRow : ℕ → String → Rows → Type 0
HasPaddedRow min_input key m = (us : List Utxo) × (lookup key m ≡ some us) × IsPadded min_input us

pad_each-HasPaddedRow :
    (p : Primitives) (c : Tokens) (min_input : ℕ) (slice : Bool) (m m' : Rows) (key : String)
    → pad_each p c min_input slice m ≡ ok m'
    → HasRow key m
    → HasPaddedRow min_input key m'
unfolding pad_each lookup
pad_each-HasPaddedRow p c min_input slice [] m' key done (us, found) = absurd (cc found)
pad_each-HasPaddedRow p c min_input slice ((k, held) ∷ rest) m' key done (us, found) =
    elim (Option-cases (key_params c k)) [
      | inl missing ↦ absurd (cc (rw (missing) at done))
      | inr (params, given) ↦
          elim (Result-cases (padded_result (sort_and_pad_utxos p params 7 min_input slice held))) [
            | inr (x, failed) ↦ absurd (cc (rw (given, failed) at done))
            | inl (out, padded) ↦ elim (Result-cases (pad_each p c min_input slice rest)) [
              | inr (x, failed) ↦ absurd (cc (rw (given, padded, failed) at done))
              | inl (others, more) ↦
                  let e : m' ≡ (k, out) ∷ others = cc (rw (given, padded, more) at done) in
                  rw (e) (elim (Bool-cases (k == key)) [
                    | inl same ↦
                        rw (same) (
                          out,
                          refl,
                          sort_and_pad-IsPadded p params min_input slice held out padded,
                        )
                    | inr other ↦ rw (other) (
                        pad_each-HasPaddedRow p c min_input slice rest others key more
                          (us, rw (other) at found))
                  ])
            ]
          ]
    ]

-- The row of each token that is ensured is padded.
abbrev pub HavePaddedRows : Tokens → ℕ → Rows → List String → Type 0
HavePaddedRows c min_input m [] = Unit {0}
HavePaddedRows c min_input m (t ∷ ts) =
    HasPaddedRow min_input (encode_token_with_id c t) m × HavePaddedRows c min_input m ts

pad_each-HavePaddedRows :
    (p : Primitives) (c : Tokens) (min_input : ℕ) (slice : Bool) (m m' : Rows) (ts : List String)
    → pad_each p c min_input slice m ≡ ok m'
    → HaveRows c m ts
    → HavePaddedRows c min_input m' ts
pad_each-HavePaddedRows p c min_input slice m m' [] done h = tt
pad_each-HavePaddedRows p c min_input slice m m' (t ∷ ts) done (row, h) = (
  pad_each-HasPaddedRow p c min_input slice m m' (encode_token_with_id c t) done row,
  pad_each-HavePaddedRows p c min_input slice m m' ts done h,
)

pub per_token-HavePaddedRows :
    (p : Primitives) (c : Tokens) (min_input : ℕ) (slice : Bool) (filter : Option (List String))
    (ts : List String) (us : List Utxo) (m : Rows)
    → get_input_utxo_and_balance_per_token p c min_input slice filter ts us ≡ ok m
    → HavePaddedRows c min_input m ts
unfolding get_input_utxo_and_balance_per_token
per_token-HavePaddedRows p c min_input slice filter ts us m done =
    pad_each-HavePaddedRows p c min_input slice _ m ts done
      (ensure_tokens-HaveRows c ts (group_items c filter us []))
