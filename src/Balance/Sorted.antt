-- ===== src/Balance/Sorted.antt =====
-- sortAndPadUtxos of internal/functions/balance/input_utxos_per_token.go, and topPositiveUtxosForToken
-- of internal/functions/transactions/withdraw_stuck_utxos.go, which sorts in the same way.
use go_sdk_test.Common.{
  ℕ, suc, zero, ◌+◌, ◌≤◌, ◌<◌, ◌≡◌, refl, ap, ◌∙◌, Bool, true, false, ◌&&◌, ◌||◌, Option, none,
  some, List, [], ◌∷◌, ◌++◌, String, ℤ, pos, ◌+ℤ◌, ltb_ℤ, is_pos, if◌then◌else◌, length, take, ltb,
  arith, Bool-cases, inl, inr, +ℤ_zero, length-append, length-take, ◌⊎◌, int_laws,
}
use go_sdk_test.Utxo.{Primitives, Utxo, new_utxo, get_token_address}
use go_sdk_test.Utxo.Caching.{IsMadeFrom, new_utxo-IsMadeFrom}
use go_sdk_test.Funds.{count_total_amount_in_utxos}

-- sort.SliceStable, by descending amount: an equal amount keeps its place.
unfoldable pub insert_by_amount : Utxo → List Utxo → List Utxo
insert_by_amount u [] = u ∷ []
insert_by_amount u (v ∷ vs) =
    if ltb_ℤ u.amount v.amount then v ∷ insert_by_amount u vs else u ∷ v ∷ vs

unfoldable pub sort_by_amount : List Utxo → List Utxo
unfolding insert_by_amount
sort_by_amount [] = []
sort_by_amount (u ∷ us) = insert_by_amount u (sort_by_amount us)

-- The inner loop, which cuts behind the sixth.
unfoldable pub cut_at_six : Bool → List Utxo → List Utxo
cut_at_six slice us = if slice && ltb 6 (length us) then take 6 us else us

unfoldable pub needs_padding : ℕ → ℕ → Bool
needs_padding min_input n = ltb n min_input || (ltb min_input n && ltb n 6)

-- The loop; the outer `none` means that it still runs, the inner one is the error of NewUtxo.
unfoldable pub pad_utxos : ℕ → Option Utxo → ℕ → Bool → List Utxo → Option (Option (List Utxo))
unfolding cut_at_six needs_padding
pad_utxos zero pad min_input slice us = none
pad_utxos (suc fuel) pad min_input slice us =
    let longer : Option (Option (List Utxo)) = elim pad [
      | none ↦ some none
      | some z ↦ pad_utxos fuel (some z) min_input slice (cut_at_six slice (us ++ z ∷ []))
    ] in
    if needs_padding min_input (length us) then longer else some (some us)

unfoldable pub sort_and_pad_utxos :
    Primitives → Utxo → ℕ → ℕ → Bool → List Utxo → Option (Option (List Utxo))
unfolding sort_by_amount pad_utxos
sort_and_pad_utxos p zero_params fuel min_input slice us =
    pad_utxos fuel (new_utxo p zero_params) min_input slice (sort_by_amount us)

-- `equal_fold` is strings.EqualFold.
unfoldable pub positive_utxos_for_token :
    (String → String → Bool) → Bool → String → List Utxo → List Utxo
positive_utxos_for_token equal_fold is_solana token [] = []
positive_utxos_for_token equal_fold is_solana token (u ∷ us) =
    let rest = positive_utxos_for_token equal_fold is_solana token us in
    if is_pos u.amount
    then elim (get_token_address is_solana u) [
      | none ↦ rest
      | some candidate ↦ if equal_fold candidate token then u ∷ rest else rest
    ]
    else rest

unfoldable pub sort_and_cap_stuck_utxos : List Utxo → List Utxo
unfolding sort_by_amount
sort_and_cap_stuck_utxos us =
    let sorted = sort_by_amount us in if ltb 6 (length sorted) then take 6 sorted else sorted

unfoldable pub top_positive_utxos_for_token :
    (String → String → Bool) → Bool → String → List Utxo → List Utxo
unfolding positive_utxos_for_token sort_and_cap_stuck_utxos
top_positive_utxos_for_token equal_fold is_solana token us =
    sort_and_cap_stuck_utxos (positive_utxos_for_token equal_fold is_solana token us)

total-insert :
    (u : Utxo) (us : List Utxo)
    → count_total_amount_in_utxos (insert_by_amount u us)
      ≡ u.amount +ℤ count_total_amount_in_utxos us
unfolding insert_by_amount count_total_amount_in_utxos
total-insert u [] = refl
total-insert u (v ∷ vs) = elim (Bool-cases (ltb_ℤ u.amount v.amount)) [
  | inr here ↦ rw (here) refl
  | inl behind ↦
      rw (behind, total-insert u vs) (swap u.amount v.amount (count_total_amount_in_utxos vs))
]
  where
    swap : (a b c : ℤ) → b +ℤ (a +ℤ c) ≡ a +ℤ (b +ℤ c)
    swap a b c = omega int_laws

total-sort :
    (us : List Utxo)
    → count_total_amount_in_utxos (sort_by_amount us) ≡ count_total_amount_in_utxos us
unfolding sort_by_amount count_total_amount_in_utxos
total-sort [] = refl
total-sort (u ∷ us) = total-insert u (sort_by_amount us) ∙ ap (λ t. u.amount +ℤ t) (total-sort us)

pub total-append_zero :
    (us : List Utxo) (z : Utxo)
    → z.amount ≡ pos 0
    → count_total_amount_in_utxos (us ++ z ∷ []) ≡ count_total_amount_in_utxos us
unfolding count_total_amount_in_utxos
total-append_zero [] z h = rw (h) (+ℤ_zero (pos 0))
total-append_zero (u ∷ us) z h = ap (λ t. u.amount +ℤ t) (total-append_zero us z h)

-- The number of inputs is one that the circuits have.
abbrev pub IsPadded : ℕ → List Utxo → Type 0
IsPadded min_input us = (length us ≡ min_input) ⊎ ((min_input ≤ length us) × (6 ≤ length us))

pub enough_inputs :
    (min_input n : ℕ)
    → needs_padding min_input n ≡ false
    → (n ≡ min_input) ⊎ ((min_input ≤ n) × (6 ≤ n))
unfolding needs_padding
enough_inputs min_input n h = elim (Bool-cases (ltb min_input n)) [
  | inl more ↦ inr (ground arith, ground arith)
  | inr same ↦ inl (ground arith)
]

still_short : (min_input n : ℕ) → min_input ≤ 6 → needs_padding min_input n ≡ true → n < 6
unfolding needs_padding
still_short min_input n six h = ground arith

not_cut : (slice : Bool) (us : List Utxo) → length us ≤ 6 → cut_at_six slice us ≡ us
unfolding cut_at_six
not_cut slice us h = ground arith

pad_utxos-returns :
    (fuel : ℕ) (z : Utxo) (min_input : ℕ) (slice : Bool) (us : List Utxo)
    → z.amount ≡ pos 0
    → min_input ≤ 6
    → 7 ≤ fuel + length us
    → 0 < fuel
    → (out : List Utxo) × (pad_utxos fuel (some z) min_input slice us ≡ some (some out))
      × (count_total_amount_in_utxos out ≡ count_total_amount_in_utxos us)
      × IsPadded min_input out
unfolding pad_utxos
pad_utxos-returns zero z min_input slice us h six enough run = absurd (omega arith)
pad_utxos-returns (suc fuel) z min_input slice us h six enough run =
    elim (Bool-cases (needs_padding min_input (length us))) [
      | inr ended ↦ (us, rw (ended) refl, refl, enough_inputs min_input (length us) ended)
      | inl more ↦
          let short : length us < 6 = still_short min_input (length us) six more in
          let uncut : cut_at_six slice (us ++ z ∷ []) ≡ us ++ z ∷ [] =
            not_cut slice (us ++ z ∷ []) (rw length-append (omega (arith, short))) in
          let (out, returned, total, padded) =
            pad_utxos-returns fuel z min_input slice (us ++ z ∷ []) h six
              (rw length-append (omega arith)) (omega arith) in
          (out, rw (more, uncut) returned, total ∙ total-append_zero us z h, padded)
    ]

module _ (p : Primitives) where
  -- Where NewUtxo succeeds on the empty UTXO and at most six inputs are wanted, the loop ends, within
  -- seven rounds. It keeps the total amount, and the number of inputs becomes the wanted one or is
  -- at least six.
  pub sort_and_pad_utxos-returns :
      (zero_params z : Utxo) (min_input : ℕ) (slice : Bool) (us : List Utxo)
      → zero_params.amount ≡ pos 0
      → new_utxo p zero_params ≡ some z
      → min_input ≤ 6
      → (out : List Utxo) × (sort_and_pad_utxos p zero_params 7 min_input slice us
          ≡ some (some out))
        × (count_total_amount_in_utxos out ≡ count_total_amount_in_utxos us)
        × IsPadded min_input out
  unfolding sort_and_pad_utxos
  sort_and_pad_utxos-returns zero_params z min_input slice us h made six =
      let (c, n, a, b, s) : IsMadeFrom zero_params (some z) =
        rw (made) at (new_utxo-IsMadeFrom p zero_params) in
      let (out, returned, total, padded) =
        pad_utxos-returns 7 z min_input slice (sort_by_amount us) (a ∙ h) six (omega arith)
          (omega arith) in
      (out, rw (made) returned, total ∙ total-sort us, padded)

-- The UTXOs from the largest on.
abbrev pub IsDescending : List Utxo → Type 0
IsDescending [] = Unit {0}
IsDescending (u ∷ []) = Unit {0}
IsDescending (u ∷ v ∷ us) = (ltb_ℤ u.amount v.amount ≡ false) × IsDescending (v ∷ us)

insert-IsDescending :
    (u : Utxo) (us : List Utxo) → IsDescending us → IsDescending (insert_by_amount u us)
unfolding insert_by_amount
insert-IsDescending u [] h = tt
insert-IsDescending u (v ∷ []) h = elim (Bool-cases (ltb_ℤ u.amount v.amount)) [
  | inr here ↦ rw (here) (here, tt)
  | inl behind ↦ rw (behind) (ground (arith, behind), tt)
]
insert-IsDescending u (v ∷ w ∷ us) (first, rest) = elim (Bool-cases (ltb_ℤ u.amount v.amount)) [
  | inr here ↦ rw (here) (here, (first, rest))
  | inl behind ↦
      let tail = insert-IsDescending u (w ∷ us) rest in
      elim (Bool-cases (ltb_ℤ u.amount w.amount)) [
        | inr between ↦ rw (behind, between) (ground (arith, behind), (between, rest))
        | inl deeper ↦ rw (behind, deeper) (first, rw (deeper) at tail)
      ]
]

pub sort-IsDescending : (us : List Utxo) → IsDescending (sort_by_amount us)
unfolding sort_by_amount
sort-IsDescending [] = tt
sort-IsDescending (u ∷ us) = insert-IsDescending u (sort_by_amount us) (sort-IsDescending us)

take-IsDescending : (n : ℕ) (us : List Utxo) → IsDescending us → IsDescending (take n us)
take-IsDescending zero us h = tt
take-IsDescending (suc n) [] h = tt
take-IsDescending (suc zero) (u ∷ us) h = tt
take-IsDescending (suc (suc n)) (u ∷ []) h = tt
take-IsDescending (suc (suc n)) (u ∷ v ∷ us) (first, rest) =
    (first, take-IsDescending (suc n) (v ∷ us) rest)

-- The stuck UTXOs that one withdrawal spends: at most six, the largest first.
pub sort_and_cap-IsDescending :
    (us : List Utxo)
    → (length (sort_and_cap_stuck_utxos us) ≤ 6) × IsDescending (sort_and_cap_stuck_utxos us)
unfolding sort_and_cap_stuck_utxos
sort_and_cap-IsDescending us = elim (Bool-cases (ltb 6 (length (sort_by_amount us)))) [
  | inr few ↦ rw (few) (ground arith, sort-IsDescending us)
  | inl many ↦
      rw (many) (
        rw length-take (omega arith),
        take-IsDescending 6 (sort_by_amount us) (sort-IsDescending us),
      )
]
