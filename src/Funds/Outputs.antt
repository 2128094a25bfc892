-- ===== src/Funds/Outputs.antt =====
-- The outputs of a transaction: what goes in and the change of the amount come out again.
use go_sdk_test.Common.{
  ◌≡◌, refl, ap, ◌∙◌, +ℤ_zero, Bool, false, ◌&&◌, Option, none, some, List, [], ◌∷◌, String, ℤ, pos,
  ◌+ℤ◌, is_neg, Option-cases, inl, inr, Result, ok, err, arith,
}
use go_sdk_test.Utxo.{Primitives, Utxo, new_utxo}
use go_sdk_test.Utxo.Caching.{IsMadeFrom, new_utxo-IsMadeFrom}
use go_sdk_test.Funds.{
  UserKeys, output_utxo_processing, change_utxo, recipient_utxo, count_total_amount_in_utxos,
  bigint_max, FundsError,
}

-- The amount of a UTXO that may have failed.
abbrev HasAmount : ℤ → Option Utxo → Type 0
HasAmount amount none = Unit {0}
HasAmount amount (some u) = u.amount ≡ amount

abbrev HasTotal : ℤ → Result FundsError (List Utxo) → Type 0
HasTotal total (err x) = Unit {0}
HasTotal total (ok outs) = count_total_amount_in_utxos outs ≡ total

-- What the recipient gets, nothing where there is none.
abbrev pub recipient_amount : Option (List String × ℤ) → ℤ
recipient_amount none = pos 0
recipient_amount (some (parts, amount)) = amount

bigint_max_nonneg : (a : ℤ) → is_neg a ≡ false → bigint_max a (pos 0) ≡ a
bigint_max_nonneg a h = ground arith

total_of_one :
    (u : Utxo) (rest : ℤ) → u.amount ≡ rest → count_total_amount_in_utxos (u ∷ []) ≡ rest +ℤ pos 0
unfolding count_total_amount_in_utxos
total_of_one u rest same = ap (λ a. a +ℤ pos 0) same

total_of_two :
    (u r : Utxo) (rest amount : ℤ)
    → u.amount ≡ rest
    → r.amount ≡ amount
    → count_total_amount_in_utxos (u ∷ r ∷ []) ≡ rest +ℤ amount
unfolding count_total_amount_in_utxos
total_of_two u r rest amount same paid = rw (same, paid, +ℤ_zero amount) refl

module _ (p : Primitives) where
  new_utxo-HasAmount : (params : Utxo) → HasAmount params.amount (new_utxo p params)
  new_utxo-HasAmount params = elim (Option-cases (new_utxo p params)) [
    | inl failed ↦ rw (failed) tt
    | inr (u, made) ↦
        let (c, n, a, b, s) : IsMadeFrom params (some u) =
          rw (made) at (new_utxo-IsMadeFrom p params) in
        rw (made) a
  ]

  change_utxo-HasAmount :
      (keys : UserKeys) (like : Utxo) (amount : ℤ) (ts : String)
      → HasAmount amount (change_utxo p keys like amount ts)
  unfolding change_utxo
  change_utxo-HasAmount keys like amount ts = elim (Option-cases keys.shielded_private_key) [
    | inl missing ↦ rw (missing) tt
    | inr (k, found) ↦ elim (Option-cases keys.spending_public_key) [
      | inl missing ↦ rw (found, missing) tt
      | inr (s, spending) ↦ rw (found, spending) (new_utxo-HasAmount _)
    ]
  ]

  recipient_utxo-HasAmount :
      (parts : List String) (like : Utxo) (amount : ℤ) (ts : String)
      → HasAmount amount (recipient_utxo p parts like amount ts)
  unfolding recipient_utxo
  recipient_utxo-HasAmount (stealth ∷ h00 ∷ h01 ∷ fourth ∷ encryption ∷ rest) like amount ts =
      elim (Option-cases (p.parse_big_int h00)) [
        | inl missing ↦ rw (missing, HasAmount) tt
        | inr (x, first) ↦ elim (Option-cases (p.parse_big_int h01)) [
          | inl missing ↦ rw (first, HasAmount, missing) tt
          | inr (y, second) ↦ rw (first, HasAmount, second) (new_utxo-HasAmount _)
        ]
      ]
  recipient_utxo-HasAmount [] like amount ts = tt
  recipient_utxo-HasAmount (a ∷ []) like amount ts = tt
  recipient_utxo-HasAmount (a ∷ b ∷ []) like amount ts = tt
  recipient_utxo-HasAmount (a ∷ b ∷ c ∷ []) like amount ts = tt
  recipient_utxo-HasAmount (a ∷ b ∷ c ∷ d ∷ []) like amount ts = tt

  output_utxo_processing-HasTotal :
      (keys : UserKeys) (first : Utxo) (others : List Utxo) (change : ℤ) (ts : String)
      (revert : Bool) (recipient : Option (List String × ℤ))
      → is_neg (count_total_amount_in_utxos (first ∷ others) +ℤ change) ≡ false
      → HasTotal
          (count_total_amount_in_utxos (first ∷ others) +ℤ change +ℤ recipient_amount recipient)
          (output_utxo_processing p keys (first ∷ others) change ts revert recipient)
  unfolding output_utxo_processing
  output_utxo_processing-HasTotal keys first others change ts revert recipient enough =
      let rest = count_total_amount_in_utxos (first ∷ others) +ℤ change in
      let revert_not : (revert && is_neg change && is_neg rest) ≡ false = ground (arith, enough) in
      let change_amount = change_utxo-HasAmount keys first (bigint_max rest (pos 0)) ts in
      elim (Option-cases (change_utxo p keys first (bigint_max rest (pos 0)) ts)) [
        | inl failed ↦ rw (revert_not, failed) tt
        | inr (u, made) ↦
            let same : u.amount ≡ rest =
              (rw (made) at change_amount) ∙ bigint_max_nonneg rest enough in
            elim (Option-cases recipient) [
              | inl alone ↦ rw (revert_not, made, alone) (total_of_one u rest same)
              | inr ((parts, amount), given) ↦
                  let r_amount = recipient_utxo-HasAmount parts first amount ts in
                  elim (Option-cases (recipient_utxo p parts first amount ts)) [
                    | inl bad ↦ rw (revert_not, made, given, bad) tt
                    | inr (r, good) ↦
                        let paid : r.amount ≡ amount = rw (good) at r_amount in
                        rw (revert_not, made, given, good) (total_of_two u r rest amount same paid)
                  ]
            ]
      ]

  -- Where the inputs and the change of the amount do not fall below zero together, and the code
  -- returns outputs, their total is that of the inputs, the change, and the amount of the recipient
  -- where there is one.
  pub output_utxo_processing-conserves :
      (keys : UserKeys) (first : Utxo) (others : List Utxo) (change : ℤ) (ts : String)
      (revert : Bool) (recipient : Option (List String × ℤ)) (outs : List Utxo)
      → is_neg (count_total_amount_in_utxos (first ∷ others) +ℤ change) ≡ false
      → output_utxo_processing p keys (first ∷ others) change ts revert recipient ≡ ok outs
      → count_total_amount_in_utxos outs
        ≡ count_total_amount_in_utxos (first ∷ others) +ℤ change +ℤ recipient_amount recipient
  output_utxo_processing-conserves keys first others change ts revert recipient outs enough done =
      rw (done) at
        (output_utxo_processing-HasTotal keys first others change ts revert recipient enough)
