-- ===== src/Stuck/Amounts.antt =====
-- The amounts of a withdrawal of stuck UTXOs.
use go_sdk_test.Common.{
  ◌+◌, ◌≡◌, ap, ◌∙◌, true, List, [], ◌∷◌, String, ℤ, neg, ◌-ℤ◌, is_pos, pos_part, neg_part, Result,
  ok, err, Result-cases, Bool-cases, inl, inr, arith, int_laws, +ℤ_zero,
}
use go_sdk_test.Funds.{FeeStructure, merge_with_fee_structure}
use go_sdk_test.Funds.Approvals.{total_of}
use go_sdk_test.Funds.Merge.{merge_with_fee-lowers}
use go_sdk_test.Stuck.{Session, map_err, funds_error}
use go_sdk_test.Stuck.Withdraw.{amount_to_recipient, stuck_changes, solana_stuck_changes}

neg_parts : (a : ℤ) → pos_part (neg a) + pos_part a ≡ neg_part (neg a) + neg_part a
neg_parts a = ground arith

map_err_ok : {E F A : Type 0} (f : E → F) (r : Result E A) (a : A) → map_err f r ≡ ok a → r ≡ ok a
map_err_ok f (ok b) a h = let same : b ≡ a = cc h in ap ok same
map_err_ok f (err e) a h = absurd (cc h)

-- Minus the amount of the recipient, less the fee, is minus the total.
less_fee : (total fee amount : ℤ) → total -ℤ fee ≡ amount → neg amount -ℤ fee ≡ neg total
less_fee total fee amount h = rw (← h) (omega (int_laws, neg_parts total, neg_parts (total -ℤ fee)))

module _ {S : Type 0} (c : Session S) (fee : FeeStructure) where
  amount_to_recipient_ok :
      (total amount : ℤ)
      → amount_to_recipient c fee total ≡ ok amount
      → (total -ℤ fee.flat_fee ≡ amount) × (is_pos amount ≡ true)
  unfolding amount_to_recipient
  amount_to_recipient_ok total amount h = elim (Bool-cases (is_pos (total -ℤ fee.flat_fee))) [
    | inr low ↦ absurd (cc (rw (amount_to_recipient, low) at h))
    | inl enough ↦
        let e : ok (total -ℤ fee.flat_fee) ≡ ok amount = rw (amount_to_recipient, enough) at h in
        let same : total -ℤ fee.flat_fee ≡ amount = cc e in (same, rw (← same) enough)
  ]

  one_total : (amount : ℤ) → total_of (neg amount ∷ []) -ℤ fee.flat_fee ≡ neg amount -ℤ fee.flat_fee
  unfolding total_of
  one_total amount = rw (+ℤ_zero (neg amount))

  -- Where the changes of the amounts for a withdrawal of stuck UTXOs are computed, they add up to minus
  -- the total of those UTXOs, be the fee token the withdrawn token or another; on Solana they are one
  -- change of minus the total, where the amount that is left for the recipient is positive.
  pub stuck_changes-total :
      (token : String) (total : ℤ) (tokens : List String) (changes : List ℤ)
      → stuck_changes c fee token total ≡ ok (tokens, changes)
      → (total_of changes ≡ neg total)
        × (solana_stuck_changes c fee total ≡ ok (neg total ∷ []))
        × (is_pos (total -ℤ fee.flat_fee) ≡ true)
  unfolding stuck_changes solana_stuck_changes
  stuck_changes-total token total tokens changes done =
      elim (Result-cases (amount_to_recipient c fee total)) [
        | inr (e, short) ↦ absurd (cc (rw (stuck_changes, short) at done))
        | inl (amount, left) ↦
            let (same, enough) = amount_to_recipient_ok total amount left in
            let merged : map_err funds_error
                  (merge_with_fee_structure c.tokens.equal_fold fee (token ∷ []) (neg amount ∷ []))
                ≡ ok (tokens, changes) =
              rw (stuck_changes, left) at done in
            let lowered =
              merge_with_fee-lowers c.tokens.equal_fold fee (token ∷ []) (neg amount ∷ []) tokens
                changes (map_err_ok _ _ _ merged) in
            (
              lowered ∙ one_total amount ∙ less_fee total fee.flat_fee amount same,
              rw (solana_stuck_changes, left, less_fee total fee.flat_fee amount same),
              rw same enough,
            )
      ]
