-- ===== src/Funds/Merge.antt =====
-- Merging the fee into the changes of the amounts takes the flat fee off exactly once.
use go_sdk_test.Common.{
  ◌+◌, ◌≡◌, ap, ◌∙◌, Bool, ◌&&◌, Option, none, some, List, [], ◌∷◌, ◌++◌, String, ℤ, pos, neg, ◌+ℤ◌,
  ◌-ℤ◌, is_pos, ltb_ℤ, Bool-cases, inl, inr, Result, ok, err, int_laws, arith, pos_part, neg_part,
}
use go_sdk_test.Funds.{FeeStructure, FundsError, merge_found, merge_with_fee_structure}
use go_sdk_test.Funds.Approvals.{total_of}

-- The changes that come out, where some do, add up to those that went in less the fee.
abbrev IsLowered : ℤ → List ℤ → Option (Result FundsError (List ℤ)) → Type 0
IsLowered fee cs none = Unit {0}
IsLowered fee cs (some (err x)) = Unit {0}
IsLowered fee cs (some (ok cs')) = total_of cs' ≡ total_of cs -ℤ fee

-- The same of the tokens and changes that MergeWithFeeStructure leaves.
abbrev Lowers : ℤ → List ℤ → Result FundsError (List String × List ℤ) → Type 0
Lowers fee cs (err x) = Unit {0}
Lowers fee cs (ok (tokens, cs')) = total_of cs' ≡ total_of cs -ℤ fee

neg_parts : (a : ℤ) → pos_part (neg a) + pos_part a ≡ neg_part (neg a) + neg_part a
neg_parts a = ground arith

total-append_fee : (fee : ℤ) (cs : List ℤ) → total_of (cs ++ neg fee ∷ []) ≡ total_of cs -ℤ fee
unfolding total_of
total-append_fee fee [] = zero_less fee
  where
    zero_less : (a : ℤ) → neg a +ℤ pos 0 ≡ pos 0 -ℤ a
    zero_less a = omega (int_laws, neg_parts a)
total-append_fee fee (c ∷ cs) = ap (λ t. c +ℤ t) (total-append_fee fee cs) ∙ omega int_laws

module _ (equal_fold : String → String → Bool) (f : FeeStructure) where
  IsLowered-cons :
      (c : ℤ) (cs : List ℤ) (rest : Option (Result FundsError (List ℤ)))
      → IsLowered f.flat_fee cs rest
      → IsLowered f.flat_fee (c ∷ cs) (elim rest [
        | none ↦ none
        | some (err x) ↦ some (err x)
        | some (ok cs') ↦ some (ok (c ∷ cs'))
      ])
  unfolding total_of
  IsLowered-cons c cs none h = tt
  IsLowered-cons c cs (some (err x)) h = tt
  IsLowered-cons c cs (some (ok cs')) h = ap (λ t. c +ℤ t) h ∙ omega int_laws

  take_fee :
      (c : ℤ) (cs : List ℤ) → total_of ((c -ℤ f.flat_fee) ∷ cs) ≡ total_of (c ∷ cs) -ℤ f.flat_fee
  unfolding total_of
  take_fee c cs = omega int_laws

  merge_found-IsLowered :
      (tokens : List String) (cs : List ℤ)
      → IsLowered f.flat_fee cs (merge_found equal_fold f tokens cs)
  unfolding merge_found
  merge_found-IsLowered [] cs = tt
  merge_found-IsLowered (token ∷ tokens) [] = elim (Bool-cases (equal_fold token f.fee_token)) [
    | inl here ↦ rw (here) tt
    | inr other ↦ rw (other) (merge_found-IsLowered tokens [])
  ]
  merge_found-IsLowered (token ∷ tokens) (c ∷ cs) =
      elim (Bool-cases (equal_fold token f.fee_token)) [
        | inr other ↦ rw (other) (IsLowered-cons c cs _ (merge_found-IsLowered tokens cs))
        | inl here ↦ elim (Bool-cases (is_pos c && ltb_ℤ c f.flat_fee)) [
          | inl over ↦ rw (here, over) tt
          | inr fits ↦ rw (here, fits) (take_fee c cs)
        ]
      ]

  merged-Lowers :
      (tokens : List String) (cs : List ℤ) (found : Option (Result FundsError (List ℤ)))
      → IsLowered f.flat_fee cs found
      → Lowers f.flat_fee cs (elim found [
        | none ↦ ok (tokens ++ f.fee_token ∷ [], cs ++ neg f.flat_fee ∷ [])
        | some (err x) ↦ err x
        | some (ok cs') ↦ ok (tokens, cs')
      ])
  merged-Lowers tokens cs none h = total-append_fee f.flat_fee cs
  merged-Lowers tokens cs (some (err x)) h = tt
  merged-Lowers tokens cs (some (ok cs')) h = h

  -- Where MergeWithFeeStructure returns, the changes of the amounts add up to those before, less the
  -- flat fee: it is taken off once, be the fee token among the tokens or not.
  pub merge_with_fee-lowers :
      (tokens : List String) (cs : List ℤ) (tokens' : List String) (cs' : List ℤ)
      → merge_with_fee_structure equal_fold f tokens cs ≡ ok (tokens', cs')
      → total_of cs' ≡ total_of cs -ℤ f.flat_fee
  unfolding merge_with_fee_structure
  merge_with_fee-lowers tokens cs tokens' cs' done =
      let lowers : Lowers f.flat_fee cs (merge_with_fee_structure equal_fold f tokens cs) =
        merged-Lowers tokens cs _ (merge_found-IsLowered tokens cs) in
      rw (done) at lowers
