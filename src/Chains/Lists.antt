-- ===== src/Chains/Lists.antt =====
-- The lists of chains and the tests on them.
use go_sdk_test.Common.{
  ℕ, ◌≡◌, refl, ◌∙◌, Bool, true, false, ◌&&◌, Bool-cases, inl, inr, List, [], ◌∷◌, nat_beq,
  nat_beq_iff, arith,
}
use go_sdk_test.Chains.{contains_id, select_chains, is_solana_like, is_tron_like}

-- A chain is selected if it is in the list and is kept.
pub contains-select :
    (keep : ℕ → Bool) (ids : List ℕ) (id : ℕ)
    → contains_id (select_chains keep ids) id ≡ (contains_id ids id && keep id)
unfolding contains_id select_chains
contains-select keep [] id = refl
contains-select keep (v ∷ vs) id =
    let rest = contains-select keep vs id in
    elim (Bool-cases (nat_beq v id)) [
      | inl same ↦
          let e : v ≡ id = (nat_beq_iff v id).0 same in
          elim (Bool-cases (keep v)) [
            | inl kept ↦ let kept' : keep id ≡ true = rw (e) at kept in rw (kept, same, kept') refl
            | inr dropped ↦
                let dropped' : keep id ≡ false = rw (e) at dropped in
                rw (dropped, same, dropped') (rest ∙ rw (dropped') (and_false (contains_id vs id)))
          ]
      | inr other ↦ elim (Bool-cases (keep v)) [
        | inl kept ↦ rw (kept, other) rest
        | inr dropped ↦ rw (dropped, other) rest
      ]
    ]
  where
    and_false : (b : Bool) → (b && false) ≡ false
    and_false true = refl
    and_false false = refl

-- A chain is not of both kinds.
pub solana-or-tron : (id : ℕ) → is_solana_like id ≡ true → is_tron_like id ≡ false
unfolding is_solana_like is_tron_like contains_id
solana-or-tron id h = ground arith
