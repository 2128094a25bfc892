-- ===== src/Deposit/Matched.antt =====
-- matchRecipientUtxos: each recipient gets a UTXO of its amount, whatever the order of the deposit.
use mathlib.Core.List.{Mem, Perm, not-mem-nil, mem-cons_self, mem_of_ne_of_mem}
use mathlib.Core.List.Perm
use go_sdk_test.Common.{
  ◌≡◌, refl, sym, ap, ◌∙◌, none, some, List, [], ◌∷◌, map, String, ℤ, int_eq, ◌==◌, ok, length,
  arith, Bool-cases, Option-cases, inl, inr,
}
use go_sdk_test.Utxo.{Utxo}
use go_sdk_test.Deposit.{RecipientUtxo, take_match, match_recipient_utxos}

abbrev pub amount_of : Utxo → ℤ
amount_of u = u.amount

pub take_match-some :
    (a : ℤ) (us : List Utxo) (u : Utxo) (vs : List Utxo)
    → take_match a us ≡ some (u, vs)
    → (u.amount ≡ a) × Perm (u ∷ vs) us
unfolding take_match
take_match-some a [] u vs h = absurd (cc h)
take_match-some a (v ∷ us) u vs h = elim (Bool-cases (v.amount == a)) [
  | inl same ↦
      let e : some (v, us) ≡ some (u, vs) = rw (take_match, same) at h in
      let first : v ≡ u = cc e in
      let rest : us ≡ vs = cc e in
      (
        ap amount_of (sym first) ∙ (int_eq.same_key_iff v.amount a).0 same,
        rw (first, rest) (Perm.refl _),
      )
  | inr other ↦ elim (Option-cases (take_match a us)) [
    | inl nothing ↦ absurd (cc (rw (take_match, other, nothing) at h))
    | inr ((w, ws), found) ↦
        let e : some (w, v ∷ ws) ≡ some (u, vs) = rw (take_match, other, found) at h in
        let first : w ≡ u = cc e in
        let rest : v ∷ ws ≡ vs = cc e in
        let (same, perm) = take_match-some a us w ws found in
        (
          ap amount_of (sym first) ∙ same,
          rw (← first, ← rest) (Perm.trans (Perm.swap v w ws) (Perm.cons v perm)),
        )
  ]
]

take_match-none : (a : ℤ) (us : List Utxo) → take_match a us ≡ none → Mem a (map amount_of us) → ⊥
unfolding take_match
take_match-none a [] h m = not-mem-nil m
take_match-none a (v ∷ us) h m = elim (Bool-cases (v.amount == a)) [
  | inl same ↦ absurd (cc (rw (take_match, same) at h))
  | inr other ↦ elim (Option-cases (take_match a us)) [
    | inr (found, there) ↦ absurd (cc (rw (take_match, other, there) at h))
    | inl nothing ↦ take_match-none a us nothing (
        mem_of_ne_of_mem
          (λ e. absurd (cc (sym ((int_eq.same_key_iff v.amount a).1 (sym e)) ∙ other))) m)
  ]
]

-- What a matching says: each recipient has a UTXO of its amount, and no UTXO is used twice.
pub record IsMatched (rs : List String) (amounts : List ℤ) (us : List Utxo)
    (out : List RecipientUtxo) : Type 0 where
  pub recipients : map (λ d. d.recipient_address) out ≡ rs
  pub amounts_match : map (λ d. d.utxo.amount) out ≡ amounts
  pub utxos_match : Perm (map (λ d. d.utxo) out) us

-- If the deposited UTXOs have the amounts that the recipients are due, in any order,
-- matchRecipientUtxos returns: the recipients in their order, each with a UTXO of its amount, and
-- together with every deposited UTXO exactly once.
pub match_recipient_utxos-IsMatched :
    (rs : List String) (amounts : List ℤ) (us : List Utxo)
    → length rs ≡ length amounts
    → Perm amounts (map amount_of us)
    → (out : List RecipientUtxo) × (match_recipient_utxos rs amounts us ≡ ok out)
      × IsMatched rs amounts us out
unfolding match_recipient_utxos
match_recipient_utxos-IsMatched [] [] [] n p =
    ([], refl, record { recipients = refl; amounts_match = refl; utxos_match = Perm.refl [] })
match_recipient_utxos-IsMatched [] [] (u ∷ us) n p =
    absurd (not-mem-nil ((Perm.mem_iff p).1 mem-cons_self))
match_recipient_utxos-IsMatched [] (a ∷ as_) us n p = absurd (omega (arith, n))
match_recipient_utxos-IsMatched (r ∷ rs) [] us n p = absurd (omega (arith, n))
match_recipient_utxos-IsMatched (r ∷ rs) (a ∷ as_) us n p = elim (Option-cases (take_match a us)) [
  | inl nothing ↦ absurd (take_match-none a us nothing ((Perm.mem_iff p).0 mem-cons_self))
  | inr ((u, others), found) ↦
      let (same, perm) = take_match-some a us u others found in
      let amounts_left : Perm (a ∷ as_) (a ∷ map amount_of others) =
        Perm.trans p (rw same at (Perm.symm (Perm.map amount_of perm))) in
      let (out, matched, good) =
        match_recipient_utxos-IsMatched rs as_ others (omega (arith, n))
          (Perm.cons_inv amounts_left) in
      (
        record { recipient_address = r; utxo = u } ∷ out,
        rw (match_recipient_utxos, found, matched),
        record {
          recipients = ap (λ xs. r ∷ xs) good.recipients;
          amounts_match = rw (same, good.amounts_match);
          utxos_match = Perm.trans (Perm.cons u good.utxos_match) perm;
        },
      )
]
