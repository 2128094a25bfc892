-- ===== src/Snapshot/Nullifiers/Set.antt =====
-- The nullifier service keeps exactly the set of nullifiers that it has seen.
use go_sdk_test.Common.{
  ℕ, ◌+◌, ◌≡◌, refl, sym, ◌∙◌, Bool, true, false, ◌||◌, ◌&&◌, Option, none, some, List, [], ◌∷◌,
  String, Map, lookup, insert, contains, contains-insert, string_eq, ◌==◌, arith, ap, Bool-cases,
  Option-cases, inl, inr, length,
}
use text.Mathlib.TextEquality.{eq_iff}
use go_sdk_test.Emitter.{BlockchainEvent}
use go_sdk_test.Snapshot.Service.{accept_events}
use go_sdk_test.Snapshot.Nullifiers.{Nullifiers, nullifier_delegate}

module _ (map_event : BlockchainEvent → Option String) where
  -- `n` is the nullifier of the event, which has the service's name and can be read.
  unfoldable pub nullifies : BlockchainEvent → String → Bool
  nullifies ev n =
      ev.event_name == "Nullified" && elim (map_event ev) [ none ↦ false | some k ↦ k == n ]

  -- `n` is the nullifier of some event of the page.
  unfoldable pub is_nullified : String → List BlockchainEvent → Bool
  is_nullified n [] = false
  is_nullified n (ev ∷ evs) = nullifies ev n || is_nullified n evs

  -- What a page does to the set.
  pub record Accepted (evs : List BlockchainEvent) (accepted : ℕ) (s : Nullifiers)
      (result : Option (ℕ × Nullifiers)) : Type 0 where
    pub count : ℕ
    pub after : Nullifiers
    pub returned : result ≡ some (accepted + count, after)
    pub members : (n : String) → contains n after ≡ (contains n s || is_nullified n evs)
    pub counted : length after ≡ length s + count

  -- One event that turns the set `s` into `s'`, with the rest of the page after it.
  Accepted-cons :
      {ev : BlockchainEvent} {evs : List BlockchainEvent} {accepted accepted' : ℕ}
      {s s' : Nullifiers} {result : Option (ℕ × Nullifiers)} (k : ℕ)
      → Accepted evs accepted' s' result
      → accepted' ≡ accepted + k
      → length s' ≡ length s + k
      → ((n : String) → contains n s' ≡ (contains n s || nullifies ev n))
      → Accepted (ev ∷ evs) accepted s result
  unfolding is_nullified
  Accepted-cons k a more longer same = record {
    count = k + a.count;
    after = a.after;
    returned = a.returned ∙ ap (λ i. some (i, a.after)) (omega arith);
    members = λ n. ground (arith, a.members n, same n);
    counted = omega (arith, a.counted);
  }

length-insert_new :
    (n : String) (s : Nullifiers) → contains n s ≡ false → length (insert n tt s) ≡ length s + 1
unfolding contains lookup insert
length-insert_new n [] new = omega arith
length-insert_new n ((k, u) ∷ s) new = ground (arith, length-insert_new n s)

contains_known :
    (k n : String) (s : Nullifiers) → contains k s ≡ true → contains n s ≡ (contains n s || k == n)
contains_known k n s known = elim (Bool-cases (k == n)) [
  | inl same ↦ rw (same) (rw (sym (ap (λ i. contains i s) ((eq_iff k n).0 same)), known) refl)
  | inr other ↦ ground (arith, other)
]

module _ (map_event : BlockchainEvent → Option String) (blocked : Map String (Unit {0})) where
  pub accept_events-Accepted :
      (evs : List BlockchainEvent) (accepted : ℕ) (s : Nullifiers)
      → Accepted map_event evs accepted s
          (accept_events (nullifier_delegate map_event) "Nullified" blocked evs accepted s)
  unfolding accept_events nullifier_delegate is_nullified nullifies
  accept_events-Accepted [] accepted s = record {
    count = 0;
    after = s;
    returned = ground arith;
    members = λ n. ground arith;
    counted = omega arith;
  }
  accept_events-Accepted (ev ∷ evs) accepted s =
      let skipped = accept_events-Accepted evs accepted s in
      elim (Bool-cases (ev.event_name == "Nullified")) [
        | inr other ↦ rw (other) (
            Accepted-cons map_event 0 skipped (omega arith) (omega arith)
              (λ n. rw (other) (ground arith)))
        | inl named ↦ elim (Option-cases (map_event ev)) [
          | inl missing ↦
              rw (named, missing)
                (Accepted-cons map_event 0 skipped (omega arith) (omega arith)
                  (λ n. rw (named, missing) (ground arith)))
          | inr (k, read) ↦ elim (Bool-cases (contains k s)) [
            | inl known ↦
                rw (named, read, known)
                  (Accepted-cons map_event 0 skipped (omega arith) (omega arith)
                    (λ n. rw (named, read) (contains_known k n s known)))
            | inr new ↦
                rw (named, read, new)
                  (Accepted-cons map_event 1
                    (accept_events-Accepted evs (accepted + 1) (insert k tt s)) (omega arith)
                    (length-insert_new k s new)
                    (λ n. rw (named, read, contains-insert k n tt s) (ground arith)))
          ]
        ]
      ]
