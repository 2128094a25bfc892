-- ===== src/Snapshot/Nullifiers/Replay.antt =====
-- Pages of nullifier events, read once and read again, and the snapshot of the set.
use go_sdk_test.Common.{
  ℕ, ◌≡◌, refl, Bool, true, false, ◌||◌, Option, some, List, [], ◌∷◌, String, Map, lookup, insert,
  contains, contains-insert, string_eq, ◌==◌, arith, Bool-cases, Option-cases, inl, inr,
}
use text.Mathlib.TextEquality.{eq_iff}
use go_sdk_test.Emitter.{BlockchainEvent}
use go_sdk_test.Snapshot.Service.{accept_events, accept_page, blocked_tx_hashes}
use go_sdk_test.Snapshot.Nullifiers.{
  Nullifiers, nullifier_delegate, keys, to_set, serialize_nullifiers, deserialize_nullifiers,
}
use go_sdk_test.Snapshot.Nullifiers.Set.{Accepted, accept_events-Accepted, is_nullified, nullifies}

module _ (map_event : BlockchainEvent → Option String) where
  pub accept_page-Accepted :
      (evs : List BlockchainEvent) (s : Nullifiers)
      → Accepted map_event evs 0 s (accept_page (nullifier_delegate map_event) "Nullified" evs s)
  unfolding accept_page
  accept_page-Accepted evs s = accept_events-Accepted map_event (blocked_tx_hashes evs []) evs 0 s

  -- A page whose nullifiers are all known changes nothing.
  accept_events_known :
      (blocked : Map String (Unit {0})) (evs : List BlockchainEvent) (accepted : ℕ) (s : Nullifiers)
      → ((n : String) → is_nullified map_event n evs ≡ true → contains n s ≡ true)
      → accept_events (nullifier_delegate map_event) "Nullified" blocked evs accepted s
        ≡ some (accepted, s)
  unfolding accept_events nullifier_delegate is_nullified nullifies
  accept_events_known blocked [] accepted s known = refl
  accept_events_known blocked (ev ∷ evs) accepted s known =
      let rest =
        accept_events_known blocked evs accepted s (λ n is. known n (ground (arith, is))) in
      elim (Bool-cases (ev.event_name == "Nullified")) [
        | inr other ↦ rw (other) rest
        | inl named ↦ elim (Option-cases (map_event ev)) [
          | inl missing ↦ rw (named, missing) rest
          | inr (k, read) ↦
              let old : contains k s ≡ true =
                known k (rw (named, read, (eq_iff k k).1 refl) refl) in
              rw (named, read, old) rest
        ]
      ]

  -- Reading a page again, as the emitter does within the reorganisation depth, accepts no event and
  -- leaves the set as it is.
  pub process_nullifiers_again :
      (evs : List BlockchainEvent) (s : Nullifiers) (count : ℕ) (after : Nullifiers)
      → accept_page (nullifier_delegate map_event) "Nullified" evs s ≡ some (count, after)
      → accept_page (nullifier_delegate map_event) "Nullified" evs after ≡ some (0, after)
  unfolding accept_page
  process_nullifiers_again evs s count after once =
      let a = accept_events-Accepted map_event (blocked_tx_hashes evs []) evs 0 s in
      let same : a.after ≡ after = cc (a.returned, once) in
      accept_events_known (blocked_tx_hashes evs []) evs 0 after
        (λ n is. ground (arith, is, a.members n, same))

-- `n` is in the list.
abbrev pub listed : String → List String → Bool
listed n [] = false
listed n (k ∷ ks) = k == n || listed n ks

contains-to_set :
    (n : String) (ns : List String) (s : Nullifiers)
    → contains n (to_set ns s) ≡ (contains n s || listed n ns)
unfolding to_set
contains-to_set n [] s = ground arith
contains-to_set n (k ∷ ks) s =
    rw (contains-to_set n ks (insert k tt s), contains-insert k n tt s) (ground arith)

listed-keys : (n : String) (s : Nullifiers) → listed n (keys s) ≡ contains n s
unfolding keys contains lookup
listed-keys n [] = refl
listed-keys n ((k, u) ∷ s) = ground (arith, listed-keys n s)

-- Loading the snapshot that was serialized at a block gives that block and a set with the same
-- elements.
pub deserialize-serialize_nullifiers :
    (block : ℕ) (s : Nullifiers) (n : String)
    → let (block', s') = deserialize_nullifiers (serialize_nullifiers block s) in
      (block' ≡ block) × (contains n s' ≡ contains n s)
unfolding serialize_nullifiers deserialize_nullifiers contains lookup
deserialize-serialize_nullifiers block s n =
    (refl, ground (arith, contains-to_set n (keys s) [], listed-keys n s))
