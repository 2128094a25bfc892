-- ===== src/Snapshot/Nullifiers/Page.antt =====
-- processEventsPage of the nullifier service: the set, the snapshot that is saved, and the error.
use go_sdk_test.Common.{
  ℕ, ◌+◌, ◌<◌, ◌≤◌, ◌≡◌, ◌⊎◌, refl, Bool, ◌||◌, Option, none, some, Option-cases, if◌then◌else◌,
  Result, List, String, length, contains, string_eq, ltb, ok, err, arith, Bool-cases, inl, inr,
}
use go_sdk_test.Common.Words.{add64}
use go_sdk_test.Emitter.{BlockchainEvent}
use go_sdk_test.Snapshot.Service.{
  Processed, SnapshotError, serialize_failed, persist_failed, no_save_depth, save_snapshot,
  after_events_accepted, process_events_page,
}
use go_sdk_test.Snapshot.Nullifiers.{Nullifiers, nullifier_delegate}
use go_sdk_test.Snapshot.Nullifiers.Set.{is_nullified}
use go_sdk_test.Snapshot.Nullifiers.Replay.{accept_page-Accepted}

module _ {Z : Type 0} (serialize : ℕ → Nullifiers → Option Z) (persist : Z → Bool) where
  -- The outcome of saving the set: an error where it cannot be serialized, or not be persisted.
  abbrev pub saving : ℕ → Nullifiers → Result SnapshotError (Unit {0})
  saving latest s = elim (serialize latest s) [
    | none ↦ err serialize_failed
    | some z ↦ if persist z then ok tt else err persist_failed
  ]

  save_snapshot-saving :
      (latest : ℕ) (s : Nullifiers)
      → save_snapshot serialize persist latest s ≡ (latest, saving latest s)
  unfolding save_snapshot
  save_snapshot-saving latest s = elim (Option-cases (serialize latest s)) [
    | inl failed ↦
        let e : saving latest s ≡ err serialize_failed = rw (saving, failed) refl in
        rw (e, save_snapshot, failed) refl
    | inr (z, made) ↦
        let e : saving latest s ≡ (if persist z then ok tt else err persist_failed) =
          rw (saving, made) refl in
        rw (e, save_snapshot, made) refl
  ]

  -- What becomes of the snapshot behind a page that turned `s` into the set of `p`: without a save depth
  -- an error; none is saved where the set gained nothing and the last one is not too old; else the set
  -- is saved, and the error is that of saving it.
  abbrev pub Saves : Option ℕ → ℕ → ℕ → Nullifiers → Processed Nullifiers → Type 0
  Saves none latest saved s p = (p.saved ≡ saved) × (p.outcome ≡ err no_save_depth)
  Saves (some depth) latest saved s p =
      ((length p.state ≡ length s)
        × (latest ≤ add64 saved depth)
        × (p.saved ≡ saved)
        × (p.outcome ≡ ok tt))
      ⊎ (((length s < length p.state) ⊎ (add64 saved depth < latest))
          × (p.saved ≡ latest)
          × (p.outcome ≡ saving latest p.state))

  after_events_accepted-Saves :
      (depth : Option ℕ) (latest saved count : ℕ) (s after : Nullifiers)
      → length after ≡ length s + count
      → let (saved', r) = after_events_accepted serialize persist depth count saved latest after in
        Saves depth latest saved s
          (record { count = count; outcome = r; saved = saved'; state = after })
  unfolding after_events_accepted
  after_events_accepted-Saves none latest saved count s after longer = (refl, refl)
  after_events_accepted-Saves (some depth) latest saved count s after longer =
      elim (Bool-cases (ltb 0 count)) [
        | inl gained ↦
            rw (gained, save_snapshot-saving)
              (inr (inl (ground (arith, longer, gained)), refl, refl))
        | inr nothing ↦ elim (Bool-cases (ltb (add64 saved depth) latest)) [
          | inl old ↦
              rw (nothing, old, save_snapshot-saving) (inr (inr (ground (arith, old)), refl, refl))
          | inr recent ↦
              rw (nothing, recent)
                (inl (ground (arith, longer, nothing), ground (arith, recent), refl, refl))
        ]
      ]

  -- processEventsPage of the nullifier service does not panic, whatever the events. Afterwards the set is
  -- the one before together with the nullifiers of the page's events, and the count returned is the
  -- number of nullifiers that the set gained. The error returned is that of the snapshot: there is one
  -- without a save depth; no snapshot is saved, without an error, where the set gained nothing and the
  -- last snapshot is not older than the depth; else the new set is saved, and the error is that of saving.
  pub process_nullifiers-Saves :
      (map_event : BlockchainEvent → Option String) (depth : Option ℕ) (latest saved : ℕ)
      (evs : List BlockchainEvent) (s : Nullifiers)
      → (p : Processed Nullifiers) × (process_events_page
            (nullifier_delegate map_event)
            "Nullified"
            (λ t. t)
            serialize
            persist
            depth
            latest
            saved
            evs
            s
          ≡ some p)
        × ((n : String) → contains n p.state ≡ (contains n s || is_nullified map_event n evs))
        × (length p.state ≡ length s + p.count)
        × Saves depth latest saved s p
  unfolding process_events_page
  process_nullifiers-Saves map_event depth latest saved evs s =
      let a = accept_page-Accepted map_event evs s in
      let from_none : 0 + a.count ≡ a.count = omega arith in
      (
        _,
        rw (process_events_page, a.returned, from_none) refl,
        a.members,
        a.counted,
        after_events_accepted-Saves depth latest saved a.count s a.after a.counted,
      )
