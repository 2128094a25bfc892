-- ===== src/SolanaEmitter/Outcome.antt =====
-- What a retrieval does to the slot.
use go_sdk_test.Common.{
  ℕ, ◌≤◌, ◌≡◌, refl, Bool, true, not, ◌&&◌, none, some, ltb, Bool-cases, Option-cases, inl, inr,
  Result, ok, err, arith,
}
use go_sdk_test.Emitter.{EmitterError}
use go_sdk_test.SolanaEmitter.{
  SolanaRpc, SolanaEmitter, get_last_slot, get_program_events, finish_slots,
  retrieve_slots_in_progress, retrieve_slots, idle,
}

module _ {S : Type 0} where
  -- The slot is kept, or it is `last` and the retrieval succeeded.
  pub data IsSettled (e : SolanaEmitter S) (from_slot : ℕ)
      : Result EmitterError (Unit {0}) × SolanaEmitter S × S → Type 0 where
    kept :
        (r : Result EmitterError (Unit {0})) (e' : SolanaEmitter S) (s : S)
        → e'.latest_slot ≡ e.latest_slot
        → IsSettled e from_slot (r, e', s)
    advanced :
        (last : ℕ) (e' : SolanaEmitter S) (s : S)
        → from_slot ≤ last
        → e'.latest_slot ≡ some last
        → IsSettled e from_slot (ok tt, e', s)

  finish_slots-IsSettled :
      (last from_slot : ℕ) (e : SolanaEmitter S) (r : Result EmitterError (Unit {0}) × S)
      → from_slot ≤ last
      → IsSettled e from_slot (finish_slots last e r)
  unfolding finish_slots
  finish_slots-IsSettled last from_slot e (ok u, s) h = advanced last _ s h refl
  finish_slots-IsSettled last from_slot e (err x, s) h = kept (err x) e s refl

  in_progress-IsSettled :
      (rpc : SolanaRpc) (fuel from_slot : ℕ) (initial : Bool) (e : SolanaEmitter S) (s : S)
      → IsSettled e from_slot (retrieve_slots_in_progress rpc fuel from_slot initial e s)
  unfolding retrieve_slots_in_progress
  in_progress-IsSettled rpc fuel from_slot initial e s = elim (Option-cases (get_last_slot rpc e)) [
    | inl failed ↦ rw (failed, retrieve_slots_in_progress) (kept _ e s refl)
    | inr (last, found) ↦ elim (Bool-cases (ltb last from_slot)) [
      | inl behind ↦ rw (found, retrieve_slots_in_progress, behind) (kept _ e s refl)
      | inr ahead ↦ elim (Option-cases (get_program_events rpc fuel from_slot last initial)) [
        | inl runs ↦ rw (found, retrieve_slots_in_progress, ahead, runs) (kept _ e s refl)
        | inr (none, out) ↦ rw (found, retrieve_slots_in_progress, ahead, out) (kept _ e s refl)
        | inr (some events, out) ↦
            rw (found, retrieve_slots_in_progress, ahead, out)
              (finish_slots-IsSettled last from_slot e _ (ground arith))
      ]
    ]
  ]

  idle-IsSettled :
      (from_slot : ℕ) (e : SolanaEmitter S)
      (run : Result EmitterError (Unit {0}) × SolanaEmitter S × S)
      → IsSettled (record e { in_progress = true }) from_slot run
      → IsSettled e from_slot (idle run)
  idle-IsSettled from_slot e _ (kept r e' s h) = kept r _ s h
  idle-IsSettled from_slot e _ (advanced last e' s le h) = advanced last _ s le h

  -- A retrieval either leaves the latest slot as it was, as it does on every error, or it succeeds
  -- and sets it to a slot that is not before the one asked for.
  pub retrieve_slots-IsSettled :
      (rpc : SolanaRpc) (fuel from_slot : ℕ) (force initial : Bool) (e : SolanaEmitter S) (s : S)
      → IsSettled e from_slot (retrieve_slots rpc fuel from_slot force initial e s)
  unfolding retrieve_slots
  retrieve_slots-IsSettled rpc fuel from_slot force initial e s =
      elim (Bool-cases (e.in_progress && not force)) [
        | inl busy ↦ rw (busy) (kept (ok tt) e s refl)
        | inr free ↦ rw (free) (
            idle-IsSettled from_slot e _ (
              in_progress-IsSettled rpc fuel from_slot initial (record e { in_progress = true }) s))
      ]
