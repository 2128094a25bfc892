-- ===== src/Snapshot/Service/Sync.antt =====
-- Where the emitter starts after the services were loaded, and which transactions are blocked.
use go_sdk_test.Common.{
  ℕ, ◌≡◌, Bool, false, ◌||◌, ◌&&◌, none, List, [], ◌∷◌, String, Map, insert, contains,
  contains-insert, string_eq, ◌==◌, min, ok, arith, Bool-cases, inl, inr,
}
use go_sdk_test.Emitter.{BlockchainEvent, Emitter, latest_block_number, sync_from_at_most}
use go_sdk_test.Snapshot.Service.{load_snapshot, blocked_tx_hashes}

-- The emitter that two services share, commitments and nullifiers, starts behind both snapshots:
-- after Init of both on a new emitter its block is the smaller of the two. So the events from there
-- on contain all that either snapshot lacks.
pub load_both-eq-min :
    {S P Q : Type 0} (e : Emitter S) (a b : ℕ) (p p0 : P) (q q0 : Q)
    → e.latest ≡ none
    → let (r, e', p') = load_snapshot (ok (a, p)) e p0 in
      let (r', e'', q') = load_snapshot (ok (b, q)) e' q0 in
      (latest_block_number e'' ≡ min a b) × (p' ≡ p) × (q' ≡ q)
unfolding load_snapshot sync_from_at_most latest_block_number
load_both-eq-min e a b p p0 q q0 fresh = ground arith

-- Some event of the page says that its transaction `tx` created blocked UTXOs.
abbrev pub creates_blocked : String → List BlockchainEvent → Bool
creates_blocked tx [] = false
creates_blocked tx (ev ∷ evs) =
    (ev.event_name == "BlockedUtxosCreated" && ev.transaction_hash == tx) || creates_blocked tx evs

-- A transaction is marked as blocked exactly if some event of the page says so, wherever it stands.
pub blocked_tx_hashes_exact :
    (tx : String) (evs : List BlockchainEvent) (seen : Map String (Unit {0}))
    → contains tx (blocked_tx_hashes evs seen) ≡ (contains tx seen || creates_blocked tx evs)
unfolding blocked_tx_hashes
blocked_tx_hashes_exact tx [] seen = ground arith
blocked_tx_hashes_exact tx (ev ∷ evs) seen =
    elim (Bool-cases (ev.event_name == "BlockedUtxosCreated")) [
      | inl marks ↦
          rw
            (
              marks,
              blocked_tx_hashes_exact tx evs (insert ev.transaction_hash tt seen),
              contains-insert,
            )
            (ground arith)
      | inr other ↦ rw (other, blocked_tx_hashes_exact tx evs seen)
    ]
