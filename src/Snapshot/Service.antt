-- ===== src/Snapshot/Service.antt =====
-- eventservice/snapshot.go: the service that is generic in its delegate. What the delegate's
-- MapEvent and AcceptEvent do is a parameter here; `St` is the delegate's state, and `none` as the
-- result of AcceptEvent is a panic.
pub mod Sync
use go_sdk_test.Common.{
  ℕ, ◌+◌, Bool, true, false, ◌||◌, Option, none, some, List, [], ◌∷◌, String, Map, lookup, insert,
  contains, ◌==◌, string_eq, ltb, Result, ok, err, if◌then◌else◌,
}
use go_sdk_test.Common.Words.{add64}
use go_sdk_test.Emitter.{BlockchainEvent, Emitter, latest_block_number, sync_from_at_most}

-- What a service calls of its delegate.
pub record Delegate (E St : Type 0) : Type 0 where
  pub map_event : BlockchainEvent → Option E
  pub accept_event : E → ℕ → String → Bool → St → Option (Bool × St)

-- The first loop of processEventsPage: transactions that created blocked UTXOs.
unfoldable pub blocked_tx_hashes :
    List BlockchainEvent → Map String (Unit {0}) → Map String (Unit {0})
blocked_tx_hashes [] seen = seen
blocked_tx_hashes (ev ∷ evs) seen =
    blocked_tx_hashes evs
      (if ev.event_name == "BlockedUtxosCreated" then insert ev.transaction_hash tt seen else seen)

abbrev pub bump : Bool → ℕ → ℕ
bump true n = n + 1
bump false n = n

module _ {E St : Type 0} (d : Delegate E St) (event_name : String) where
  -- The second loop: the events of the service's name that MapEvent reads.
  unfoldable pub accept_events :
      Map String (Unit {0}) → List BlockchainEvent → ℕ → St → Option (ℕ × St)
  accept_events blocked [] accepted st = some (accepted, st)
  accept_events blocked (ev ∷ evs) accepted st =
      let skipped = accept_events blocked evs accepted st in
      let taken : Option (ℕ × St) = elim (d.map_event ev) [
        | none ↦ skipped
        | some e ↦
            elim (d.accept_event e ev.block_number ev.transaction_hash
              (contains ev.transaction_hash blocked) st) [
                | none ↦ none
                | some (new, st') ↦ accept_events blocked evs (bump new accepted) st'
              ]
      ] in
      if ev.event_name == event_name then taken else skipped

  -- The two loops of processEventsPage.
  unfoldable pub accept_page : List BlockchainEvent → St → Option (ℕ × St)
  unfolding blocked_tx_hashes accept_events
  accept_page evs st = accept_events (blocked_tx_hashes evs []) evs 0 st

pub data SnapshotError : Type 0 where
  no_save_depth persist_failed fetch_failed serialize_failed deserialize_failed : SnapshotError

-- SaveSnapshot: the block of the last save, what is persisted, and the outcome. `payload` is what
-- GetSnapshotPayload returns, `serialize` and `persist` are the delegate's.
module _ {P Z : Type 0} (serialize : ℕ → P → Option Z) (persist : Z → Bool) where
  unfoldable pub save_snapshot : ℕ → P → ℕ × Result SnapshotError (Unit {0})
  save_snapshot latest payload = elim (serialize latest payload) [
    | none ↦ (latest, err serialize_failed)
    | some z ↦ (latest, if persist z then ok tt else err persist_failed)
  ]

  -- afterEventsAccepted: `saved` is savedLatestBlock, `latest` the emitter's block, `depth` what
  -- GetSaveDepth returns.
  unfoldable pub after_events_accepted :
      Option ℕ → ℕ → ℕ → ℕ → P → ℕ × Result SnapshotError (Unit {0})
  unfolding save_snapshot add64
  after_events_accepted none count saved latest payload = (saved, err no_save_depth)
  after_events_accepted (some depth) count saved latest payload =
      if ltb 0 count || ltb (add64 saved depth) latest
      then save_snapshot latest payload
      else (saved, ok tt)

-- What processEventsPage returns, and the service afterwards.
pub record Processed (St : Type 0) : Type 0 where
  pub count : ℕ
  pub outcome : Result SnapshotError (Unit {0})
  pub saved : ℕ
  pub state : St

-- processEventsPage: `depth`, `latest` and `saved` are those of afterEventsAccepted, `payload` is
-- GetSnapshotPayload.
module _ {E St P Z : Type 0} (d : Delegate E St) (event_name : String) (payload : St → P)
    (serialize : ℕ → P → Option Z) (persist : Z → Bool) where
  unfoldable pub process_events_page :
      Option ℕ → ℕ → ℕ → List BlockchainEvent → St → Option (Processed St)
  unfolding accept_page after_events_accepted
  process_events_page depth latest saved evs st = elim (accept_page d event_name evs st) [
    | none ↦ none
    | some (count, st') ↦
        let (saved', r) =
          after_events_accepted serialize persist depth count saved latest (payload st') in
        some (record { count = count; outcome = r; saved = saved'; state = st' })
  ]

-- loadSnapshot: populate the delegate, and set the emitter back to the snapshot's block. The
-- snapshot is what FetchSnapshot and DeserializeSnapshot return.
unfoldable pub load_snapshot :
    {S P : Type 0}
    → Result SnapshotError (ℕ × P)
    → Emitter S
    → P
    → Result SnapshotError ℕ × Emitter S × P
load_snapshot (err x) e state = (err x, e, state)
load_snapshot (ok (latest, payload)) e state = (ok latest, sync_from_at_most latest e, payload)
