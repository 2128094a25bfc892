-- ===== src/SolanaEmitter.antt =====
-- internal/data-structures/eventservice/solana_emitter.go: the emitter on Solana, which counts slots.
-- It reads the signatures of the program from the newest back, and the transactions behind them.
pub mod Outcome
mod Tests
use go_sdk_test.Common.{
  ℕ, zero, suc, ◌+◌, Bool, true, false, not, ◌&&◌, ◌||◌, Option, none, some, List, [], ◌∷◌, ◌++◌,
  String, ltb, leb, length, if◌then◌else◌, Result, ok, err,
}
use go_sdk_test.Common.Words.{add64, sub64}
use go_sdk_test.Emitter.{BlockchainEvent, EmitterError, Processor, run_processors}

abbrev pub solana_reorg_depth : ℕ
solana_reorg_depth = 32

abbrev pub solana_batch_limit_max : ℕ
solana_batch_limit_max = 1000

abbrev pub solana_batch_limit_min : ℕ
solana_batch_limit_min = 20

pub record Signature : Type 0 where
  pub signature : String
  pub slot : ℕ
  pub failed : Bool

-- The RPC client. `get_transaction` gives the events that parseSolanaTransaction and
-- buildSolanaEvent make of a transaction, `none` where it cannot be read or failed.
pub record SolanaRpc : Type 0 where
  pub get_slot : Option ℕ
  pub get_signatures : ℕ → String → Option (List Signature)
  pub get_transaction : Signature → Option (List BlockchainEvent)

pub record SolanaEmitter (S : Type 0) : Type 0 where
  pub initial_slot : ℕ
  pub latest_slot : Option ℕ
  pub is_server : Bool
  pub is_ready : Bool
  pub in_progress : Bool
  pub event_processors : List (Processor S)
  pub notify : ℕ → S → S

abbrev last_signature : Signature → List Signature → Signature
last_signature s [] = s
last_signature s (t ∷ ts) = last_signature t ts

-- The loop of getProgramEvents over the batches, `first ∷ sigs` being all that is read; the outer
-- `none` means that it still runs, the inner one is a failed request.
unfoldable pub more_signatures :
    SolanaRpc → ℕ → ℕ → ℕ → ℕ → Signature → List Signature → Option (Option (List Signature))
more_signatures rpc zero limit from_slot batch_len first sigs = none
more_signatures rpc (suc fuel) limit from_slot batch_len first sigs =
    let oldest = last_signature first sigs in
    let longer : Option (Option (List Signature)) =
      elim (rpc.get_signatures limit oldest.signature) [
        | none ↦ some none
        | some [] ↦ some (some (first ∷ sigs))
        | some (n ∷ next) ↦
            more_signatures rpc fuel limit from_slot (length next + 1) first (sigs ++ n ∷ next)
      ] in
    if leb limit batch_len && leb from_slot oldest.slot then longer else some (some (first ∷ sigs))

-- The loop over the signatures: those out of range, failed or unreadable are skipped.
unfoldable pub events_of : SolanaRpc → ℕ → ℕ → List Signature → List BlockchainEvent
events_of rpc from_slot to_slot [] = []
events_of rpc from_slot to_slot (s ∷ sigs) =
    let rest = events_of rpc from_slot to_slot sigs in
    if ltb s.slot from_slot || ltb to_slot s.slot || s.failed
    then rest
    else elim (rpc.get_transaction s) [ none ↦ rest | some evs ↦ evs ++ rest ]

unfoldable pub get_program_events :
    SolanaRpc → ℕ → ℕ → ℕ → Bool → Option (Option (List BlockchainEvent))
unfolding more_signatures events_of
get_program_events rpc fuel from_slot to_slot initial_loading =
    let limit = if initial_loading then solana_batch_limit_max else solana_batch_limit_min in
    elim (rpc.get_signatures limit "") [
      | none ↦ some none
      | some [] ↦ some (some [])
      | some (first ∷ sigs) ↦
          elim (more_signatures rpc fuel limit from_slot (length sigs + 1) first sigs) [
            | none ↦ none
            | some none ↦ some none
            | some (some all) ↦ some (some (events_of rpc from_slot to_slot all))
          ]
    ]

-- sort.SliceStable by ascending block number.
unfoldable pub insert_by_block : BlockchainEvent → List BlockchainEvent → List BlockchainEvent
insert_by_block ev [] = ev ∷ []
insert_by_block ev (e ∷ es) =
    if ltb e.block_number ev.block_number then e ∷ insert_by_block ev es else ev ∷ e ∷ es

unfoldable pub sort_by_block : List BlockchainEvent → List BlockchainEvent
unfolding insert_by_block
sort_by_block [] = []
sort_by_block (e ∷ es) = insert_by_block e (sort_by_block es)

module _ {S : Type 0} where
  unfoldable pub latest_slot_number : SolanaEmitter S → ℕ
  latest_slot_number e = elim e.latest_slot [ none ↦ e.initial_slot | some s ↦ s ]

  unfoldable pub sync_slot_from_at_most : ℕ → SolanaEmitter S → SolanaEmitter S
  sync_slot_from_at_most slot e = elim e.latest_slot [
    | none ↦ record e { latest_slot = some slot }
    | some l ↦ if ltb slot l then record e { latest_slot = some slot } else e
  ]

  unfoldable pub advance_latest_slot : ℕ → SolanaEmitter S → SolanaEmitter S
  advance_latest_slot slot e = elim e.latest_slot [
    | none ↦ record e { latest_slot = some slot }
    | some l ↦ if ltb l slot then record e { latest_slot = some slot } else e
  ]

  unfoldable pub clear_slots : SolanaEmitter S → SolanaEmitter S
  clear_slots e = record e { is_ready = false; event_processors = [] }

  unfoldable pub get_last_slot : SolanaRpc → SolanaEmitter S → Option ℕ
  unfolding latest_slot_number add64 sub64
  get_last_slot rpc e = elim rpc.get_slot [
    | none ↦ none
    | some slot ↦
        let safe = add64 (sub64 slot solana_reorg_depth) 1 in
        let cur = latest_slot_number e in
        if e.is_server then some (if ltb safe cur then cur else safe) else some slot
  ]

  unfoldable pub process_slot_events :
      SolanaEmitter S → List BlockchainEvent → ℕ → S → Result EmitterError (Unit {0}) × S
  unfolding run_processors
  process_slot_events e events scanned s =
      let (r, s') = run_processors e.event_processors events scanned 0 s in
      elim r [ ok total ↦ (ok tt, e.notify total s') | err x ↦ (err x, s') ]

  unfoldable pub process_external_slot_events :
      List BlockchainEvent
      → ℕ
      → SolanaEmitter S
      → S
      → Result EmitterError (Unit {0}) × SolanaEmitter S × S
  unfolding process_slot_events advance_latest_slot
  process_external_slot_events events slot e s =
      let (r, s') = process_slot_events e events slot s in
      elim r [ ok u ↦ (ok u, advance_latest_slot slot e, s') | err x ↦ (err x, e, s') ]

  -- What follows once the events were processed.
  unfoldable pub finish_slots :
      ℕ
      → SolanaEmitter S
      → Result EmitterError (Unit {0}) × S
      → Result EmitterError (Unit {0}) × SolanaEmitter S × S
  finish_slots last e (ok u, s) = (ok u, record e { latest_slot = some last }, s)
  finish_slots last e (err x, s) = (err x, e, s)

  -- The part of retrieveEvents that runs with inProgress set; `fuel` bounds the batches.
  unfoldable pub retrieve_slots_in_progress :
      SolanaRpc
      → ℕ
      → ℕ
      → Bool
      → SolanaEmitter S
      → S
      → Result EmitterError (Unit {0}) × SolanaEmitter S × S
  retrieve_slots_in_progress rpc fuel from_slot initial_loading e s = elim (get_last_slot rpc e) [
    | none ↦ (err EmitterError.get_last_block, e, s)
    | some last ↦
        if ltb last from_slot
        then (ok tt, e, s)
        else elim (get_program_events rpc fuel from_slot last initial_loading) [
          | none ↦ (err EmitterError.hangs, e, s)
          | some none ↦ (err EmitterError.get_events_in_range_failed, e, s)
          | some (some events) ↦
              finish_slots last e (process_slot_events e (sort_by_block events) last s)
        ]
  ]

  abbrev idle :
      Result EmitterError (Unit {0}) × SolanaEmitter S × S
      → Result EmitterError (Unit {0}) × SolanaEmitter S × S
  idle (r, e, s) = (r, record e { in_progress = false }, s)

  unfoldable pub retrieve_slots :
      SolanaRpc
      → ℕ
      → ℕ
      → Bool
      → Bool
      → SolanaEmitter S
      → S
      → Result EmitterError (Unit {0}) × SolanaEmitter S × S
  unfolding retrieve_slots_in_progress
  retrieve_slots rpc fuel from_slot force initial_loading e s =
      let run =
        retrieve_slots_in_progress rpc fuel from_slot initial_loading
          (record e { in_progress = true }) s in
      if e.in_progress && not force then (ok tt, e, s) else idle run

  unfoldable pub init_slots :
      SolanaRpc → ℕ → SolanaEmitter S → S → Result EmitterError (Unit {0}) × SolanaEmitter S × S
  unfolding retrieve_slots add64
  init_slots rpc fuel e s =
      if e.is_ready
      then (err EmitterError.already_initialized, e, s)
      else retrieve_slots rpc fuel (add64 (latest_slot_number e) 1) false true
          (record e { is_ready = true }) s
