-- ===== src/SolanaEmitter/Tests.antt =====
-- A retrieval over three signatures, of which one is too old.
use go_sdk_test.Common.{ℕ, ◌≡◌, refl, true, false, none, some, List, [], ◌∷◌, Result, ok, string_eq}
use go_sdk_test.Emitter.{BlockchainEvent, EmitterError}
use go_sdk_test.SolanaEmitter.{
  finish_slots, process_slot_events, Signature, SolanaRpc, SolanaEmitter, get_last_slot,
  get_program_events, retrieve_slots, sort_by_block,
}
use go_sdk_test.SolanaEmitter.Outcome.{IsSettled, retrieve_slots-IsSettled}

abbrev event_at : ℕ → BlockchainEvent
event_at n = record {
  event_name = "NewCommitment";
  transaction_hash = "t";
  block_number = n;
  args = "";
}

abbrev sig_at : ℕ → Signature
sig_at n = record { signature = "s"; slot = n; failed = false }

abbrev rpc : SolanaRpc
rpc = record {
  get_slot = some 90;
  get_signatures = λ limit before. some (sig_at 80 ∷ sig_at 70 ∷ sig_at 10 ∷ []);
  get_transaction = λ s. some (event_at s.slot ∷ []);
}

abbrev collect :
    List BlockchainEvent → ℕ → List BlockchainEvent → Result EmitterError ℕ × List BlockchainEvent
collect events scanned seen = (ok 2, events)

abbrev start : SolanaEmitter (List BlockchainEvent)
start = record {
  initial_slot = 50;
  latest_slot = none;
  is_server = false;
  is_ready = true;
  in_progress = false;
  event_processors = collect ∷ [];
  notify = λ n s. s;
}

-- The older event comes first.
retrieved :
    retrieve_slots rpc 3 51 false true start []
    ≡ (ok tt, record start { latest_slot = some 90 }, event_at 70 ∷ event_at 80 ∷ [])
unfolding retrieve_slots get_last_slot get_program_events sort_by_block finish_slots
    process_slot_events
retrieved = refl

retrieve_slots-IsSettled_example : IsSettled start 51 (retrieve_slots rpc 3 51 false true start [])
retrieve_slots-IsSettled_example = retrieve_slots-IsSettled rpc 3 51 false true start []
