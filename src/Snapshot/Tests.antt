-- ===== src/Snapshot/Tests.antt =====
-- Runs of the snapshot services on concrete pages of events.
use go_sdk_test.Common.{
  Bool, ◌||◌, ◌+◌, length, ℕ, ◌≤◌, ◌≡◌, refl, true, false, Option, none, some, List, [], ◌∷◌,
  String, ◌*◌, ◌<◌, lookup, insert, contains, string_eq, nat_eq, int_eq, arith, pos, ◌+ℤ◌,
}
use go_sdk_test.Merkle.{new, start, start_idx, get_value}
use go_sdk_test.Merkle.Consistent.{IsConsistent, new-IsConsistent}
use go_sdk_test.Emitter.{BlockchainEvent, Emitter}
use go_sdk_test.Snapshot.Service.{blocked_tx_hashes, accept_page, Processed, process_events_page}
use go_sdk_test.Snapshot.Nullifiers.{Nullifiers, nullifier_delegate}
use go_sdk_test.Snapshot.Nullifiers.Set.{is_nullified}
use go_sdk_test.Snapshot.Nullifiers.Page.{Saves, process_nullifiers-Saves}
use go_sdk_test.Snapshot.Commitments.{
  CommitmentEvent, Commitments, accept_commitment, evm_is_positive, already_known,
}
use go_sdk_test.Snapshot.Commitments.Accept.{accept_commitment-Holds}

abbrev event : String → String → String → BlockchainEvent
event name tx args = record {
  event_name = name;
  transaction_hash = tx;
  block_number = 5;
  args = args;
}

abbrev page : List BlockchainEvent
page =
    event "Nullified" "t1" "a"
    ∷ event "BlockedUtxosCreated" "t1" ""
    ∷ event "Nullified" "t2" "b"
    ∷ event "Nullified" "t2" "a"
    ∷ []

abbrev read_args : BlockchainEvent → Option String
read_args ev = some ev.args

abbrev page_run : Option (ℕ × Nullifiers)
page_run = accept_page (nullifier_delegate read_args) "Nullified" page []

page_run_value : page_run ≡ some (2, ("a", tt) ∷ ("b", tt) ∷ [])
unfolding accept_page blocked_tx_hashes nullifier_delegate lookup insert contains
page_run_value = refl

-- The text is the block; nothing is persisted.
abbrev to_text : ℕ → Nullifiers → Option ℕ
to_text block s = some block

abbrev full_disk : ℕ → Bool
full_disk z = false

process_nullifiers-Saves_example :
    (p : Processed Nullifiers) × (process_events_page
        (nullifier_delegate read_args)
        "Nullified"
        (λ t. t)
        to_text
        full_disk
        (some 20)
        7
        5
        page
        []
      ≡ some p)
    × ((n : String)
        → contains n p.state
          ≡ (contains {K = String} {V = Unit {0}} n [] || is_nullified read_args n page))
    × (length p.state ≡ length {A = String × Unit {0}} [] + p.count)
    × Saves to_text full_disk (some 20) 7 5 [] p
process_nullifiers-Saves_example =
    process_nullifiers-Saves to_text full_disk read_args (some 20) 7 5 page []

abbrev two : Nullifiers
two = ("a", tt) ∷ ("b", tt) ∷ []

abbrev emitter : Emitter ℕ
emitter = record {
  contract_addr = "pool";
  deposit_on_chain_utxos_addr = none;
  initial_block_number = 3;
  latest = none;
  max_page_size = none;
  reorg_depth = none;
  is_server = false;
  is_ready = false;
  in_progress = false;
  event_processors = [];
  notify = λ n s. s;
}

abbrev empty : Commitments
empty = record { merkle_tree = new (λ a b. a +ℤ b) (pos 0) 4; enc_outputs = []; by_commitment = [] }

abbrev deposit : CommitmentEvent
deposit = record { commitment = pos 5; index = pos 8; encrypted_output = "c" }

deposit_is_new : already_known (pos 5) (get_value 8 empty.merkle_tree) ≡ false
unfolding new already_known get_value lookup
deposit_is_new = refl

empty_range : (start empty.merkle_tree ≤ 8) × (8 < start empty.merkle_tree * 2)
unfolding new start_idx
empty_range = (omega arith, omega arith)

abbrev empty-IsConsistent : IsConsistent empty.merkle_tree
empty-IsConsistent = new-IsConsistent (λ a b. a +ℤ b) (pos 0) 4

abbrev deposited : Commitments
deposited =
    (accept_commitment-Holds evm_is_positive deposit 1 "t" false empty empty-IsConsistent
      empty_range.0 empty_range.1 deposit_is_new).0

deposit_accepted :
    accept_commitment evm_is_positive deposit 1 "t" false empty ≡ some (true, deposited)
deposit_accepted =
    (accept_commitment-Holds evm_is_positive deposit 1 "t" false empty empty-IsConsistent
      empty_range.0 empty_range.1 deposit_is_new).1
