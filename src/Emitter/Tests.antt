-- ===== src/Emitter/Tests.antt =====
-- A node that refuses long ranges, and the theorems about the emitter at it.
use go_sdk_test.Common.{
  ℕ, ◌+◌, ◌-◌, ◌^◌, ◌≤◌, ◌<◌, ◌≡◌, ◌≢◌, inl, inr, refl, none, some, List, [], ◌∷◌, String, true,
  false, Result, ok, arith, leb, if◌then◌else◌, Bool-cases,
}
use go_sdk_test.Common.Words.{add64, sub64, u64_mod}
use go_sdk_test.Emitter.{
  BlockchainEvent, Node, Emitter, EmitterError, build_pages, build_pages_from,
  get_events_for_single_contract, get_events_in_range, get_events_for_pages,
  get_last_block_number_for_event_request, retrieve_events, process_events, poll, PollResponse,
  retrieve_in_progress, latest_block_number,
}
use go_sdk_test.Emitter.Pages.{IsTiling, build_pages-IsTiling, build_pages_from-diverges}
use go_sdk_test.Emitter.Fetch.{blocks, IsHonest, get_events-returns}
use go_sdk_test.Emitter.Retrieve.{
  expected_events, get_events_in_range-exact, get_last_block_wraps, IsInStep, poll-IsInStep,
}
use mathlib.Core.Option

abbrev event_at : ℕ → BlockchainEvent
event_at n = record { event_name = "Nullified"; transaction_hash = ""; block_number = n; args = "" }

-- One log in each block, and a node that answers at most 151 blocks at once.
abbrev chain : String → ℕ → List ℕ
chain addr n = n ∷ []

abbrev node : Node ℕ
node = record {
  latest_block = some 250;
  filter_logs =
      λ addr a b. if leb (b - a) 150 then some (blocks (chain addr) a (b + 1 - a)) else none;
  new_from_log = λ n. some (event_at n);
}

node-IsHonest : IsHonest node chain
node-IsHonest addr a b logs found = elim (Bool-cases (leb (b - a) 150)) [
  | inl short ↦
      let found' : some (blocks (chain addr) a (b + 1 - a)) ≡ some logs = rw short at found in
      cc found'
  | inr long ↦ cc (rw long at found)
]

-- The services' state is the number of events seen.
abbrev count_events : List BlockchainEvent → ℕ → ℕ → Result EmitterError ℕ × ℕ
count_events [] scanned s = (ok 0, s)
count_events (e ∷ es) scanned s = (ok 1, s + 1)

abbrev emitter : Emitter ℕ
emitter = record {
  contract_addr = "hinkal";
  deposit_on_chain_utxos_addr = none;
  initial_block_number = 7;
  latest = some 9;
  max_page_size = some 200;
  reorg_depth = some 100;
  is_server = true;
  is_ready = true;
  in_progress = false;
  event_processors = count_events ∷ [];
  notify = λ n s. s;
}

pages_of_five : build_pages 3 13 (some 5) ≡ some ((3, 7) ∷ (8, 12) ∷ (13, 13) ∷ [])
unfolding build_pages add64 sub64
pages_of_five = refl

retrieved : (retrieve_events node 10 false emitter 0).1.latest ≡ some 151
unfolding retrieve_events retrieve_in_progress get_last_block_number_for_event_request
    get_events_in_range build_pages get_events_for_pages process_events Option.bind add64 sub64
retrieved = refl

build_pages-IsTiling_example :
    (ps : List (ℕ × ℕ)) × (build_pages 3 13 (some 5) ≡ some ps) × IsTiling 5 3 13 ps
build_pages-IsTiling_example = build_pages-IsTiling 3 13 5 (omega arith) (omega arith) (omega arith)

build_pages_from-diverges_example : build_pages_from 40 3 (u64_mod - 1) 5 ≡ none
build_pages_from-diverges_example = build_pages_from-diverges 40 3 5 (omega arith)

answers_short : (a b : ℕ) → a ≤ b → b - a ≤ 100 → node.filter_logs "hinkal" a b ≢ none
answers_short a b le short failed = ground arith

get_events-returns_example :
    (evs : List BlockchainEvent) × (get_events_for_single_contract node 20 "hinkal" 10 5000
      ≡ some evs)
get_events-returns_example =
    get_events-returns node 20 "hinkal" 10 5000 answers_short (omega arith) (omega arith)
      (omega arith)

small_pages : (p : ℕ) → emitter.max_page_size ≡ some p → p ≤ 2 ^ 63
small_pages p h = ground arith

abbrev two_blocks : List BlockchainEvent
two_blocks = event_at 10 ∷ event_at 11 ∷ []

get_events_in_range-exact_example : two_blocks ≡ expected_events node chain emitter 10 11
unfolding get_events_in_range build_pages get_events_for_pages Option.bind add64 sub64
get_events_in_range-exact_example =
    get_events_in_range-exact node chain emitter 10 11 two_blocks node-IsHonest (omega arith)
      (omega arith) small_pages refl

abbrev young_node : Node ℕ
young_node = record node { latest_block = some 20 }

get_last_block_wraps_example :
    get_last_block_number_for_event_request young_node emitter ≡ ok (u64_mod + 20 + 1 - 100)
unfolding latest_block_number
get_last_block_wraps_example =
    get_last_block_wraps young_node emitter 20 100 refl refl refl (omega arith) (omega arith)
      (omega arith)

abbrev response : PollResponse
response = record { sent_events = true; events = two_blocks; latest_block = 30 }

small_response : (p : PollResponse) → some response ≡ some p → p.latest_block + 1 < u64_mod
small_response p h = ground arith

poll-IsInStep_example :
    let (fetch_from', e', s') = poll (some response) 10 emitter 0 in
    IsInStep fetch_from' e' × (10 ≤ fetch_from')
poll-IsInStep_example =
    poll-IsInStep (some response) 10 emitter 0 small_response (omega arith, refl)
