-- ===== src/Emitter.antt =====
-- internal/data-structures/eventservice/emitter.go and client.go: the fetching of a contract's
-- events, page by page, and the block number up to which they were processed. Block numbers are
-- uint64. The node that answers the requests, the decoding of a log and the processors are
-- parameters; a processor is a state transformer on the services' state `S`.
pub mod Pages
pub mod Fetch
pub mod Retrieve
mod Tests
use go_sdk_test.Common.{
  ℕ, zero, suc, ◌+◌, ◌-◌, ◌*◌, ◌/◌, Bool, true, false, ◌&&◌, not, Option, none, some, List, [], ◌∷◌,
  ◌++◌, String, ltb, leb, min, Result, ok, err, ◌>>=◌, if◌then◌else◌,
}
use go_sdk_test.Common.Words.{add64, sub64, u64_mod}
use mathlib.Core.Option

-- type BlockchainEvent
pub record BlockchainEvent : Type 0 where
  pub event_name : String
  pub transaction_hash : String
  pub block_number : ℕ
  pub args : String

pub data EmitterError : Type 0 where
  get_last_block get_events_in_range_failed processor_failed already_initialized : EmitterError
  -- The page loop of buildPages runs for ever.
  hangs : EmitterError

abbrev pub retry_min_page_size : ℕ
retry_min_page_size = 100

abbrev pub max_retries : ℕ
max_retries = 20

-- What the emitter uses of the node: its answers to BlockNumber and FilterLogs (`none` is an
-- error), and NewFromLog at the contract's ABI.
pub record Node (Log : Type 0) : Type 0 where
  pub latest_block : Option ℕ
  pub filter_logs : String → ℕ → ℕ → Option (List Log)
  pub new_from_log : Log → Option BlockchainEvent

-- The loop over `cur`; `none` means that it still runs.
unfoldable pub build_pages_from : ℕ → ℕ → ℕ → ℕ → Option (List (ℕ × ℕ))
build_pages_from zero cur to page = none
build_pages_from (suc fuel) cur to page =
    let rest = build_pages_from fuel (add64 cur page) to page in
    let pages : Option (List (ℕ × ℕ)) =
      Option.map (λ ps. (cur, min (sub64 (add64 cur page) 1) to) ∷ ps) rest in
    if leb cur to then pages else some []

unfoldable pub build_pages : ℕ → ℕ → Option ℕ → Option (List (ℕ × ℕ))
unfolding build_pages_from
build_pages from to none = some ((from, to) ∷ [])
build_pages from to (some zero) = some ((from, to) ∷ [])
build_pages from to (some (suc p)) = build_pages_from (suc (to + 1 - from)) from to (suc p)

module _ {Log : Type 0} (node : Node Log) where
  -- The decoded logs; those that do not decode are passed over.
  unfoldable pub decode_logs : List Log → List BlockchainEvent
  decode_logs [] = []
  decode_logs (l ∷ ls) =
      let rest = decode_logs ls in elim (node.new_from_log l) [ none ↦ rest | some e ↦ e ∷ rest ]

  -- `retries` is maxRetries - retry.
  unfoldable pub get_events_for_single_contract : ℕ → String → ℕ → ℕ → Option (List BlockchainEvent)
  unfolding decode_logs sub64 add64
  get_events_for_single_contract zero addr from to =
      Option.map decode_logs (node.filter_logs addr from to)
  get_events_for_single_contract (suc retries) addr from to =
      let mid = add64 from to / 2 in
      let lower = get_events_for_single_contract retries addr from mid in
      let upper = get_events_for_single_contract retries addr (add64 mid 1) to in
      let halves : Option (List BlockchainEvent) =
        Option.bind lower (λ a. Option.map (λ b. a ++ b) upper) in
      elim (node.filter_logs addr from to) [
        | some logs ↦ some (decode_logs logs)
        | none ↦ if ltb retry_min_page_size (sub64 to from) then halves else none
      ]

  -- The loop over the pages, for one address.
  unfoldable pub get_events_for_pages : String → List (ℕ × ℕ) → Option (List BlockchainEvent)
  unfolding get_events_for_single_contract
  get_events_for_pages addr [] = some []
  get_events_for_pages addr ((from, to) ∷ pages) =
      Option.bind (get_events_for_single_contract max_retries addr from to)
        (λ evs. Option.map (λ rest. evs ++ rest) (get_events_for_pages addr pages))

-- type BlockchainEventEmitter. `reorg_depth` is what GetReorgDepth returns for the chain; the
-- callback OnEventsProcessed is `notify`, the identity where none is set.
pub record Emitter (S : Type 0) : Type 0 where
  pub contract_addr : String
  pub deposit_on_chain_utxos_addr : Option String
  pub initial_block_number : ℕ
  pub latest : Option ℕ
  pub max_page_size : Option ℕ
  pub reorg_depth : Option ℕ
  pub is_server : Bool
  pub is_ready : Bool
  pub in_progress : Bool
  pub event_processors : List (List BlockchainEvent → ℕ → S → Result EmitterError ℕ × S)
  pub notify : ℕ → S → S

abbrev pub Processor : Type 0 → Type 0
Processor S = List BlockchainEvent → ℕ → S → Result EmitterError ℕ × S

module _ {S : Type 0} where
  unfoldable pub latest_block_number : Emitter S → ℕ
  latest_block_number e = elim e.latest [ none ↦ e.initial_block_number | some b ↦ b ]

  unfoldable pub advance_latest_block_number : ℕ → Emitter S → Emitter S
  advance_latest_block_number b e = elim e.latest [
    | none ↦ record e { latest = some b }
    | some cur ↦ if ltb cur b then record e { latest = some b } else e
  ]

  unfoldable pub sync_from_at_most : ℕ → Emitter S → Emitter S
  sync_from_at_most b e = elim e.latest [
    | none ↦ record e { latest = some b }
    | some cur ↦ if ltb b cur then record e { latest = some b } else e
  ]

  -- `none` is the panic after Init.
  unfoldable pub add_event_processor_function : Processor S → Emitter S → Option (Emitter S)
  add_event_processor_function fn e =
      if e.is_ready
      then none
      else some (record e { event_processors = e.event_processors ++ fn ∷ [] })

  -- The delegate's Clear stops the listener, which is not part of this state.
  unfoldable pub interval_clear : Emitter S → Emitter S
  interval_clear e = record e { is_ready = false; event_processors = [] }

  -- The loop over the processors; what an earlier one wrote stays written when a later one fails.
  unfoldable pub run_processors :
      List (Processor S) → List BlockchainEvent → ℕ → ℕ → S → Result EmitterError ℕ × S
  run_processors [] events scanned total s = (ok total, s)
  run_processors (proc ∷ procs) events scanned total s =
      let (r, s') = proc events scanned s in
      elim r [ ok n ↦ run_processors procs events scanned (total + n) s' | err x ↦ (err x, s') ]

  unfoldable pub process_events :
      Emitter S → List BlockchainEvent → ℕ → S → Result EmitterError (Unit {0}) × S
  unfolding run_processors
  process_events e events scanned s =
      let (r, s') = run_processors e.event_processors events scanned 0 s in
      elim r [ ok total ↦ (ok tt, e.notify total s') | err x ↦ (err x, s') ]

  unfoldable pub process_external_events :
      List BlockchainEvent → ℕ → Emitter S → S → Result EmitterError (Unit {0}) × Emitter S × S
  process_external_events events latest_block e s =
      let (r, s') = process_events e events latest_block s in
      elim r [
        | ok u ↦ (ok u, advance_latest_block_number latest_block e, s')
        | err x ↦ (err x, e, s')
      ]

module _ {Log S : Type 0} (node : Node Log) where
  -- All pages of the contract, then all pages of the deposit contract, if there is one.
  unfoldable pub get_events_in_range :
      Emitter S → ℕ → ℕ → Result EmitterError (List BlockchainEvent)
  get_events_in_range e from to = elim (build_pages from to e.max_page_size) [
    | none ↦ err hangs
    | some pages ↦ elim (get_events_for_pages node e.contract_addr pages) [
      | none ↦ err get_events_in_range_failed
      | some own ↦ elim e.deposit_on_chain_utxos_addr [
        | none ↦ ok own
        | some addr ↦ elim (get_events_for_pages node addr pages) [
          | none ↦ err get_events_in_range_failed
          | some deposits ↦ ok (own ++ deposits)
        ]
      ]
    ]
  ]

  unfoldable pub get_last_block_number_for_event_request : Emitter S → Result EmitterError ℕ
  unfolding latest_block_number sub64 add64
  get_last_block_number_for_event_request e = elim node.latest_block [
    | none ↦ err get_last_block
    | some latest ↦ if not e.is_server then ok latest else elim e.reorg_depth [
      | none ↦ err get_last_block
      | some depth ↦
          let safe = add64 (sub64 latest depth) 1 in
          if ltb safe (latest_block_number e) then ok (latest_block_number e) else ok safe
    ]
  ]

  -- The part of RetrieveEvents that runs with inProgress set.
  unfoldable pub retrieve_in_progress :
      ℕ → Emitter S → S → Result EmitterError (Unit {0}) × Emitter S × S
  retrieve_in_progress from_block e s = elim (get_last_block_number_for_event_request e) [
    | err x ↦ (err x, e, s)
    | ok last ↦
        if ltb last from_block
        then (ok tt, e, s)
        else elim (get_events_in_range e from_block last) [
          | err x ↦ (err x, e, s)
          | ok events ↦
              let (r, s') = process_events e events last s in
              elim r [ ok u ↦ (ok u, record e { latest = some last }, s') | err x ↦ (err x, e, s') ]
        ]
  ]

  -- The deferred reset of inProgress runs on every return behind it.
  unfoldable pub retrieve_events :
      ℕ → Bool → Emitter S → S → Result EmitterError (Unit {0}) × Emitter S × S
  unfolding retrieve_in_progress
  retrieve_events from_block force e s =
      if e.in_progress && not force
      then (ok tt, e, s)
      else let (r, e', s') = retrieve_in_progress from_block (record e { in_progress = true }) s in
        (r, record e' { in_progress = false }, s')

  -- Init up to the start of the listener.
  unfoldable pub init : Emitter S → S → Result EmitterError (Unit {0}) × Emitter S × S
  unfolding retrieve_events latest_block_number add64
  init e s =
      if e.is_ready
      then (err already_initialized, e, s)
      else retrieve_events (add64 (latest_block_number e) 1) false (record e { is_ready = true }) s

-- The snapshot server's answer to a poll: the events that could be deserialized, whether it sent any
-- at all, and its latest block.
pub record PollResponse : Type 0 where
  pub sent_events : Bool
  pub events : List BlockchainEvent
  pub latest_block : ℕ

module _ {S : Type 0} where
  -- client.go: the end of a tick, after the events were handed over.
  unfoldable pub after_events :
      ℕ → ℕ → Result EmitterError (Unit {0}) × Emitter S × S → ℕ × Emitter S × S
  unfolding add64
  after_events latest fetch_from (err x, e, s) = (fetch_from, e, s)
  after_events latest fetch_from (ok u, e, s) =
      if leb fetch_from latest
      then (add64 latest 1, advance_latest_block_number latest e, s)
      else (fetch_from, e, s)

  -- client.go: one tick of the listener, from `fetch_from`; `none` is a failed request.
  unfoldable pub poll : Option PollResponse → ℕ → Emitter S → S → ℕ × Emitter S × S
  poll none fetch_from e s = (fetch_from, e, s)
  poll (some resp) fetch_from e s = after_events resp.latest_block fetch_from (
      if resp.sent_events
      then process_external_events resp.events resp.latest_block e s
      else (ok tt, e, s))
