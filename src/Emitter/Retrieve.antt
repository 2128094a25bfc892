-- ===== src/Emitter/Retrieve.antt =====
-- RetrieveEvents, the choice of its last block, and the listener's polls.
use go_sdk_test.Common.{
  ℕ, zero, suc, ◌+◌, ◌-◌, ◌%◌, ◌^◌, ◌≤◌, ◌<◌, ◌≡◌, ◌∙◌, ◌⊎◌, inl, inr, refl, Option, none, some,
  List, [], ◌∷◌, ◌++◌, String, true, max, leb, Result, ok, err, arith, Bool-cases, Option-cases,
  Result-cases, if◌then◌else◌,
}
use go_sdk_test.Common.Words.{add64, sub64, add64-eq, sub64-eq, u64_mod}
use go_sdk_test.Emitter.{
  BlockchainEvent, Node, Emitter, EmitterError, decode_logs, build_pages, get_events_for_pages,
  latest_block_number, advance_latest_block_number, process_events, process_external_events,
  get_events_in_range, get_last_block_number_for_event_request, PollResponse, poll, after_events,
}
use go_sdk_test.Emitter.Pages.{IsTiling, build_pages-IsTiling, build_pages_unset}
use go_sdk_test.Emitter.Fetch.{blocks, IsHonest, get_events_for_pages-exact}

module _ {Log S : Type 0} (node : Node Log) where
  abbrev pub started : Emitter S → Emitter S
  started e = record e { in_progress = true }

  -- How a call that is not skipped can end, other than by leaving the block number alone.
  pub record Advanced (from : ℕ) (e : Emitter S) (s : S) (r : Result EmitterError (Unit {0}))
      (e' : Emitter S) (s' : S) : Type 0 where
    pub last : ℕ
    pub events : List BlockchainEvent
    pub requested : get_last_block_number_for_event_request node (started e) ≡ ok last
    pub reached : from ≤ last
    pub fetched : get_events_in_range node (started e) from last ≡ ok events
    pub processed : process_events (started e) events last s ≡ (ok tt, s')
    pub moved : e'.latest ≡ some last
    pub succeeded : r ≡ ok tt

  -- All events of a range: the contract's, then those of the deposit contract, if there is one.
  abbrev pub expected_events : (String → ℕ → List Log) → Emitter S → ℕ → ℕ → List BlockchainEvent
  expected_events chain e from to =
      let own = decode_logs node (blocks (chain e.contract_addr) from (to + 1 - from)) in
      elim e.deposit_on_chain_utxos_addr [
        | none ↦ own
        | some addr ↦ own ++ decode_logs node (blocks (chain addr) from (to + 1 - from))
      ]

  range-of-pages :
      (chain : String → ℕ → List Log) (e : Emitter S) (from to page : ℕ) (ps : List (ℕ × ℕ))
      (evs : List BlockchainEvent)
      → IsHonest node chain
      → from ≤ to
      → to < 2 ^ 63
      → build_pages from to e.max_page_size ≡ some ps
      → IsTiling page from to ps
      → get_events_in_range node e from to ≡ ok evs
      → evs ≡ expected_events chain e from to
  unfolding get_events_in_range
  range-of-pages chain e from to page ps evs honest le fits paged tiling got =
      let got' = rw (paged, get_events_in_range) at got in
      elim (Option-cases (get_events_for_pages node e.contract_addr ps)) [
        | inl failed ↦ cc (rw failed at got')
        | inr (own, found) ↦
            let own_exact =
              get_events_for_pages-exact node chain honest e.contract_addr page from to ps own
                (omega arith) fits tiling found in
            let got'' = rw found at got' in
            elim (Option-cases e.deposit_on_chain_utxos_addr) [
              | inl no_deposits ↦
                  let same : ok own ≡ ok evs = rw no_deposits at got'' in
                  rw no_deposits (cc (same, own_exact))
              | inr (addr, deposits_at) ↦ elim (Option-cases (get_events_for_pages node addr ps)) [
                | inl failed ↦ cc (rw failed at (rw deposits_at at got''))
                | inr (deposits, found') ↦
                    let deposits_exact =
                      get_events_for_pages-exact node chain honest addr page from to ps deposits
                        (omega arith) fits tiling found' in
                    let same : ok (own ++ deposits) ≡ ok evs =
                      rw found' at (rw deposits_at at got'') in
                    rw deposits_at (cc (same, own_exact, deposits_exact))
              ]
            ]
      ]

  -- With an honest node, a range below block 2^63 that GetEventsInRange returns is complete and without
  -- repetitions, for every page size of at most 2^63 or none, and however often the node refused a page:
  -- the decoded logs of the contract in block order, and then those of the deposit contract.
  pub get_events_in_range-exact :
      (chain : String → ℕ → List Log) (e : Emitter S) (from to : ℕ) (evs : List BlockchainEvent)
      → IsHonest node chain
      → from ≤ to
      → to < 2 ^ 63
      → ((p : ℕ) → e.max_page_size ≡ some p → p ≤ 2 ^ 63)
      → get_events_in_range node e from to ≡ ok evs
      → evs ≡ expected_events chain e from to
  get_events_in_range-exact chain e from to evs honest le fits sizes got =
      elim (Option-cases e.max_page_size) [
        | inl unset ↦
            range-of-pages chain e from to (to + 1 - from) ((from, to) ∷ []) evs honest le fits
              (rw unset (build_pages_unset from to).0) (refl, le, omega arith, omega arith, refl)
              got
        | inr (zero, set_to) ↦
            range-of-pages chain e from to (to + 1 - from) ((from, to) ∷ []) evs honest le fits
              (rw set_to (build_pages_unset from to).1) (refl, le, omega arith, omega arith, refl)
              got
        | inr (suc p, set_to) ↦
            let (ps, paged, tiling) =
              build_pages-IsTiling from to (suc p) le (omega arith)
                (omega (arith, sizes (suc p) set_to)) in
            range-of-pages chain e from to (suc p) ps evs honest le fits (rw set_to paged) tiling
              got
      ]

  -- The last block of a request, on a server: as far behind the newest block as the reorg depth asks,
  -- but not behind what was processed.
  pub get_last_block-eq-max :
      (e : Emitter S) (newest depth : ℕ)
      → node.latest_block ≡ some newest
      → e.is_server ≡ true
      → e.reorg_depth ≡ some depth
      → newest + 1 < u64_mod
      → depth ≤ newest
      → get_last_block_number_for_event_request node e
        ≡ ok (max (newest + 1 - depth) (latest_block_number e))
  unfolding get_last_block_number_for_event_request
  get_last_block-eq-max e newest depth answered server configured small deep =
      let safe : add64 (sub64 newest depth) 1 ≡ newest + 1 - depth =
        rw (sub64-eq newest depth (omega arith) deep)
          (add64-eq (newest - depth) 1 (omega arith) ∙ omega arith) in
      rw answered (rw server (rw configured (rw safe (ground arith))))

  -- On a server, and a chain that is more than a block shorter than the reorg depth, the subtraction
  -- wraps, and the request asks for blocks up to almost 2 ^ 64: where the depth and the latest block are
  -- below 2 ^ 32.
  pub get_last_block_wraps :
      (e : Emitter S) (newest depth : ℕ)
      → node.latest_block ≡ some newest
      → e.is_server ≡ true
      → e.reorg_depth ≡ some depth
      → newest + 1 < depth
      → depth < 2 ^ 32
      → latest_block_number e < 2 ^ 32
      → get_last_block_number_for_event_request node e ≡ ok (u64_mod + newest + 1 - depth)
  unfolding get_last_block_number_for_event_request add64 sub64
  get_last_block_wraps e newest depth answered server configured short small low =
      let safe : ((newest + u64_mod - depth) % u64_mod + 1) % u64_mod
          ≡ u64_mod + newest + 1 - depth =
        omega arith in
      rw answered (rw server (rw configured (rw safe (ground arith))))

module _ {S : Type 0} where
  -- Some block was processed, and `fetchFrom` is the one after it.
  abbrev pub IsInStep : ℕ → Emitter S → Type 0
  IsInStep fetch_from e = (0 < fetch_from) × (e.latest ≡ some (fetch_from - 1))

  advance-IsInStep :
      (b fetch_from : ℕ) (e : Emitter S)
      → IsInStep fetch_from e
      → (advance_latest_block_number b e).latest
        ≡ some (if leb fetch_from b then b else fetch_from - 1)
  unfolding advance_latest_block_number
  advance-IsInStep b fetch_from e h = ground arith

  after_events-IsInStep :
      (b fetch_from : ℕ) (r : Result EmitterError (Unit {0})) (e : Emitter S) (s : S)
      → b + 1 < u64_mod
      → 0 < fetch_from
      → (e.latest ≡ some (fetch_from - 1))
        ⊎ ((r ≡ ok tt) × (e.latest ≡ some (if leb fetch_from b then b else fetch_from - 1)))
      → let (fetch_from', e', s') = after_events b fetch_from (r, e, s) in
        IsInStep fetch_from' e' × (fetch_from ≤ fetch_from')
  unfolding after_events advance_latest_block_number
  after_events-IsInStep b fetch_from (err x) e s small positive (inl same) =
      ((positive, same), omega arith)
  after_events-IsInStep b fetch_from (err x) e s small positive (inr (returned, moved)) =
      absurd (ground arith)
  after_events-IsInStep b fetch_from (ok u) e s small positive h = ground arith

  -- Events that the server sends move the latest block only if the processors take them.
  external-latest :
      (p : PollResponse) (fetch_from : ℕ) (e : Emitter S) (s : S)
      → IsInStep fetch_from e
      → let (r, e', s') = process_external_events p.events p.latest_block e s in
        (e'.latest ≡ some (fetch_from - 1))
        ⊎ ((r ≡ ok tt)
            × (e'.latest
                ≡ some (if leb fetch_from p.latest_block then p.latest_block else fetch_from - 1)))
  unfolding process_external_events
  external-latest p fetch_from e s h =
      elim (Result-cases (process_events e p.events p.latest_block s).0) [
        | inl (u, done) ↦
            rw (done, process_external_events)
              (inr (refl, advance-IsInStep p.latest_block fetch_from e h))
        | inr (x, failed) ↦ rw (failed, process_external_events) (inl (h.1))
      ]

  -- Once a latest block is set and `fetchFrom` is one ahead of it, a poll keeps it so, whatever block the
  -- server answers below 2^64 - 1, an older one, nothing or an error among them, and whether or not the
  -- processors fail; and `fetchFrom` does not go back.
  pub poll-IsInStep :
      (resp : Option PollResponse) (fetch_from : ℕ) (e : Emitter S) (s : S)
      → ((p : PollResponse) → resp ≡ some p → p.latest_block + 1 < u64_mod)
      → IsInStep fetch_from e
      → let (fetch_from', e', s') = poll resp fetch_from e s in
        IsInStep fetch_from' e' × (fetch_from ≤ fetch_from')
  unfolding poll
  poll-IsInStep none fetch_from e s small h = (h, omega arith)
  poll-IsInStep (some p) fetch_from e s small h =
      let handed = process_external_events p.events p.latest_block e s in
      elim (Bool-cases p.sent_events) [
        | inr nothing ↦ rw nothing (
            after_events-IsInStep p.latest_block fetch_from (ok tt) e s (small p refl) h.0
              (inl (h.1)))
        | inl sent ↦ rw sent (
            after_events-IsInStep p.latest_block fetch_from handed.0 handed.1 handed.2
              (small p refl) h.0 (external-latest p fetch_from e s h))
      ]
