-- ===== src/Emitter/Fetch.antt =====
-- getEventsForSingleContract halves a range that the node refuses. The halves lose no event, repeat
-- none, and are small enough in the end.
use go_sdk_test.Common.{
  ℕ, zero, suc, ◌+◌, ◌-◌, ◌*◌, ◌/◌, ◌^◌, ◌≤◌, ◌<◌, ◌≡◌, ◌≢◌, ◌∙◌, sym, refl, ap, inl, inr, Option,
  none, some, List, [], ◌∷◌, ◌++◌, String, append_assoc, ltb, ltb→lt, true, false, Bool,
  if◌then◌else◌, arith, Bool-cases, Option-cases,
}
use go_sdk_test.Common.Words.{add64, add64-eq, sub64-eq}
use go_sdk_test.Emitter.{
  BlockchainEvent, Node, decode_logs, get_events_for_single_contract, get_events_for_pages,
  max_retries, retry_min_page_size,
}
use go_sdk_test.Emitter.Pages.{IsTiling}
use mathlib.Core.Option
use native.Mathlib.Nat.{two-pow-succ}

-- What stands on the chain in `n` blocks from `from` on, by block.
abbrev pub blocks {ℓ} : {A : Type ℓ} → (ℕ → List A) → ℕ → ℕ → List A
blocks chain from zero = []
blocks chain from (suc n) = chain from ++ blocks chain (from + 1) n

blocks-split {ℓ} :
    {A : Type ℓ} (chain : ℕ → List A) (from n k : ℕ)
    → blocks chain from (n + k) ≡ blocks chain from n ++ blocks chain (from + n) k
blocks-split chain from zero k =
    let e : 0 + k ≡ k = omega arith in let e' : from + 0 ≡ from = omega arith in rw (e, e')
blocks-split chain from (suc n) k =
    let e : suc n + k ≡ suc (n + k) = omega arith in
    let e' : from + 1 + n ≡ from + suc n = omega arith in
    rw (e, blocks-split chain (from + 1) n k, e') (sym (append_assoc (chain from) _ _))

-- A range that was halved with success: both halves returned.
halves_returned :
    {A : Type 0} (c : Bool) (lower upper : Option (List A)) (evs : List A)
    → (if c then Option.bind lower (λ a. Option.map (λ b. a ++ b) upper) else none) ≡ some evs
    → (a : List A) × (b : List A) × (c ≡ true)
      × (lower ≡ some a)
      × (upper ≡ some b)
      × (a ++ b ≡ evs)
unfolding Option.bind Option.map
halves_returned true (some a) (some b) evs h = (a, b, refl, refl, refl, cc)
halves_returned true (some a) none evs h = cc
halves_returned true none upper evs h = cc
halves_returned false lower upper evs h = cc

halves_return :
    {A : Type 0} (c : Bool) (lower upper : Option (List A)) (a b : List A)
    → c ≡ true
    → lower ≡ some a
    → upper ≡ some b
    → (if c then Option.bind lower (λ a. Option.map (λ b. a ++ b) upper) else none) ≡ some (a ++ b)
unfolding Option.bind
halves_return c lower upper a b wide p q = rw (wide, p, q)

module _ {Log : Type 0} (node : Node Log) where
  decode_logs-append :
      (xs ys : List Log) → decode_logs node (xs ++ ys) ≡ decode_logs node xs ++ decode_logs node ys
  unfolding decode_logs
  decode_logs-append [] ys = refl
  decode_logs-append (x ∷ xs) ys = elim (Option-cases (node.new_from_log x)) [
    | inl bad ↦ rw (bad, decode_logs) (decode_logs-append xs ys)
    | inr (e, good) ↦
        rw (good, decode_logs) (ap (λ (l : List BlockchainEvent). e ∷ l) (decode_logs-append xs ys))
  ]

  -- The node does not lie: what it returns for a range is what the chain holds there.
  abbrev pub IsHonest : (String → ℕ → List Log) → Type 0
  IsHonest chain =
      (addr : String) (a b : ℕ) (logs : List Log)
      → node.filter_logs addr a b ≡ some logs
      → logs ≡ blocks (chain addr) a (b + 1 - a)

  -- What the halving of a range rests on: the middle is inside, and each half is half as long.
  middle :
      (from to : ℕ)
      → from < to
      → to < 2 ^ 63
      → (add64 from to / 2 ≡ (from + to) / 2) × (add64 (add64 from to / 2) 1 ≡ (from + to) / 2 + 1)
  middle from to lt fits =
      let e : add64 from to ≡ from + to = add64-eq from to (omega arith) in
      (rw e, rw e (add64-eq ((from + to) / 2) 1 (omega arith)))

  module _ (chain : String → ℕ → List Log) (honest : IsHonest chain) where
    -- However often the range was halved, what comes back is the decoding of the chain's logs from
    -- `from` to `to`, in order, none lost and none twice.
    pub get_events-exact :
        (retries : ℕ) (addr : String) (from to : ℕ) (evs : List BlockchainEvent)
        → from ≤ to
        → to < 2 ^ 63
        → get_events_for_single_contract node retries addr from to ≡ some evs
        → evs ≡ decode_logs node (blocks (chain addr) from (to + 1 - from))
    unfolding get_events_for_single_contract
    get_events-exact zero addr from to evs le fits got =
        elim (Option-cases (node.filter_logs addr from to)) [
          | inl failed ↦ cc (rw failed at got)
          | inr (logs, found) ↦
              let got' : some (decode_logs node logs) ≡ some evs = rw found at got in
              cc (got', honest addr from to logs found)
        ]
    get_events-exact (suc retries) addr from to evs le fits got =
        elim (Option-cases (node.filter_logs addr from to)) [
          | inr (logs, found) ↦
              let got' : some (decode_logs node logs) ≡ some evs =
                rw (found, get_events_for_single_contract) at got in
              cc (got', honest addr from to logs found)
          | inl failed ↦
              let (a, b, wide, lower, upper, joined) =
                halves_returned _ _ _ evs (rw (failed, get_events_for_single_contract) at got) in
              let apart : retry_min_page_size < to - from =
                rw (sub64-eq to from (omega arith) le) at (ltb→lt _ _ wide) in
              let (mid, next) = middle from to (omega arith) fits in
              let below =
                get_events-exact retries addr from ((from + to) / 2) a (omega arith) (omega arith)
                  (rw mid at lower) in
              let above =
                get_events-exact retries addr ((from + to) / 2 + 1) to b (omega arith) fits
                  (rw next at upper) in
              let whole : to + 1 - from
                  ≡ ((from + to) / 2 + 1 - from) + (to + 1 - ((from + to) / 2 + 1)) =
                omega arith in
              let place : from + ((from + to) / 2 + 1 - from) ≡ (from + to) / 2 + 1 = omega arith in
              sym joined
              ∙ rw (below, above, whole)
                  (rw (blocks-split (chain addr) from, place) (sym (decode_logs-append _ _)))
        ]

    -- The same over the pages of a range: the events of the whole range, each block once.
    pub get_events_for_pages-exact :
        (addr : String) (page lo hi : ℕ) (ps : List (ℕ × ℕ)) (evs : List BlockchainEvent)
        → lo ≤ hi + 1
        → hi < 2 ^ 63
        → IsTiling page lo hi ps
        → get_events_for_pages node addr ps ≡ some evs
        → evs ≡ decode_logs node (blocks (chain addr) lo (hi + 1 - lo))
    unfolding get_events_for_pages Option.bind decode_logs
    get_events_for_pages-exact addr page lo hi [] evs le fits tiling got =
        let none_left : hi + 1 - lo ≡ 0 = omega arith in rw none_left (cc)
    get_events_for_pages-exact addr page lo hi ((a, b) ∷ ps) evs le fits
          (at_lo, lo_b, b_hi, size, tiling) got =
        let (own, rest, whole, first, others, joined) =
          halves_returned true (get_events_for_single_contract node max_retries addr a b)
            (get_events_for_pages node addr ps) evs got in
        let below = get_events-exact max_retries addr a b own (omega arith) (omega arith) first in
        let above =
          get_events_for_pages-exact addr page (b + 1) hi ps rest (omega arith) fits tiling
            others in
        let split : hi + 1 - lo ≡ (b + 1 - a) + (hi + 1 - (b + 1)) = omega arith in
        let place : lo + (b + 1 - a) ≡ b + 1 = omega arith in
        sym joined
        ∙ rw (below, above, split)
            (rw (blocks-split (chain addr) lo, place, at_lo) (sym (decode_logs-append _ _)))

  -- If the node answers every range of at most 101 blocks, then the fetch of a range below block 2 ^ 63
  -- returns, if the range has at most 100 * 2 ^ n blocks more than one and `n` halvings are left: so
  -- twenty are enough for up to 100 * 2 ^ 20.
  pub get_events-returns :
      (retries : ℕ) (addr : String) (from to : ℕ)
      → ((a b : ℕ) → a ≤ b → b - a ≤ 100 → node.filter_logs addr a b ≢ none)
      → from ≤ to
      → to < 2 ^ 63
      → to - from ≤ 100 * 2 ^ retries
      → (evs : List BlockchainEvent) × (get_events_for_single_contract node retries addr from to
          ≡ some evs)
  unfolding get_events_for_single_contract Option.bind
  get_events-returns zero addr from to small le fits short =
      elim (Option-cases (node.filter_logs addr from to)) [
        | inl failed ↦ absurd (small from to le (omega arith) failed)
        | inr (logs, found) ↦ (decode_logs node logs, rw found)
      ]
  get_events-returns (suc retries) addr from to small le fits short =
      elim (Option-cases (node.filter_logs addr from to)) [
        | inr (logs, found) ↦ (decode_logs node logs, rw (found, get_events_for_single_contract))
        | inl failed ↦ elim (Bool-cases (ltb retry_min_page_size (to - from))) [
          | inr narrow ↦ absurd (small from to le (ground arith) failed)
          | inl wide ↦
              let apart : retry_min_page_size < to - from = ltb→lt _ _ wide in
              let (mid, next) = middle from to (omega arith) fits in
              let short' : to - from ≤ 100 * (2 ^ retries + 2 ^ retries) =
                rw two-pow-succ at short in
              let (a, lower) =
                get_events-returns retries addr from ((from + to) / 2) small (omega arith)
                  (omega arith) (omega arith) in
              let (b, upper) =
                get_events-returns retries addr ((from + to) / 2 + 1) to small (omega arith) fits
                  (omega arith) in
              (
                a ++ b,
                rw (failed, get_events_for_single_contract)
                    (halves_return _ _ _ a b
                      (ap (λ n. ltb retry_min_page_size n) (sub64-eq to from (omega arith) le)
                        ∙ wide)
                      (ap (λ n. get_events_for_single_contract node retries addr from n) mid
                        ∙ lower)
                      (ap (λ n. get_events_for_single_contract node retries addr n to) next
                        ∙ upper)),
              )
        ]
      ]
