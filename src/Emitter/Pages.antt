-- ===== src/Emitter/Pages.antt =====
-- buildPages splits a block range into consecutive pages.
use go_sdk_test.Common.{
  ℕ, zero, suc, ◌+◌, ◌-◌, ◌≤◌, ◌<◌, ◌≡◌, refl, inl, inr, none, some, List, [], ◌∷◌, min, leb,
  leb→le, le→leb, true, Bool-cases, arith,
}
use go_sdk_test.Common.Words.{add64, sub64, add64-eq, add64-lt, sub64-eq, u64_mod}
use go_sdk_test.Emitter.{build_pages_from, build_pages}

-- The pages start at `lo`, follow one another with no gap or overlap, end at `hi`, and none is
-- longer than `page`.
abbrev pub IsTiling : ℕ → ℕ → ℕ → List (ℕ × ℕ) → Type 0
IsTiling page lo hi [] = lo ≡ hi + 1
IsTiling page lo hi ((a, b) ∷ ps) =
    (a ≡ lo) × (lo ≤ b) × (b ≤ hi) × (b + 1 ≤ lo + page) × IsTiling page (b + 1) hi ps

build_pages_from-IsTiling :
    (fuel cur to page : ℕ)
    → to + 1 - cur < fuel
    → 0 < page
    → to + page < u64_mod
    → (ps : List (ℕ × ℕ)) × (build_pages_from fuel cur to page ≡ some ps)
      × IsTiling page (min cur (to + 1)) to ps
unfolding build_pages_from
build_pages_from-IsTiling zero cur to page enough positive fits = absurd (omega arith)
build_pages_from-IsTiling (suc fuel) cur to page enough positive fits =
    elim (Bool-cases (leb cur to)) [
      | inl more ↦
          let le : cur ≤ to = leb→le cur to more in
          let step : add64 cur page ≡ cur + page = add64-eq cur page (omega arith) in
          let last : sub64 (add64 cur page) 1 ≡ cur + page - 1 =
            rw step (sub64-eq (cur + page) 1 (omega arith) (omega arith)) in
          let (ps, done, tiling) =
            build_pages_from-IsTiling fuel (add64 cur page) to page (rw step (omega arith)) positive
              fits in
          let next : min (add64 cur page) (to + 1) ≡ min (sub64 (add64 cur page) 1) to + 1 =
            omega (arith, step, last) in
          (
            (cur, min (sub64 (add64 cur page) 1) to) ∷ ps,
            rw (more, done),
            (omega arith, omega (arith, last), omega arith, omega (arith, last), rw next at tiling),
          )
      | inr past ↦ ([], rw past, ground arith)
    ]

-- With a page size that is not 0, and block numbers far enough below 2 ^ 64, the loop ends, and its
-- pages tile the range.
pub build_pages-IsTiling :
    (from to page : ℕ)
    → from ≤ to
    → 0 < page
    → to + page < u64_mod
    → (ps : List (ℕ × ℕ)) × (build_pages from to (some page) ≡ some ps) × IsTiling page from to ps
unfolding build_pages
build_pages-IsTiling from to zero le positive fits = absurd (omega arith)
build_pages-IsTiling from to (suc p) le positive fits =
    let (ps, done, tiling) =
      build_pages_from-IsTiling (suc (to + 1 - from)) from to (suc p) (omega arith) positive fits in
    let e : min from (to + 1) ≡ from = omega arith in (ps, done, rw e at tiling)

-- Up to the greatest uint64 the loop never ends, whatever the page size: every counter is at most
-- that, since the sum wraps.
pub build_pages_from-diverges :
    (fuel cur page : ℕ) → cur < u64_mod → build_pages_from fuel cur (u64_mod - 1) page ≡ none
unfolding build_pages_from
build_pages_from-diverges zero cur page h = refl
build_pages_from-diverges (suc fuel) cur page h =
    let more : leb cur (u64_mod - 1) ≡ true = le→leb _ _ (omega arith) in
    rw (more, build_pages_from-diverges fuel (add64 cur page) page (add64-lt cur page))

-- Without a page size, or with 0, the range is one page.
pub build_pages_unset :
    (from to : ℕ)
    → (build_pages from to none ≡ some ((from, to) ∷ []))
      × (build_pages from to (some 0) ≡ some ((from, to) ∷ []))
unfolding build_pages
build_pages_unset from to = (refl, refl)
