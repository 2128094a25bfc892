-- ===== src/Stuck/Loop/Finished.antt =====
-- How the loop over the withdrawals ends.
use go_sdk_test.Common.{ℕ, ◌≤◌, ◌≡◌, ◌⊎◌, List, [], ◌∷◌, ◌++◌, String, length, err}
use go_sdk_test.Stuck.{Session, StuckError}
use go_sdk_test.Stuck.Loop.{Outcome, finished, failed, withdraw_round}
use go_sdk_test.Stuck.Loop.Rounds.{IsRound, IsLastRound}
use go_sdk_test.Stuck.Loop.Ends.{Progress}

module _ {S : Type 0} (c : Session S) (remaining : S → ℕ) (progress : Progress c remaining) where
  -- Rounds, one after the other, and the hashes of their transactions in that order.
  abbrev pub AreRounds : String → String → String → S → List String → S → Type 0
  AreRounds token address to s [] s' = s ≡ s'
  AreRounds token address to s (hash ∷ hs) s' =
      (t : S) × IsRound c token address to s hash t × AreRounds token address to t hs s'

  -- Behind the hashes `before`: either those of at most `n` rounds more, and a last one that found
  -- nothing left; or those of at most `n` rounds more, and the error of the round that failed.
  abbrev pub SettlesBehind : List String → String → String → String → ℕ → S → Outcome × S → Type 0
  SettlesBehind before token address to n s r =
      ((hs : List String) × (t s' : S) × (r ≡ (finished (before ++ hs), s'))
        × (length hs ≤ n)
        × AreRounds token address to s hs t
        × IsLastRound c token address t s')
      ⊎ ((hs : List String) × (e : StuckError) × (t s' : S) × (r ≡ (failed (before ++ hs) e, s'))
          × (length hs ≤ n)
          × AreRounds token address to s hs t
          × (withdraw_round c token address to t ≡ (err e, s')))

  abbrev pub IsSettled : String → String → String → ℕ → S → Outcome × S → Type 0
  IsSettled = SettlesBehind []
