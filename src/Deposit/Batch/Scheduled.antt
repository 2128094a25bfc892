-- ===== src/Deposit/Batch/Scheduled.antt =====
-- What holds when HinkalDepositAndWithdraw has scheduled the withdrawals.
use go_sdk_test.Common.{◌≡◌, List, map, String, ℤ, ok, int_eq}
use go_sdk_test.Common.Stateful.{Stateful}
use go_sdk_test.Utxo.{Utxo}
use go_sdk_test.Deposit.{DepositError, RecipientUtxo}
use go_sdk_test.Deposit.Flow.{Session}

-- Every answer of a method has a property.
record Ensures {S A : Type 0} (P : A → Type 0) (m : Stateful DepositError S A) : Type 0 where
  pub ensured : (s t : S) (a : A) → m s ≡ (ok a, t) → P a

module _ {S Proof : Type 0} (c : Session S Proof) where
  -- Each recipient, in order, has a UTXO of the amount that is due.
  abbrev pub IsDue : List String → List ℤ → List RecipientUtxo × String → Type 0
  IsDue addresses amounts answer =
      (map (λ d. d.recipient_address) answer.0 ≡ addresses)
      × (map (λ d. d.utxo.amount) answer.0 ≡ amounts)
