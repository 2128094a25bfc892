-- ===== src/Balance/Unspent.antt =====
-- What GetInputUtxoAndBalance returns can be spent: no nullifier is known to be used, and all are of
-- the kind that is asked for.
use go_sdk_test.Common.{
  ◌≡◌, refl, Bool, true, false, Option, none, some, List, [], ◌∷◌, String, contains, string_eq,
  Bool-cases, Option-cases, inl, inr,
}
use go_sdk_test.Utxo.{Utxo, get_nullifier}
use go_sdk_test.Utxo.Caching.{Keeps, get_nullifier-Keeps}
use go_sdk_test.Snapshot.Commitments.{EncryptedOutputWithSign}
use go_sdk_test.Snapshot.Nullifiers.{Nullifiers}
use go_sdk_test.Balance.{
  Wallet, filter_spent_utxos, keep_blocked, get_input_utxo_and_balance, InputUtxoParams,
  RemoteUtxos, HinkalCacheInterface,
}

-- Each UTXO has kept a nullifier that is not among the spent ones.
abbrev AreUnspent : Nullifiers → List Utxo → Type 0
AreUnspent nullifiers [] = Unit {0}
AreUnspent nullifiers (u ∷ us) =
    (contains u.nullifier nullifiers ≡ false) × AreUnspent nullifiers us

-- The same, and each is blocked or not, as `wanted`.
abbrev pub AreSpendable : Nullifiers → Bool → List Utxo → Type 0
AreSpendable nullifiers wanted [] = Unit {0}
AreSpendable nullifiers wanted (u ∷ us) =
    (contains u.nullifier nullifiers ≡ false)
    × (u.is_blocked ≡ wanted)
    × AreSpendable nullifiers wanted us

kept_value :
    (field : Utxo → String) (r : Option String × Utxo) (v : String)
    → r.0 ≡ some v
    → Keeps field r
    → field r.1 ≡ v
kept_value field (none, u) v h k = absurd (cc h)
kept_value field (some x, u) v h k = cc (h, k)

filter_spent-AreUnspent :
    (w : Wallet) (nullifiers : Nullifiers) (us : List Utxo)
    → AreUnspent nullifiers (filter_spent_utxos w nullifiers us)
unfolding filter_spent_utxos
filter_spent-AreUnspent w nullifiers [] = tt
filter_spent-AreUnspent w nullifiers (u ∷ us) =
    let rest = filter_spent-AreUnspent w nullifiers us in
    elim (Option-cases (get_nullifier w.primitives u).0) [
      | inl missing ↦ rw (missing, filter_spent_utxos) rest
      | inr (n, found) ↦
          let kept =
            kept_value Utxo.nullifier (get_nullifier w.primitives u) n found
              (get_nullifier-Keeps w.primitives u) in
          elim (Bool-cases (contains n nullifiers)) [
            | inl spent ↦ rw (found, filter_spent_utxos, spent) rest
            | inr unspent ↦ rw (found, filter_spent_utxos, unspent) (rw (kept) unspent, rest)
          ]
    ]

keep_blocked-AreSpendable :
    (nullifiers : Nullifiers) (wanted : Bool) (us : List Utxo)
    → AreUnspent nullifiers us
    → AreSpendable nullifiers wanted (keep_blocked wanted us)
unfolding keep_blocked
keep_blocked-AreSpendable nullifiers wanted [] h = tt
keep_blocked-AreSpendable nullifiers true (u ∷ us) (unspent, h) =
    let rest = keep_blocked-AreSpendable nullifiers true us h in
    elim (Bool-cases u.is_blocked) [
      | inl blocked ↦ rw (blocked) (unspent, refl, rest)
      | inr free ↦ rw (free) rest
    ]
keep_blocked-AreSpendable nullifiers false (u ∷ us) (unspent, h) =
    let rest = keep_blocked-AreSpendable nullifiers false us h in
    elim (Bool-cases u.is_blocked) [
      | inl blocked ↦ rw (blocked) rest
      | inr free ↦ rw (free) (unspent, refl, rest)
    ]

-- Whatever the source of the outputs, the cache and the enclave say, each UTXO that
-- GetInputUtxoAndBalance returns has a nullifier that is not among the known spent ones, and is
-- blocked exactly if blocked UTXOs were asked for.
pub get_input_utxo_and_balance-AreSpendable :
    (w : Wallet) (q : InputUtxoParams) (remote : Option RemoteUtxos)
    (outputs : List EncryptedOutputWithSign) (nullifiers : Nullifiers) (held : HinkalCacheInterface)
    → AreSpendable nullifiers q.use_blocked_utxos
        (get_input_utxo_and_balance w q remote outputs nullifiers held).0
unfolding get_input_utxo_and_balance
get_input_utxo_and_balance-AreSpendable w q remote outputs nullifiers held =
    keep_blocked-AreSpendable nullifiers q.use_blocked_utxos _
      (filter_spent-AreUnspent w nullifiers _)
