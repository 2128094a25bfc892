-- ===== src/Deposit/Leaves.antt =====
-- The last 20 leaves: what the wait for the deposited UTXOs finds there, and what it cannot find.
use go_sdk_test.Common.{
  ℕ, zero, suc, ◌≤◌, ◌<◌, ◌≡◌, ◌≢◌, ◌⊎◌, refl, ap, ◌∙◌, Bool, true, false, Option, none, some, List,
  [], ◌∷◌, ℤ, int_eq, ◌==◌, length, if◌then◌else◌, Result, ok, arith, Bool-cases, inl, inr,
}
use go_sdk_test.Common.Stateful.{Stateful, ◌>>◌, bind_ok}
use go_sdk_test.Utxo.{Primitives}
use go_sdk_test.Merkle.{MerkleTree}
use go_sdk_test.Merkle.Leaves.{length-last_leaves-le}
use go_sdk_test.Deposit.{
  DepositError, RecipientUtxo, has_leaf, commitment_number, are_all_deposited_utxos_in_last_leaves,
}
use go_sdk_test.Deposit.Flow.{
  Session, leaves_of, are_found, wait_attempts, wait_for_deposited_utxos,
}

-- The list without the first `x`.
erase : ℤ → List ℤ → List ℤ
erase x [] = []
erase x (y ∷ ys) = let rest = erase x ys in if y == x then ys else y ∷ rest

length-erase : (x : ℤ) (ys : List ℤ) → has_leaf x ys ≡ true → length ys ≡ suc (length (erase x ys))
unfolding has_leaf erase
length-erase x [] h = absurd (cc h)
length-erase x (y ∷ ys) h = ground (arith, length-erase x ys)

has_leaf-erase :
    (x z : ℤ) (ys : List ℤ)
    → (z == x) ≡ false
    → has_leaf x ys ≡ true
    → has_leaf x (erase z ys) ≡ true
unfolding has_leaf erase
has_leaf-erase x z [] other h = h
has_leaf-erase x z (y ∷ ys) other h = ground (
  arith,
  has_leaf-erase x z ys other,
  int_eq.same_key_iff y x,
  int_eq.same_key_iff y z,
  int_eq.same_key_iff z x,
)

-- No two of the numbers are the same.
abbrev pub AreDistinct : List ℤ → Type 0
AreDistinct [] = Unit
AreDistinct (x ∷ xs) = (has_leaf x xs ≡ false) × AreDistinct xs

abbrev AreLeaves : List ℤ → List ℤ → Type 0
AreLeaves [] leaves = Unit
AreLeaves (x ∷ xs) leaves = (has_leaf x leaves ≡ true) × AreLeaves xs leaves

apart :
    (x y : ℤ) (ys : List ℤ)
    → has_leaf x (y ∷ ys) ≡ false
    → ((x == y) ≡ false) × (has_leaf x ys ≡ false)
unfolding has_leaf
apart x y ys h = ground (arith, int_eq.same_key_iff x y, int_eq.same_key_iff y x)

AreLeaves-erase :
    (x : ℤ) (xs leaves : List ℤ)
    → has_leaf x xs ≡ false
    → AreLeaves xs leaves
    → AreLeaves xs (erase x leaves)
AreLeaves-erase x [] leaves new h = tt
AreLeaves-erase x (y ∷ ys) leaves new (here, there) =
    let (other, later) = apart x y ys new in
    (has_leaf-erase y x leaves other here, AreLeaves-erase x ys leaves later there)

-- As many different leaves need a list that is as long.
distinct-length-le :
    (xs leaves : List ℤ) → AreDistinct xs → AreLeaves xs leaves → length xs ≤ length leaves
distinct-length-le [] leaves d h = omega arith
distinct-length-le (x ∷ xs) leaves (new, d) (here, there) = omega (
  arith,
  length-erase x leaves here,
  distinct-length-le xs (erase x leaves) d (AreLeaves-erase x xs leaves new there),
)

-- The commitments of the deposited UTXOs are these numbers.
abbrev pub HaveCommitments : Primitives → List RecipientUtxo → List ℤ → Type 0
HaveCommitments p [] [] = Unit
HaveCommitments p (d ∷ ds) (n ∷ ns) = (commitment_number p d.utxo ≡ ok n) × HaveCommitments p ds ns
HaveCommitments p ds ns = ⊥

found-AreLeaves :
    (p : Primitives) (ds : List RecipientUtxo) (ns leaves : List ℤ)
    → HaveCommitments p ds ns
    → are_all_deposited_utxos_in_last_leaves p ds leaves ≡ ok true
    → AreLeaves ns leaves
unfolding are_all_deposited_utxos_in_last_leaves
found-AreLeaves p [] [] leaves h found = tt
found-AreLeaves p [] (n ∷ ns) leaves h found = absurd h
found-AreLeaves p (d ∷ ds) [] leaves h found = absurd h
found-AreLeaves p (d ∷ ds) (n ∷ ns) leaves (this, others) found =
    elim (Bool-cases (has_leaf n leaves)) [
      | inr missing ↦
          absurd (cc (rw (are_all_deposited_utxos_in_last_leaves, this, missing) at found))
      | inl there ↦ (
        there,
        found-AreLeaves p ds ns leaves others
            (rw (are_all_deposited_utxos_in_last_leaves, this, there) at found),
      )
    ]

module _ {S Proof : Type 0} (c : Session S Proof) where
  attempt_found :
      (found : Bool) (rest : Stateful DepositError S (Unit {0})) (s t : S)
      → Path
          (Result DepositError (Unit {0}) × S)
          (elim found [ true ↦ (ok tt, s) | false ↦ (c.pause >> rest) s ])
          (ok tt, t)
      → ((found ≡ true) × (s ≡ t)) ⊎ ((found ≡ false) × (rest (c.pause s).1 ≡ (ok tt, t)))
  attempt_found true rest s t h = inl (refl, ap (λ x. x.1) h)
  attempt_found false rest s t h = let (u, paused, e) = bind_ok c.pause _ s t tt h in inr (refl, e)

  wait_attempts-found :
      (attempts : ℕ) (ds : List RecipientUtxo) (s t : S)
      → wait_attempts c attempts ds s ≡ (ok tt, t)
      → are_all_deposited_utxos_in_last_leaves c.primitives ds (leaves_of c (c.tree t)) ≡ ok true
  unfolding wait_attempts are_found
  wait_attempts-found zero ds s t h = absurd (cc (ap (λ x. x.0) h))
  wait_attempts-found (suc attempts) ds s t h =
      let (u, reset, h1) = bind_ok c.reset_merkle _ s t tt h in
      let (found, looked, h2) = bind_ok (are_found c ds) _ _ t tt h1 in
      elim (attempt_found found (wait_attempts c attempts ds) _ t h2) [
        | inl (yes_found, same) ↦ rw (← same) (ap (λ x. x.0) looked ∙ ap ok yes_found)
        | inr (not_yet, later) ↦ wait_attempts-found attempts ds _ t later
      ]

  -- If waitForDepositedUtxosInMerkleTree returns without an error, then the commitment of every
  -- deposited UTXO is among the last 20 leaves of the tree as it is then.
  pub wait_for_deposited_utxos-found :
      (ds : List RecipientUtxo) (s t : S)
      → wait_for_deposited_utxos c ds s ≡ (ok tt, t)
      → are_all_deposited_utxos_in_last_leaves c.primitives ds (leaves_of c (c.tree t)) ≡ ok true
  unfolding wait_for_deposited_utxos are_all_deposited_utxos_in_last_leaves
  wait_for_deposited_utxos-found [] s t h = refl
  wait_for_deposited_utxos-found (d ∷ ds) s t h = wait_attempts-found 60 (d ∷ ds) s t h

  leaves-length-le : (tree : Option MerkleTree) → length (leaves_of c tree) ≤ 20
  leaves-length-le none = omega arith
  leaves-length-le (some m) = length-last_leaves-le 20 m

  -- A deposit of more than 20 UTXOs with different commitments is never found:
  -- waitForDepositedUtxosInMerkleTree looks at 20 leaves, so it does not return without an error,
  -- whatever the tree holds and however often it is read.
  pub wait_for_deposited_utxos_too_many :
      (ds : List RecipientUtxo) (ns : List ℤ) (s : S)
      → HaveCommitments c.primitives ds ns
      → AreDistinct ns
      → 20 < length ns
      → (wait_for_deposited_utxos c ds s).0 ≢ ok tt
  wait_for_deposited_utxos_too_many ds ns s commitments distinct many done =
      let t = (wait_for_deposited_utxos c ds s).1 in
      let found = wait_for_deposited_utxos-found ds s t (ap (λ r. (r, t)) done) in
      absurd (
        omega (
          arith,
          leaves-length-le (c.tree t),
          distinct-length-le ns (leaves_of c (c.tree t)) distinct
              (found-AreLeaves c.primitives ds ns (leaves_of c (c.tree t)) commitments found),
        ))
