-- ===== src/Stuck/Loop/Ends.antt =====
-- The loop over the withdrawals ends: each confirmed one leaves fewer stuck UTXOs.
use go_sdk_test.Common.{
  ℕ, ◌≤◌, ◌<◌, ◌≡◌, ap, Bool, true, false, Option, none, some, List, [], ◌∷◌, String, ℤ, is_zero,
  Result, ok, err, Result-cases, Bool-cases, inl, inr, arith, if◌then◌else◌,
}
use go_sdk_test.Common.Stateful.{Stateful, continue_with, ◌>>=◌, or_fail, lift, return, bind_ok}
use go_sdk_test.Utxo.{Utxo}
use go_sdk_test.Funds.{FeeStructure}
use go_sdk_test.Stuck.{
  Session, StuckError, Known, filter_on_chain_unspent_utxos, keep_known,
  positive_stuck_utxos_for_token,
}
use go_sdk_test.Stuck.Withdraw.{
  get_stuck_input_and_output_utxos, withdraw_single_stuck_token, withdraw_single_stuck_token_solana,
  withdraw_stuck_token_by_chain_id,
}
use go_sdk_test.Stuck.Loop.Rounds.{IsRound}

-- What is relied on of the chain and the services, for a number `remaining` of stuck UTXOs: resetting
-- the trees, reading the UTXOs and keeping nullifiers add none; and a withdrawal that was submitted,
-- where waiting for its own hash then succeeds, has spent one, since a receipt of success says that the
-- contract took its inputs. Of other hashes and other states nothing is relied on.
pub record Progress {S : Type 0} (c : Session S) (remaining : S → ℕ) : Type 0 where
  pub reset_adds_none : (s : S) → remaining (c.reset_merkle_trees s).1 ≤ remaining s
  pub reading_adds_none : (a : String) (s : S) → remaining (c.stuck_utxos a s).1 ≤ remaining s
  pub known_adds_none : (m : Known) (s : S) → remaining (c.set_known m s) ≤ remaining s
  pub submitted_spends :
      (ins outs : List (List Utxo)) (fee : FeeStructure) (relay to hash : String) (s s1 s2 : S)
      (b : Bool)
      → c.submit ins outs fee relay to s ≡ (ok hash, s1)
      → c.wait_for_transaction hash s1 ≡ (ok b, s2)
      → remaining s2 < remaining s
  pub submitted_solana_spends :
      (ins outs : List Utxo) (fee : FeeStructure) (relay to hash : String) (s s1 s2 : S) (b : Bool)
      → c.submit_solana ins outs fee relay to s ≡ (ok hash, s1)
      → c.wait_for_transaction hash s1 ≡ (ok b, s2)
      → remaining s2 < remaining s

module _ {S : Type 0} (c : Session S) (remaining : S → ℕ) (progress : Progress c remaining) where
  record AddsNone {A : Type 0} (m : Stateful StuckError S A) : Type 0 where
    pub bound : (s : S) → remaining (m s).1 ≤ remaining s

  continue-AddsNone :
      {A B : Type 0} (r : Result StuckError A) (f : A → Stateful StuckError S B) (s : S)
      → ((a : A) → AddsNone (f a))
      → remaining (continue_with r f s).1 ≤ remaining s
  continue-AddsNone (ok a) f s h = (h a).bound s
  continue-AddsNone (err e) f s h = omega arith

  bind-AddsNone :
      {A B : Type 0} (m : Stateful StuckError S A) (f : A → Stateful StuckError S B)
      → AddsNone m
      → ((a : A) → AddsNone (f a))
      → AddsNone (m >>= f)
  unfolding ◌>>=◌
  bind-AddsNone m f h g = record {
    bound = λ s. omega (arith, h.bound s, continue-AddsNone (m s).0 f (m s).1 g);
  }

  or_fail-AddsNone : {A : Type 0} (o : Option A) (e : StuckError) → AddsNone (or_fail o e)
  unfolding or_fail
  or_fail-AddsNone none e = record { bound = λ s. omega arith }
  or_fail-AddsNone (some a) e = record { bound = λ s. omega arith }

  reading-AddsNone : {A : Type 0} (f : S → Result StuckError A) → AddsNone (λ s. (f s, s))
  reading-AddsNone f = record { bound = λ s. omega arith }

  lift-AddsNone : {A : Type 0} (r : Result StuckError A) → AddsNone (lift r)
  unfolding lift
  lift-AddsNone r = record { bound = λ s. omega arith }

  return-AddsNone : {A : Type 0} (a : A) → AddsNone (return a)
  unfolding return
  return-AddsNone a = record { bound = λ s. omega arith }

  keep_known_bound : (known : Option Known) (s : S) → remaining (keep_known c known s) ≤ remaining s
  keep_known_bound none s = omega arith
  keep_known_bound (some m) s = progress.known_adds_none m s

  filter-AddsNone : (us : List Utxo) → AddsNone (filter_on_chain_unspent_utxos c us)
  unfolding filter_on_chain_unspent_utxos
  filter-AddsNone [] = record { bound = λ s. omega arith }
  filter-AddsNone (u ∷ us) = record { bound = λ s. bound s }
    where
      bound : (s : S) → remaining (filter_on_chain_unspent_utxos c (u ∷ us) s).1 ≤ remaining s
      bound s = elim (Bool-cases c.tokens.is_solana) [
        | inl solana ↦ rw (filter_on_chain_unspent_utxos, solana) (omega arith)
        | inr evm ↦ elim (Result-cases (c.contract s)) [
          | inr (e, none_there) ↦ rw (filter_on_chain_unspent_utxos, evm, none_there) (omega arith)
          | inl (nullified, there) ↦
              rw (filter_on_chain_unspent_utxos, evm, there) (keep_known_bound _ s)
        ]
      ]

  stuck_utxos-AddsNone : (a : String) → AddsNone (c.stuck_utxos a)
  stuck_utxos-AddsNone a = record { bound = progress.reading_adds_none a }

  choice-AddsNone :
      {A : Type 0} (b : Bool) {m n : Stateful StuckError S A}
      → AddsNone m
      → AddsNone n
      → AddsNone (if b then m else n)
  choice-AddsNone true g h = g
  choice-AddsNone false g h = h

  ruleset steps =
      (bind-AddsNone, or_fail-AddsNone, reading-AddsNone, lift-AddsNone, return-AddsNone)

  positive-AddsNone :
      (token address : String) → AddsNone (positive_stuck_utxos_for_token c token address)
  unfolding positive_stuck_utxos_for_token
  positive-AddsNone token address = search (steps, stuck_utxos-AddsNone, filter-AddsNone)

  rows-AddsNone :
      (n : ℕ) (tokens : List String) (changes : List ℤ)
      → AddsNone (get_stuck_input_and_output_utxos c n tokens changes)
  unfolding get_stuck_input_and_output_utxos
  rows-AddsNone n tokens changes = search (steps, stuck_utxos-AddsNone) depth 8

  -- A method that answers with the hash of a transaction: where that is waited for with success, a UTXO
  -- has been spent.
  record Spends (m : Stateful StuckError S String) : Type 0 where
    pub fewer :
        (hash : String) (s s1 s2 : S) (b : Bool)
        → m s ≡ (ok hash, s1)
        → c.wait_for_transaction hash s1 ≡ (ok b, s2)
        → remaining s2 < remaining s

  bind-Spends :
      {A : Type 0} (m : Stateful StuckError S A) (f : A → Stateful StuckError S String)
      → AddsNone m
      → ((a : A) → Spends (f a))
      → Spends (m >>= f)
  bind-Spends m f h g = record {
    fewer = λ hash s s1 s2 b sent waited.
        let (a, first, second) = bind_ok m f s s1 hash sent in
        omega (arith, h.bound s, (g a).fewer hash _ s1 s2 b second waited);
  }

  failed-Spends : (e : StuckError) → Spends (lift (err e))
  unfolding lift
  failed-Spends e = record {
    fewer = λ hash s s1 s2 b sent waited. absurd (cc (ap (λ x. x.0) sent));
  }

  submit-Spends :
      (ins outs : List (List Utxo)) (fee : FeeStructure) (relay to : String)
      → Spends (c.submit ins outs fee relay to)
  submit-Spends ins outs fee relay to = record {
    fewer = progress.submitted_spends ins outs fee relay to;
  }

  submit_solana-Spends :
      (ins outs : List Utxo) (fee : FeeStructure) (relay to : String)
      → Spends (c.submit_solana ins outs fee relay to)
  submit_solana-Spends ins outs fee relay to = record {
    fewer = progress.submitted_solana_spends ins outs fee relay to;
  }

  choice-Spends :
      (b : Bool) {m n : Stateful StuckError S String}
      → Spends m
      → Spends n
      → Spends (if b then m else n)
  choice-Spends true g h = g
  choice-Spends false g h = h

  single-Spends :
      (token : String) (total : ℤ) (to : String)
      → Spends (withdraw_single_stuck_token c token total to)
  unfolding withdraw_single_stuck_token
  single-Spends token total to = search (steps, bind-Spends, rows-AddsNone, submit-Spends) depth 12

  solana-Spends :
      (token : String) (total : ℤ) (to : String)
      → Spends (withdraw_single_stuck_token_solana c token total to)
  unfolding withdraw_single_stuck_token_solana
  solana-Spends token total to =
      search (steps, bind-Spends, rows-AddsNone, submit_solana-Spends) depth 14

  withdraw-Spends :
      (token : String) (total : ℤ) (to : String)
      → Spends (withdraw_stuck_token_by_chain_id c token total to)
  unfolding withdraw_stuck_token_by_chain_id
  withdraw-Spends token total to = choice-Spends (is_zero total) (failed-Spends _) (
      choice-Spends c.tokens.is_solana (solana-Spends token total to)
        (single-Spends token total to))

  -- A round that sent a transaction leaves fewer stuck UTXOs.
  pub round_spends :
      (token address to hash : String) (s s' : S)
      → IsRound c token address to s hash s'
      → remaining s' < remaining s
  round_spends token address to hash s s' (t, t1, t2, us, b, reset, read, sent, waited) =
      let first : remaining t ≤ remaining s = rw (reset) at (progress.reset_adds_none s) in
      let second : remaining t1 ≤ remaining t =
        rw (read) at ((positive-AddsNone token address).bound t) in
      let third = (withdraw-Spends token _ to).fewer hash t1 t2 s' b sent waited in
      omega (arith, first, second, third)
