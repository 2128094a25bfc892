-- ===== src/Stuck/Loop/Rounds.antt =====
-- What a round of the loop over the withdrawals has done.
use go_sdk_test.Common.{◌≡◌, refl, ap, Bool, true, false, none, some, List, String, ℤ, is_zero, ok}
use go_sdk_test.Common.Stateful.{return, bind_ok}
use go_sdk_test.Utxo.{Utxo}
use go_sdk_test.Funds.{count_total_amount_in_utxos}
use go_sdk_test.Stuck.{Session, positive_stuck_utxos_for_token}
use go_sdk_test.Stuck.Withdraw.{withdraw_stuck_token_by_chain_id}
use go_sdk_test.Stuck.Loop.{withdraw_total, withdraw_round}

module _ {S : Type 0} (c : Session S) where
  -- A round that withdraws: the trees are reset, the UTXOs of the token are read, and their total is
  -- withdrawn by a transaction with this hash, which is waited for with success.
  abbrev pub IsRound : String → String → String → S → String → S → Type 0
  IsRound token address to s hash s' =
      (t t1 t2 : S) × (us : List Utxo) × (b : Bool) × (c.reset_merkle_trees s ≡ (ok tt, t))
      × (positive_stuck_utxos_for_token c token address t ≡ (ok us, t1))
      × (withdraw_stuck_token_by_chain_id c token (count_total_amount_in_utxos us) to t1
          ≡ (ok hash, t2))
      × (c.wait_for_transaction hash t2 ≡ (ok b, s'))

  -- A round that finds nothing left.
  abbrev pub IsLastRound : String → String → S → S → Type 0
  IsLastRound token address s s' =
      (t : S) × (us : List Utxo) × (c.reset_merkle_trees s ≡ (ok tt, t))
      × (positive_stuck_utxos_for_token c token address t ≡ (ok us, s'))
      × (is_zero (count_total_amount_in_utxos us) ≡ true)

  total_sent :
      (empty : Bool) (token : String) (total : ℤ) (to hash : String) (s s' : S)
      → withdraw_total c empty token total to s ≡ (ok (some hash), s')
      → (t : S) × (b : Bool) × (withdraw_stuck_token_by_chain_id c token total to s ≡ (ok hash, t))
        × (c.wait_for_transaction hash t ≡ (ok b, s'))
  unfolding withdraw_total return
  total_sent true token total to hash s s' h = absurd (cc (ap (λ x. x.0) h))
  total_sent false token total to hash s s' h =
      let (sent, submitted, h1) =
        bind_ok (withdraw_stuck_token_by_chain_id c token total to) _ s s' (some hash) h in
      let t = (withdraw_stuck_token_by_chain_id c token total to s).1 in
      let (b, waited, h2) = bind_ok (c.wait_for_transaction sent) _ t s' (some hash) h1 in
      let same_hash : sent ≡ hash = cc (ap (λ x. x.0) h2) in
      let same : (c.wait_for_transaction sent t).1 ≡ s' = ap (λ x. x.1) h2 in
      rw (← same, ← same_hash) (t, b, submitted, waited)

  pub withdraw_round-IsRound :
      (token address to hash : String) (s s' : S)
      → withdraw_round c token address to s ≡ (ok (some hash), s')
      → IsRound token address to s hash s'
  unfolding withdraw_round
  withdraw_round-IsRound token address to hash s s' h =
      let (a, reset, h1) = bind_ok c.reset_merkle_trees _ s s' (some hash) h in
      let t = (c.reset_merkle_trees s).1 in
      let (us, read, h2) =
        bind_ok (positive_stuck_utxos_for_token c token address) _ t s' (some hash) h1 in
      let (t2, b, sent, waited) = total_sent _ token _ to hash _ s' h2 in
      (t, _, t2, us, b, reset, read, sent, waited)

  total_none :
      (empty : Bool) (token : String) (total : ℤ) (to : String) (s s' : S)
      → withdraw_total c empty token total to s ≡ (ok none, s')
      → (empty ≡ true) × (s ≡ s')
  unfolding withdraw_total return
  total_none true token total to s s' h = (refl, ap (λ x. x.1) h)
  total_none false token total to s s' h =
      let (sent, submitted, h1) =
        bind_ok (withdraw_stuck_token_by_chain_id c token total to) _ s s' none h in
      let (b, waited, h2) = bind_ok (c.wait_for_transaction sent) _ _ s' none h1 in
      absurd (cc (ap (λ x. x.0) h2))

  -- A round that found nothing read UTXOs of no amount.
  pub round_finds_none :
      (token address to : String) (s s' : S)
      → withdraw_round c token address to s ≡ (ok none, s')
      → IsLastRound token address s s'
  unfolding withdraw_round
  round_finds_none token address to s s' h =
      let (a, reset, h1) = bind_ok c.reset_merkle_trees _ s s' none h in
      let s1 = (c.reset_merkle_trees s).1 in
      let (us, read, h2) =
        bind_ok (positive_stuck_utxos_for_token c token address) _ s1 s' none h1 in
      let (zero_left, same) = total_none _ token _ to _ s' h2 in
      (s1, us, reset, rw (← same) read, zero_left)
