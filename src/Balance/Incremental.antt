-- ===== src/Balance/Incremental.antt =====
-- Outputs that are decrypted in parts give what all of them give: over the workers, and over the
-- calls between which the cache is kept.
use go_sdk_test.Common.{
  ℕ, suc, zero, ◌+◌, ◌*◌, ◌-◌, ◌/◌, ◌≤◌, ◌<◌, ◌≡◌, refl, sym, ap, ◌∙◌, List, [], ◌∷◌, ◌++◌, length,
  take, drop, ltb, min, map, arith, Bool-cases, inl, inr, take-append-drop,
}
use native.Mathlib.Omega.{div_any}
use native.Mathlib.Nat.{mod-lt}
use go_sdk_test.Utxo.{Utxo}
use go_sdk_test.Snapshot.Commitments.{EncryptedOutputWithSign}
use go_sdk_test.Balance.{
  Wallet, owned_flag, worker_flags, parallel_flags, owned_flags, parallel_decrypt_threshold,
}

drop_all : {A : Type 0} (n : ℕ) (xs : List A) → length xs ≤ n → drop n xs ≡ []
drop_all zero [] h = refl
drop_all zero (x ∷ xs) h = absurd (omega arith)
drop_all (suc n) [] h = refl
drop_all (suc n) (x ∷ xs) h = drop_all n xs (omega arith)

drop-drop : {A : Type 0} (n m : ℕ) (xs : List A) → drop m (drop n xs) ≡ drop (n + m) xs
drop-drop zero m xs = let e : 0 + m ≡ m = omega arith in rw (e) refl
drop-drop (suc n) m [] = drop_all m [] (omega arith) ∙ sym (drop_all (suc n + m) [] (omega arith))
drop-drop (suc n) m (x ∷ xs) =
    drop-drop n m xs ∙ (let e : suc n + m ≡ suc (n + m) = omega arith in rw (e) refl)

map-append : {A B : Type 0} (f : A → B) (xs ys : List A) → map f (xs ++ ys) ≡ map f xs ++ map f ys
map-append f [] ys = refl
map-append f (x ∷ xs) ys = ap (λ zs. f x ∷ zs) (map-append f xs ys)

-- Parts of the rounded-up size cover the whole.
chunks_cover : (n k : ℕ) → 0 < k → n ≤ (0 + k) * ((n + k - 1) / k)
chunks_cover n k h = omega (arith, div_any (n + k - 1) k, mod-lt (n + k - 1) h)

module _ (w : Wallet) where
  parallel_flags-eq-map :
      (rounds index chunk : ℕ) (outs : List EncryptedOutputWithSign)
      → length outs ≤ (index + rounds) * chunk
      → parallel_flags w rounds index chunk outs ≡ map (owned_flag w) (drop (index * chunk) outs)
  unfolding parallel_flags worker_flags
  parallel_flags-eq-map zero index chunk outs h =
      let le : length outs ≤ index * chunk = omega (arith, h) in
      rw (drop_all (index * chunk) outs le) refl
  parallel_flags-eq-map (suc rounds) index chunk outs h =
      elim (Bool-cases (ltb (index * chunk) (length outs))) [
        | inr behind ↦
            let le : length outs ≤ index * chunk = ground arith in
            rw (behind, drop_all (index * chunk) outs le) refl
        | inl inside ↦
            let bound : length outs ≤ (index + 1 + rounds) * chunk = omega (arith, h) in
            let next : (index + 1) * chunk ≡ index * chunk + chunk = omega arith in
            rw
              (
                inside,
                parallel_flags-eq-map rounds (index + 1) chunk outs bound,
                next,
                sym (drop-drop (index * chunk) chunk outs),
                sym (
                    map-append (owned_flag w) (take chunk (drop (index * chunk) outs))
                      (drop chunk (drop (index * chunk) outs))),
                take-append-drop,
              )
              refl
      ]

  -- The workers' flags are those of the sequential loop, whatever their number: the parts cover the
  -- outputs, without a gap or an overlap. The number of workers is positive.
  pub owned_flags-eq-map :
      (outs : List EncryptedOutputWithSign)
      → 0 < w.workers
      → owned_flags w outs ≡ map (owned_flag w) outs
  unfolding owned_flags
  owned_flags-eq-map outs some_worker =
      elim (Bool-cases (ltb (length outs) parallel_decrypt_threshold)) [
        | inl few ↦ rw (few) refl
        | inr many ↦
            let workers = min w.workers (length outs) in
            let positive : 0 < workers = ground arith in
            rw (many) (
              parallel_flags-eq-map workers 0 ((length outs + workers - 1) / workers) outs
                (chunks_cover (length outs) workers positive)
              ∙ (let e : 0 * ((length outs + workers - 1) / workers) ≡ 0 = omega arith in
                  rw (e) refl))
      ]
