-- ===== src/Sealed/Tests.antt =====
-- Runs with boxes that hide nothing.
use go_sdk_test.Common.{
  ℕ, zero, suc, ◌+◌, ◌≡◌, refl, some, List, [], ◌∷◌, ◌++◌, pos, length, drop, replicate, ok, err,
  arith,
}
use go_sdk_test.Sealed.{
  Boxes, index_out_of_range, too_short, decrypt_sealed_keys, encrypt_sealed_keys, seal_all,
}
use go_sdk_test.Sealed.RoundTrip.{BoxLaws, decrypt-encrypt_sealed_keys}

abbrev clear : Boxes
clear = record {
  open_anonymous = λ s pk sk. some (drop 48 s);
  seal_anonymous = λ n m pk. some (replicate 48 n ++ m);
  open_secret = λ s nonce key. some s;
  seal_secret = λ m nonce key. m;
  draw_key = some (replicate 32 9);
  draw_nonce = some (replicate 24 8);
}

abbrev Same : List ℕ → List ℕ → Type 0
Same pk sk = pk ≡ sk

clear_laws : BoxLaws clear Same
clear_laws = record {
  sealed_length = λ n m pk s h. sealed_size n m s h;
  open_sealed = λ n m pk sk s paired h. opened n m s h;
  open_secret_sealed = λ m nonce key. refl;
  key_length = λ key h. drawn key h;
  nonce_length = λ nonce h. drawn' nonce h;
}
  where
    sealed_size :
        (n : ℕ) (m s : List ℕ) → some (replicate 48 n ++ m) ≡ some s → length s ≡ length m + 48
    sealed_size n m s h = let e : replicate 48 n ++ m ≡ s = cc h in rw (← e) (omega arith)

    opened :
        (n : ℕ) (m s : List ℕ) → some (replicate 48 n ++ m) ≡ some s → some (drop 48 s) ≡ some m
    opened n m s h = let e : replicate 48 n ++ m ≡ s = cc h in rw (← e) refl

    drawn : (key : List ℕ) → some (replicate 32 9) ≡ some key → length key ≡ 32
    drawn key h = let e : replicate 32 9 ≡ key = cc h in rw (← e) refl

    drawn' : (key : List ℕ) → some (replicate 24 8) ≡ some key → length key ≡ 24
    drawn' key h = let e : replicate 24 8 ≡ key = cc h in rw (← e) refl

abbrev two_keys : List (List ℕ)
two_keys = (1 ∷ []) ∷ (2 ∷ []) ∷ []

abbrev sealed_for_two : List ℕ
sealed_for_two =
    2
    ∷ (replicate 24 8
        ++ (replicate 48 0
            ++ replicate 32 9
            ++ (replicate 48 1 ++ replicate 32 9 ++ [])
            ++ (5 ∷ 6 ∷ [])))

two_sealed : encrypt_sealed_keys clear (5 ∷ 6 ∷ []) two_keys ≡ ok sealed_for_two
unfolding encrypt_sealed_keys seal_all
two_sealed = refl

nobody : decrypt_sealed_keys clear sealed_for_two (3 ∷ []) (3 ∷ []) (pos 2) ≡ err index_out_of_range
unfolding decrypt_sealed_keys
nobody = refl

nothing : decrypt_sealed_keys clear (1 ∷ 2 ∷ []) [] [] (pos 0) ≡ err too_short
unfolding decrypt_sealed_keys
nothing = refl

decrypt-encrypt_sealed_keys_example :
    decrypt_sealed_keys clear sealed_for_two (2 ∷ []) (2 ∷ []) (pos 1) ≡ ok (5 ∷ 6 ∷ [])
decrypt-encrypt_sealed_keys_example =
    decrypt-encrypt_sealed_keys clear Same clear_laws (5 ∷ 6 ∷ []) two_keys sealed_for_two (2 ∷ [])
      (2 ∷ []) 1 two_sealed (omega arith) refl refl

abbrev many_keys : List (List ℕ)
many_keys = replicate 256 (1 ∷ [])

abbrev boxes : List ℕ → ℕ → ℕ → List ℕ
boxes key n zero = []
boxes key n (suc k) = replicate 48 n ++ key ++ boxes key (suc n) k

abbrev sealed_for_many : List ℕ
sealed_for_many = 0 ∷ (replicate 24 8 ++ (boxes (replicate 32 9) 0 256 ++ (5 ∷ [])))
