-- ===== src/Sealed/RoundTrip.antt =====
-- Every recipient opens what EncryptSealedKeys sealed, as long as one byte holds their number.
use go_sdk_test.Common.{
  ℕ, zero, suc, ◌+◌, ◌*◌, ◌%◌, ◌≤◌, ◌<◌, ◌≡◌, refl, sym, ◌∙◌, false, some, List, [], ◌∷◌, ◌++◌,
  append_assoc, pos, length, take, drop, get_elem?, ltb, leb, nat_eq, ok, length-append,
  take_append, drop_append, arith, Option-cases, inl, inr,
}
use go_sdk_test.Sealed.{Boxes, open_keys, decrypt_sealed_keys, seal_all, encrypt_sealed_keys}

-- What is relied on of the boxes, for the pairs of a public and a secret key: a sealed box has 48
-- bytes more than its content, and what was sealed is opened again.
pub record BoxLaws (b : Boxes) (IsKeyPair : List ℕ → List ℕ → Type 0) : Type 0 where
  pub sealed_length :
      (n : ℕ) (m pk s : List ℕ) → b.seal_anonymous n m pk ≡ some s → length s ≡ length m + 48
  pub open_sealed :
      (n : ℕ) (m pk sk s : List ℕ)
      → IsKeyPair pk sk
      → b.seal_anonymous n m pk ≡ some s
      → b.open_anonymous s pk sk ≡ some m
  pub open_secret_sealed :
      (m nonce key : List ℕ) → b.open_secret (b.seal_secret m nonce key) nonce key ≡ some m
  pub key_length : (key : List ℕ) → b.draw_key ≡ some key → length key ≡ 32
  pub nonce_length : (nonce : List ℕ) → b.draw_nonce ≡ some nonce → length nonce ≡ 24

get_elem-lt : {A : Type 0} (xs : List A) (i : ℕ) (x : A) → get_elem? xs i ≡ some x → i < length xs
get_elem-lt [] i x h = absurd (cc h)
get_elem-lt (y ∷ ys) zero x h = omega arith
get_elem-lt (y ∷ ys) (suc i) x h = omega (arith, get_elem-lt ys i x h)

module _ (b : Boxes) (IsKeyPair : List ℕ → List ℕ → Type 0) (laws : BoxLaws b IsKeyPair) where
  -- The first box of a list, and the others.
  seal_all_cons :
      (n : ℕ) (key pk : List ℕ) (pks : List (List ℕ)) (out : List ℕ)
      → seal_all b n key (pk ∷ pks) ≡ some out
      → (s rest : List ℕ) × (b.seal_anonymous n key pk ≡ some s)
        × (seal_all b (suc n) key pks ≡ some rest)
        × (out ≡ s ++ rest)
  unfolding seal_all
  seal_all_cons n key pk pks out h = elim (Option-cases (b.seal_anonymous n key pk)) [
    | inl failed ↦ absurd (cc (rw (seal_all, failed) at h))
    | inr (s, found) ↦ elim (Option-cases (seal_all b (suc n) key pks)) [
      | inl failed ↦ absurd (cc (rw (seal_all, found, failed) at h))
      | inr (rest, next) ↦
          let e : some (s ++ rest) ≡ some out = rw (seal_all, found, next) at h in
          (s, rest, found, next, cc e)
    ]
  ]

  seal_all-length :
      (n : ℕ) (key : List ℕ) (pks : List (List ℕ)) (out : List ℕ)
      → length key ≡ 32
      → seal_all b n key pks ≡ some out
      → length out ≡ length pks * 80
  unfolding seal_all
  seal_all-length n key [] out size h = let e : [] ≡ out = cc h in rw (← e) refl
  seal_all-length n key (pk ∷ pks) out size h =
      let (s, rest, found, next, e) = seal_all_cons n key pk pks out h in
      rw e (
        omega (
          arith,
          length-append s rest,
          laws.sealed_length n key pk s found,
          seal_all-length (suc n) key pks rest size next,
        ))

  -- The box of the recipient number `i` stands at `i * 80`, whatever follows the boxes.
  seal_all_at :
      (n i : ℕ) (key pk : List ℕ) (pks : List (List ℕ)) (out more : List ℕ)
      → length key ≡ 32
      → get_elem? pks i ≡ some pk
      → seal_all b n key pks ≡ some out
      → (s : List ℕ) × (m : ℕ) × (b.seal_anonymous m key pk ≡ some s)
        × (take 80 (drop (i * 80) (out ++ more)) ≡ s)
  seal_all_at n i key pk [] out more size at_i h = absurd (cc at_i)
  seal_all_at n zero key pk (p ∷ pks) out more size at_i h =
      let (s, rest, found, next, e) = seal_all_cons n key p pks out h in
      let same : p ≡ pk = cc at_i in
      let long : 80 ≡ length s = omega (arith, laws.sealed_length n key p s found) in
      (
        s,
        n,
        rw (← same) found,
        rw (e, append_assoc s rest more, take_append s (rest ++ more) 80 long),
      )
  seal_all_at n (suc i) key pk (p ∷ pks) out more size at_i h =
      let (s, rest, found, next, e) = seal_all_cons n key p pks out h in
      let (s', m, found', at_s) = seal_all_at (suc n) i key pk pks rest more size at_i next in
      let long : suc i * 80 ≡ length s + i * 80 =
        omega (arith, laws.sealed_length n key p s found) in
      (
        s',
        m,
        found',
        rw (e, append_assoc s rest more, drop_append s (rest ++ more) (suc i * 80) (i * 80) long)
            at_s,
      )

  -- What a sealed message is made of.
  encrypt_parts :
      (msg : List ℕ) (pks : List (List ℕ)) (packed : List ℕ)
      → encrypt_sealed_keys b msg pks ≡ ok packed
      → (key nonce sealed : List ℕ) × (length key ≡ 32)
        × (length nonce ≡ 24)
        × (seal_all b 0 key pks ≡ some sealed)
        × (packed ≡ length pks % 256 ∷ (nonce ++ (sealed ++ b.seal_secret msg nonce key)))
  unfolding encrypt_sealed_keys
  encrypt_parts msg pks packed h = elim (Option-cases b.draw_key) [
    | inl failed ↦ absurd (cc (rw (encrypt_sealed_keys, failed) at h))
    | inr (key, drawn) ↦ elim (Option-cases b.draw_nonce) [
      | inl failed ↦ absurd (cc (rw (encrypt_sealed_keys, drawn, failed) at h))
      | inr (nonce, drawn') ↦ elim (Option-cases (seal_all b 0 key pks)) [
        | inl failed ↦ absurd (cc (rw (encrypt_sealed_keys, drawn, drawn', failed) at h))
        | inr (sealed, done) ↦
            let e : ok (length pks % 256 ∷ (nonce ++ (sealed ++ b.seal_secret msg nonce key)))
                ≡ ok packed =
              rw (encrypt_sealed_keys, drawn, drawn', done) at h in
            (
              key,
              nonce,
              sealed,
              laws.key_length key drawn,
              laws.nonce_length nonce drawn',
              done,
              sym (cc e),
            )
      ]
    ]
  ]

  -- A recipient that finds its own box opens the message.
  open_keys-sealed :
      (i m : ℕ) (msg key nonce pk sk s sealed : List ℕ) (n : ℕ)
      → IsKeyPair pk sk
      → length key ≡ 32
      → length sealed ≡ n * 80
      → b.seal_anonymous m key pk ≡ some s
      → take 80 (drop (i * 80) (sealed ++ b.seal_secret msg nonce key)) ≡ s
      → open_keys b n i nonce (sealed ++ b.seal_secret msg nonce key) pk sk ≡ ok msg
  unfolding open_keys
  open_keys-sealed i m msg key nonce pk sk s sealed n paired size long found at_s =
      let tail =
        drop_append sealed (b.seal_secret msg nonce key) (n * 80) 0 (omega (arith, long)) in
      rw (
        at_s,
        laws.open_sealed m key pk sk s paired found,
        size,
        tail,
        laws.open_secret_sealed msg nonce key,
      )

  -- The checks that bytes of the right length pass.
  decrypt_within :
      (count i : ℕ) (nonce rest pk sk : List ℕ)
      → length nonce ≡ 24
      → i < count
      → count * 80 ≤ length rest
      → decrypt_sealed_keys b (count ∷ (nonce ++ rest)) pk sk (pos i)
        ≡ open_keys b count i nonce rest pk sk
  unfolding decrypt_sealed_keys
  decrypt_within count i nonce rest pk sk size below long =
      let total = length-append nonce rest in
      let t1 : ltb (1 + length (nonce ++ rest)) 25 ≡ false = ground arith in
      let t2 : leb count i ≡ false = ground arith in
      let t3 : ltb (1 + length (nonce ++ rest)) (25 + count * 80) ≡ false = ground arith in
      let front = take_append nonce rest 24 (sym size) in
      let back = drop_append nonce rest 24 0 (omega (arith, size)) in rw (t1, t2, t3, front, back)

  -- A message that EncryptSealedKeys sealed for at most 255 recipients is opened by DecryptSealedKeys
  -- for each of them, with the recipient's place in the list and pair of keys, and is the same message:
  -- where the boxes of the library open what they sealed and are 48 bytes longer than their content, and
  -- the random key and nonce have 32 and 24 bytes.
  pub decrypt-encrypt_sealed_keys :
      (msg : List ℕ) (pks : List (List ℕ)) (packed pk sk : List ℕ) (i : ℕ)
      → encrypt_sealed_keys b msg pks ≡ ok packed
      → length pks < 256
      → get_elem? pks i ≡ some pk
      → IsKeyPair pk sk
      → decrypt_sealed_keys b packed pk sk (pos i) ≡ ok msg
  unfolding decrypt_sealed_keys
  decrypt-encrypt_sealed_keys msg pks packed pk sk i made few at_i paired =
      let (key, nonce, sealed, size, size', done, e) = encrypt_parts msg pks packed made in
      let (s, m, found, at_s) =
        seal_all_at 0 i key pk pks sealed (b.seal_secret msg nonce key) size at_i done in
      let byte : length pks % 256 ≡ length pks = omega arith in
      let long = seal_all-length 0 key pks sealed size done in
      rw (e, byte)
        (decrypt_within (length pks) i nonce (sealed ++ b.seal_secret msg nonce key) pk sk size'
            (get_elem-lt pks i pk at_i)
            (omega (arith, length-append sealed (b.seal_secret msg nonce key), long))
          ∙ open_keys-sealed i m msg key nonce pk sk s sealed (length pks) paired size long found
              at_s)
