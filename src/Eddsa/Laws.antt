-- ===== src/Eddsa/Laws.antt =====
-- A signature of internal/crypto/eddsa.go verifies: the equation that the circuit checks.
use go_sdk_test.Common.{
  ℕ, ◌+◌, ◌*◌, ◌/◌, ◌%◌, ◌≡◌, some, List, [], ◌∷◌, ℤ, pos, arith, Option-cases, inl, inr,
}
use go_sdk_test.Eddsa.{
  Curve, JubPoint, poseidon_big, eddsa_prv_2_pub, eddsa_scalar, eddsa_nonce, eddsa_s,
  eddsa_sign_poseidon,
}

-- What is relied on of the curve: the multiples of the base point add up, and the base point has the
-- order that is named.
pub record MultiplesLaws (c : Curve) : Type 0 where
  pub add : JubPoint → JubPoint → JubPoint
  pub mul_add : (m n : ℕ) → c.mul (pos (m + n)) c.b8 ≡ add (c.mul (pos m) c.b8) (c.mul (pos n) c.b8)
  pub mul_mul : (m n : ℕ) → c.mul (pos (m * n)) c.b8 ≡ c.mul (pos m) (c.mul (pos n) c.b8)
  pub mul_mod : (n : ℕ) → c.mul (pos (n % c.sub_order)) c.b8 ≡ c.mul (pos n) c.b8

abbrev signed_point : Curve → List ℕ → ℕ → JubPoint
signed_point c prv msg = c.mul (pos (eddsa_nonce c prv msg)) c.b8

-- What is hashed: the two points and the message.
abbrev pub transcript : Curve → List ℕ → ℕ → JubPoint → List ℤ
transcript c prv msg r8 =
    r8.0 ∷ r8.1 ∷ (eddsa_prv_2_pub c prv).0 ∷ (eddsa_prv_2_pub c prv).1 ∷ pos msg ∷ []

module _ (c : Curve) (laws : MultiplesLaws c) where
  -- S B8 = R8 + (8 h) A, where h is the hash of the points and the message.
  pub eddsa_s_lem :
      (r hm s : ℕ)
      → c.mul (pos (eddsa_s c r hm s)) c.b8
        ≡ laws.add (c.mul (pos r) c.b8) (c.mul (pos (8 * hm)) (c.mul (pos s) c.b8))
  unfolding eddsa_s
  eddsa_s_lem r hm s =
      let e : hm * (s * 8) ≡ 8 * hm * s = omega arith in
      rw
        (laws.mul_mod (r + hm * (s * 8)), laws.mul_add r (hm * (s * 8)), e, laws.mul_mul (8 * hm) s)

  pub eddsa_sign-verifies :
      (prv : List ℕ) (msg : ℕ) (r8 : JubPoint) (s : ℕ)
      → eddsa_sign_poseidon c prv msg ≡ some (r8, s)
      → (hm : ℕ) × (poseidon_big c (transcript c prv msg r8) ≡ some hm)
        × (c.mul (pos s) c.b8 ≡ laws.add r8 (c.mul (pos (8 * hm)) (eddsa_prv_2_pub c prv)))
  unfolding eddsa_sign_poseidon eddsa_prv_2_pub
  eddsa_sign-verifies prv msg r8 s signed =
      elim (Option-cases (poseidon_big c (transcript c prv msg (signed_point c prv msg)))) [
        | inl failed ↦ absurd (cc (rw (eddsa_sign_poseidon, failed) at signed))
        | inr (hm, found) ↦
            let e : some (
              signed_point c prv msg,
              eddsa_s c (eddsa_nonce c prv msg) hm (eddsa_scalar c prv / 8),
            )
                ≡ some (r8, s) =
              rw (eddsa_sign_poseidon, found) at signed in
            let point : signed_point c prv msg ≡ r8 = cc e in
            let scalar : eddsa_s c (eddsa_nonce c prv msg) hm (eddsa_scalar c prv / 8) ≡ s = cc e in
            rw (← point, ← scalar)
              (hm, found, eddsa_s_lem (eddsa_nonce c prv msg) hm (eddsa_scalar c prv / 8))
      ]
