-- ===== src/Keys/Stealth/Pairs.antt =====
-- Which pairs of points VerifyStealthPair accepts, and which addresses CheckSignature does.
use go_sdk_test.Common.{
  ◌≡◌, refl, ap, sym, Bool, true, false, ◌&&◌, String, ℤ, pos, ◌==◌, int_eq, ok, Result-cases, inl,
  inr, arith,
}
use go_sdk_test.Eddsa.{JubPoint}
use go_sdk_test.Keys.{Crypto}
use go_sdk_test.Keys.Stealth.{
  adjusted_private_key, get_randomized_stealth_pair, get_h1_from_h0, verify_stealth_pair,
}

same_point : (p q : JubPoint) → (p.0 == q.0 && p.1 == q.1) ≡ true → p ≡ q
same_point (a, b) (x, y) h = ground (arith, int_eq.same_key_iff a x, int_eq.same_key_iff b y)

same_refl : (a : ℤ) → (a == a) ≡ true
same_refl a = (int_eq.same_key_iff a a).1 refl

module _ (c : Crypto) where
  -- The second point of a new pair is the one that is computed from the first.
  pair_h1 :
      (s : ℤ) (key : String) (h0 h1 : JubPoint)
      → get_randomized_stealth_pair c s key ≡ ok (h0, h1)
      → get_h1_from_h0 c h0 key ≡ ok h1
  unfolding get_randomized_stealth_pair get_h1_from_h0
  pair_h1 s key h0 h1 made = elim (Result-cases (adjusted_private_key c key)) [
    | inr (e, failed) ↦ absurd (cc (rw (get_randomized_stealth_pair, failed) at made))
    | inl (k, found) ↦
        let e : ok (c.curve.mul s c.curve.b8, c.curve.mul (pos k) (c.curve.mul s c.curve.b8))
            ≡ ok (h0, h1) =
          rw (get_randomized_stealth_pair, found) at made in
        let first : c.curve.mul s c.curve.b8 ≡ h0 = cc e in
        let second : c.curve.mul (pos k) (c.curve.mul s c.curve.b8) ≡ h1 = cc e in
        rw (get_h1_from_h0, found) (ap ok (rw (← first) second))
  ]

  -- A pair made by GetRandomizedStealthPair from a private key is accepted by VerifyStealthPair with
  -- that key, whether both coordinates are compared or the second alone; and where both are compared,
  -- the second point of the pair is the only one that is accepted with the first.
  pub verify_stealth_pair_exact :
      (s : ℤ) (key : String) (h0 h1 h : JubPoint) (only_y_check : Bool)
      → get_randomized_stealth_pair c s key ≡ ok (h0, h1)
      → verify_stealth_pair c h0 h key false ≡ ok true
      → (verify_stealth_pair c h0 h1 key only_y_check ≡ ok true) × (h ≡ h1)
  unfolding verify_stealth_pair
  verify_stealth_pair_exact s key h0 h1 h y made accepted =
      let computed = pair_h1 s key h0 h1 made in
      let e : ok (h1.0 == h.0 && h1.1 == h.1) ≡ ok true =
        rw (verify_stealth_pair, computed) at accepted in
      let both : (h1.0 == h.0 && h1.1 == h.1) ≡ true = cc e in
      (own y computed, sym (same_point h1 h both))
    where
      own :
          (y : Bool) → get_h1_from_h0 c h0 key ≡ ok h1 → verify_stealth_pair c h0 h1 key y ≡ ok true
      own true computed = rw (verify_stealth_pair, computed, same_refl h1.1)
      own false computed = rw (verify_stealth_pair, computed, same_refl h1.0, same_refl h1.1)
