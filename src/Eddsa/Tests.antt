-- ===== src/Eddsa/Tests.antt =====
-- Runs over the integers modulo 7 in place of the curve.
use Prim.Native.Nat.{ℕ, zero, suc, ◌+◌, ◌*◌, ◌/◌, ◌%◌, ◌^◌, ◌≤◌, ◌<◌}
use go_sdk_test.Common.{◌≡◌, refl, ap, some, [], ◌∷◌, ◌++◌, ℤ, pos, negsuc, replicate, arith}
use go_sdk_test.Eddsa.{
  Curve, JubPoint, eddsa_scalar, eddsa_prune_buffer, clear_low, set_high, update_at,
}
use go_sdk_test.Eddsa.Laws.{MultiplesLaws}
use go_sdk_test.Eddsa.Scalar.{le_value, AreBytes, eddsa_scalar_bounds}

abbrev pub toy_mul : ℤ → JubPoint → JubPoint
toy_mul (pos n) (pos a, y) = (pos (n * a % 7), pos 0)
toy_mul (pos n) (negsuc a, y) = (pos 0, pos 0)
toy_mul (negsuc n) p = (pos 0, pos 0)

abbrev pub toy_add : JubPoint → JubPoint → JubPoint
toy_add (pos a, x) (pos b, y) = (pos ((a + b) % 7), pos 0)
toy_add p q = (pos 0, pos 0)

abbrev pub toy : Curve
toy = record {
  field_p = 1000;
  hash = λ xs. some 5;
  blake_512 = λ bs. replicate 64 200;
  from_le_bytes = le_value;
  to_le_bytes = λ n. n ∷ [];
  mul = toy_mul;
  b8 = (pos 1, pos 0);
  sub_order = 7;
}

pub mul_mod_right : (m k : ℕ) → m * (k % 7) % 7 ≡ m * k % 7
mul_mod_right zero k = omega arith
mul_mod_right (suc m) k = omega (arith, mul_mod_right m k)

pub toy_mul_mul : (m n : ℕ) → m * n * 1 % 7 ≡ m * (n * 1 % 7) % 7
toy_mul_mul m n = let e : n * 1 ≡ n = omega arith in rw e (omega (arith, mul_mod_right m n))

pub point : {m n : ℕ} → m ≡ n → Path JubPoint (pos m, pos 0) (pos n, pos 0)
point e = ap (λ v. (pos v, pos 0)) e

abbrev pub toy_laws : MultiplesLaws toy
toy_laws = record {
  add = toy_add;
  mul_add = λ m n. point (omega arith);
  mul_mul = λ m n. point (toy_mul_mul m n);
  mul_mod = λ n. point (omega arith);
}

replicate-AreBytes : (n b : ℕ) → b < 256 → AreBytes (replicate n b)
replicate-AreBytes zero b h = tt
replicate-AreBytes (suc n) b h = (h, replicate-AreBytes n b h)

pruned : eddsa_prune_buffer (255 ∷ replicate 31 255) ≡ 248 ∷ (replicate 30 255 ++ (127 ∷ []))
unfolding eddsa_prune_buffer clear_low set_high update_at
pruned = refl

eddsa_scalar_bounds_example :
    (eddsa_scalar toy [] / 8 * 8 ≡ eddsa_scalar toy [])
    × (2 ^ 254 ≤ eddsa_scalar toy [])
    × (eddsa_scalar toy [] < 2 ^ 255)
eddsa_scalar_bounds_example =
    eddsa_scalar_bounds toy [] (replicate-AreBytes 64 200 (omega arith)) (omega arith) (λ bs. refl)
