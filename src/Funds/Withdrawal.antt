-- ===== src/Funds/Withdrawal.antt =====
-- What a withdrawal pays out and what its fee takes never exceed the amount that is spent.
use go_sdk_test.Common.{
  ℕ, suc, zero, ◌+◌, ◌*◌, ◌-◌, ◌/◌, ◌≤◌, ◌≡◌, refl, ap, String, pos, neg, quo, ◌+ℤ◌, ◌-ℤ◌, ◌*ℤ◌,
  arith,
}
use native.Mathlib.Omega.{div_any}
use go_sdk_test.Funds.{FeeStructure, calculate_total_fee, calculate_withdrawal_amount}

+ℤ-pos : (a b : ℕ) → pos a +ℤ pos b ≡ pos (a + b)
unfolding ◌+ℤ◌
+ℤ-pos a b = ground arith

*ℤ-pos : (a b : ℕ) → pos a *ℤ pos b ≡ pos (a * b)
unfolding ◌*ℤ◌
*ℤ-pos a b = let e : a * 0 + 0 * b ≡ 0 = omega arith in ground arith

-ℤ-pos : (a b : ℕ) → b ≤ a → pos a -ℤ pos b ≡ pos (a - b)
unfolding ◌-ℤ◌
-ℤ-pos a b h = ground arith

neg-neg : (a : ℕ) → neg (neg (pos a)) ≡ pos a
neg-neg zero = ground arith
neg-neg (suc a) = ground arith

quo-pos : (a b : ℕ) → quo (pos a) (pos b) ≡ pos (a / b)
unfolding quo
quo-pos a b = refl

fee_fits :
    (a f r : ℕ) → f ≤ a → let w = (a - f) * 10000 / (10000 + r) in w + (f + w * r / 10000) ≤ a
fee_fits a f r h =
    let w = (a - f) * 10000 / (10000 + r) in
    omega (arith, h, div_any ((a - f) * 10000) (10000 + r), div_any (w * r) 10000)

-- On an amount of at least the flat fee, and a fee structure with no negative part, the withdrawal
-- amount is not negative, and together with its total fee it is at most the amount.
pub calculate_withdrawal-fits :
    (token : String) (a flat rate : ℕ)
    → flat ≤ a
    → let f : FeeStructure = record {
      fee_token = token;
      flat_fee = pos flat;
      variable_rate = pos rate;
    } in
      (w : ℕ) × (fee : ℕ) × (calculate_withdrawal_amount (neg (pos a)) f ≡ pos w)
      × (calculate_total_fee (pos w) f ≡ pos fee)
      × (w + fee ≤ a)
unfolding calculate_total_fee calculate_withdrawal_amount
calculate_withdrawal-fits token a flat zero h = (
  a - flat,
  flat,
  rw (neg-neg a) (-ℤ-pos a flat h),
  rw (*ℤ-pos, quo-pos, +ℤ-pos) (ap pos (omega arith)),
  omega arith,
)
calculate_withdrawal-fits token a flat (suc r) h = (
  (a - flat) * 10000 / (10000 + suc r),
  flat + (a - flat) * 10000 / (10000 + suc r) * suc r / 10000,
  rw (neg-neg a, -ℤ-pos a flat h, *ℤ-pos, +ℤ-pos, quo-pos) refl,
  rw (*ℤ-pos, quo-pos, +ℤ-pos) refl,
  fee_fits a flat (suc r) h,
)
