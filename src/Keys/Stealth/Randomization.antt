-- ===== src/Keys/Stealth/Randomization.antt =====
-- FindCorrectRandomization: which multiple it returns, and when it ends.
use Prim.Native.Nat.{ℕ, zero, suc, ◌+◌, ◌-◌, ◌≤◌, ◌<◌, ◌*◌, ◌%◌, ◌^◌}
use native.Mathlib.Nat.{mod-mod, mod-eq_of_lt}
use go_sdk_test.Common.{
  ◌≡◌, refl, ap, ◌∙◌, true, false, ◌⊎◌, some, String, ℤ, pos, negsuc, ◌*ℤ◌, ok, inl, inr, arith,
}
use go_sdk_test.Eddsa.{mod_nat}
use go_sdk_test.Keys.{Crypto}
use go_sdk_test.Keys.Stealth.{
  adjusted_private_key, find_from, find_correct_randomization, is_within, round_s, round_spk,
}

-- The numbers that the circuit takes.
abbrev pub bits_253 : ℕ
bits_253 = 2 ^ 253

module _ (c : Crypto) (r : ℤ) (adjusted : ℕ) where
  -- The randomization times the power of ten, and that times the private key, in the field.
  abbrev pub multiple : ℕ → ℕ
  multiple i = mod_nat c.curve.field_p (r *ℤ pos (10 ^ i))

  abbrev pub multiple_of_key : ℕ → ℕ
  multiple_of_key i = multiple i * adjusted % c.curve.field_p

  abbrev pub IsWithin : ℕ → Type 0
  IsWithin i = (multiple i < bits_253) × (multiple_of_key i < bits_253)

  abbrev pub IsBeyond : ℕ → Type 0
  IsBeyond i = (bits_253 ≤ multiple i) ⊎ (bits_253 ≤ multiple_of_key i)

  -- Each of the `n` powers from `i` on is beyond the bound.
  abbrev pub AreBeyond : ℕ → ℕ → Type 0
  AreBeyond zero i = Unit {0}
  AreBeyond (suc n) i = IsBeyond i × AreBeyond n (i + 1)

  within_test : (i : ℕ) → IsWithin i → is_within c r adjusted i ≡ true
  unfolding is_within round_s round_spk
  within_test i h = ground (arith, h)

  beyond_test : (i : ℕ) → IsBeyond i → is_within c r adjusted i ≡ false
  unfolding is_within round_s round_spk
  beyond_test i (inl h) = ground (arith, h)
  beyond_test i (inr h) = ground (arith, h)

  within_or_beyond :
      (a b : ℕ) → ((a < bits_253) × (b < bits_253)) ⊎ ((bits_253 ≤ a) ⊎ (bits_253 ≤ b))
  within_or_beyond a b = ground arith

  -- The loop ends with the first power that is within the bound.
  find_from-first :
      (k i : ℕ) (fuel : ℕ)
      → k < fuel
      → IsWithin (i + k)
      → (j : ℕ) × (j ≤ k)
        × IsWithin (i + j)
        × AreBeyond j i
        × (find_from c fuel r adjusted i ≡ some (multiple (i + j)))
  unfolding find_from round_s
  find_from-first k i zero enough ends = absurd (omega arith)
  find_from-first zero i (suc fuel) enough ends =
      let e : i + 0 ≡ i = omega arith in
      (0, omega arith, ends, tt, rw (e, find_from, within_test i (rw e at ends)) refl)
  find_from-first (suc k) i (suc fuel) enough ends =
      elim (within_or_beyond (multiple i) (multiple_of_key i)) [
        | inl now ↦
            let e : i + 0 ≡ i = omega arith in
            (0, omega arith, rw e now, tt, rw (e, find_from, within_test i now) refl)
        | inr later ↦
            let e : i + suc k ≡ i + 1 + k = omega arith in
            let (j, le, at_j, before, found) =
              find_from-first k (i + 1) fuel (omega arith) (rw e at ends) in
            let e' : i + suc j ≡ i + 1 + j = omega arith in
            (
              suc j,
              omega arith,
              rw e' at_j,
              (later, before),
              rw (e', find_from, beyond_test i later) found,
            )
      ]

times_one : (n : ℕ) → pos n *ℤ pos 1 ≡ pos n
unfolding ◌*ℤ◌
times_one n = ground arith

mod_nat_again : (p : ℕ) (x : ℤ) → mod_nat p (pos (mod_nat p x)) ≡ mod_nat p x
unfolding mod_nat
mod_nat_again p (pos n) = mod-mod n p
mod_nat_again zero (negsuc n) = let e : 0 - 1 - n % 0 ≡ 0 = omega arith in rw (e) refl
mod_nat_again (suc p) (negsuc n) = mod-eq_of_lt (omega arith)

-- A number of the field is its own multiple by one.
multiple_again :
    (c : Crypto) (r : ℤ) (adjusted j : ℕ)
    → multiple c (pos (multiple c r adjusted j)) adjusted 0 ≡ multiple c r adjusted j
multiple_again c r adjusted j =
    ap (mod_nat c.curve.field_p) (times_one (multiple c r adjusted j))
    ∙ mod_nat_again c.curve.field_p (r *ℤ pos (10 ^ j))

module _ (c : Crypto) where
  -- Where one of the multiples of the randomization by the first powers of ten, up to the power `k`, is
  -- below 2^253 in the field, and its product with the private key is too, the loop of
  -- FindCorrectRandomization ends after `k + 1` rounds at the latest: it returns the multiple by a power
  -- of ten for which both are below 2^253, and for each smaller power one of them is not. For the number
  -- that it returned it ends in the first round, with the same number.
  pub find_correct_randomization-returns :
      (r : ℤ) (key : String) (adjusted k fuel : ℕ)
      → adjusted_private_key c key ≡ ok adjusted
      → IsWithin c r adjusted k
      → k < fuel
      → (j : ℕ) × (j ≤ k)
        × IsWithin c r adjusted j
        × AreBeyond c r adjusted j 0
        × (find_correct_randomization c fuel r key ≡ ok (some (multiple c r adjusted j)))
        × (find_correct_randomization c 1 (pos (multiple c r adjusted j)) key
            ≡ ok (some (multiple c r adjusted j)))
  unfolding find_correct_randomization find_from round_s
  find_correct_randomization-returns r key adjusted k fuel parsed ends enough =
      let e : 0 + k ≡ k = omega arith in
      let (j, le, within, before, found) =
        find_from-first c r adjusted k 0 fuel enough (rw e ends) in
      let e' : 0 + j ≡ j = omega arith in
      let v = multiple c r adjusted j in
      let same = multiple_again c r adjusted j in
      let at_once : IsWithin c (pos v) adjusted 0 = rw (same) (rw e' at within) in
      (
        j,
        le,
        rw e' at within,
        before,
        rw (parsed, found, e'),
        rw (parsed, find_from, within_test c (pos v) adjusted 0 at_once, round_s, same),
      )
