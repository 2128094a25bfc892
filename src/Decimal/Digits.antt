-- ===== src/Decimal/Digits.antt =====
-- What is written in decimal is read back.
use go_sdk_test.Common.{
  ℕ, zero, suc, ◌+◌, ◌*◌, ◌-◌, ◌/◌, ◌%◌, ◌≤◌, ◌<◌, ◌≡◌, refl, ap, ◌∙◌, false, some, [], ◌∷◌, ◌++◌,
  ℤ, pos, negsuc, neg, abs, arith, Bool-cases, inl, inr, ltb, nat_beq, replicate, length,
}
use go_sdk_test.Decimal.{
  Text, is_digit, digits_within, digits, big_string, read_digits, read_number, set_string,
}

abbrev pub AreDigits : Text → Type 0
AreDigits [] = Unit {0}
AreDigits (c ∷ cs) = (b'0' ≤ c) × (c ≤ b'9') × AreDigits cs

pub AreDigits-append : (xs ys : Text) → AreDigits xs → AreDigits ys → AreDigits (xs ++ ys)
AreDigits-append [] ys hx hy = hy
AreDigits-append (c ∷ cs) ys (lo, hi, hx) hy = (lo, hi, AreDigits-append cs ys hx hy)

digits_within-AreDigits : (fuel n : ℕ) → AreDigits (digits_within fuel n)
unfolding digits_within
digits_within-AreDigits zero n = tt
digits_within-AreDigits (suc fuel) n = elim (Bool-cases (ltb n 10)) [
  | inl one ↦ rw (one) (omega arith, omega arith, tt)
  | inr more ↦ rw (more) (
      AreDigits-append (digits_within fuel (n / 10)) _ (digits_within-AreDigits fuel (n / 10))
        (omega arith, omega arith, tt))
]

pub digits-AreDigits : (n : ℕ) → AreDigits (digits n)
unfolding digits
digits-AreDigits n = digits_within-AreDigits (suc n) n

-- Reading a text and one more digit.
pub read_digits-append :
    (xs ys : Text) (acc n : ℕ)
    → read_digits acc xs ≡ some n
    → read_digits acc (xs ++ ys) ≡ read_digits n ys
unfolding read_digits
read_digits-append [] ys acc n h = ap (λ m. read_digits m ys) (some_inj h)
  where
    some_inj : {a b : ℕ} → some a ≡ some b → a ≡ b
    some_inj e = cc e
read_digits-append (c ∷ cs) ys acc n h = elim (Bool-cases (is_digit c)) [
  | inl digit ↦ rw (digit) (read_digits-append cs ys (acc * 10 + (c - b'0')) n (rw (digit) at h))
  | inr other ↦ absurd (cc (h, other))
]

one_digit : (m n : ℕ) → m * 10 + n % 10 ≡ n → read_digits m ((b'0' + n % 10) ∷ []) ≡ some n
unfolding read_digits
one_digit m n h = ground (arith, h)

read_digits-digits_within : (fuel n : ℕ) → n < fuel → read_digits 0 (digits_within fuel n) ≡ some n
unfolding digits_within
read_digits-digits_within zero n h = absurd (omega arith)
read_digits-digits_within (suc fuel) n h = elim (Bool-cases (ltb n 10)) [
  | inl one ↦ rw (one) (one_digit 0 n (ground arith))
  | inr more ↦ rw (more) (
      read_digits-append (digits_within fuel (n / 10)) _ 0 (n / 10)
        (read_digits-digits_within fuel (n / 10) (ground arith))
      ∙ one_digit (n / 10) n (omega arith))
]

-- Leading zeros do not count.
pub read_digits-zeros :
    (k : ℕ) (xs : Text) → read_digits 0 (replicate k b'0' ++ xs) ≡ read_digits 0 xs
unfolding read_digits
read_digits-zeros zero xs = refl
read_digits-zeros (suc k) xs = read_digits-zeros k xs

pub read_digits-digits : (n : ℕ) → read_digits 0 (digits n) ≡ some n
unfolding digits
read_digits-digits n = read_digits-digits_within (suc n) n (omega arith)

-- A number is written with at least one digit, the first one being no sign.
pub digits-cons : (n : ℕ) → (c : ℕ) × (cs : Text) × (digits n ≡ c ∷ cs) × (b'0' ≤ c) × (c ≤ b'9')
unfolding digits digits_within
digits-cons n = first _ (b'0' + n % 10) (digits-AreDigits n)
  where
    first :
        (t : Text) (d : ℕ)
        → AreDigits (t ++ d ∷ [])
        → (c : ℕ) × (cs : Text) × (t ++ d ∷ [] ≡ c ∷ cs) × (b'0' ≤ c) × (c ≤ b'9')
    first [] d (lo, hi, h) = (d, [], refl, lo, hi)
    first (c ∷ cs) d (lo, hi, h) = (c, cs ++ d ∷ [], refl, lo, hi)

-- Digits are read as the number alone, without a sign.
pub set_string_digits :
    (c : ℕ) (cs : Text) (n : ℕ)
    → b'0' ≤ c
    → read_digits 0 (c ∷ cs) ≡ some n
    → set_string (c ∷ cs) ≡ some (pos n)
unfolding set_string read_number
set_string_digits c cs n lo h =
    let minus : nat_beq c b'-' ≡ false = ground arith in
    let plus : nat_beq c b'+' ≡ false = ground arith in rw (minus, plus, h) refl

pub read_number-digits : (n : ℕ) → read_number (digits n) ≡ some n
unfolding read_number
read_number-digits n =
    let (c, cs, e, lo, hi) = digits-cons n in rw (e) (rw (e) at (read_digits-digits n))

pub set_string-digits : (n : ℕ) → set_string (digits n) ≡ some (pos n)
set_string-digits n =
    let (c, cs, e, lo, hi) = digits-cons n in
    rw (e) (set_string_digits c cs n lo (rw (e) at (read_digits-digits n)))

set_string_minus :
    (n : ℕ) (ds : Text) → read_number ds ≡ some n → set_string (b'-' ∷ ds) ≡ some (neg (pos n))
unfolding set_string
set_string_minus n ds h = rw (h) refl

-- An integer is read back from its text.
pub set_string-big_string : (a : ℤ) → set_string (big_string a) ≡ some a
unfolding big_string
set_string-big_string (pos n) =
    let e : abs (pos n) ≡ n = omega arith in rw (e) (set_string-digits n)
set_string-big_string (negsuc k) =
    let e : abs (negsuc k) ≡ suc k = omega arith in
    let same : neg (pos (suc k)) ≡ negsuc k = ground arith in
    rw (e) (set_string_minus (suc k) (digits (suc k)) (read_number-digits (suc k)) ∙ ap some same)

-- A text of digits is read as the number alone.
pub set_string-AreDigits :
    (t : Text) (n : ℕ)
    → AreDigits t
    → 1 ≤ length t
    → read_digits 0 t ≡ some n
    → set_string t ≡ some (pos n)
set_string-AreDigits [] n h more r = absurd (omega arith)
set_string-AreDigits (c ∷ cs) n (lo, hi, h) more r = set_string_digits c cs n lo r
