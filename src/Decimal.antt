-- ===== src/Decimal.antt =====
-- Decimal text, as `String` and `SetString` of math/big write and read it. A text that the program
-- looks into is the list of its bytes.
pub mod Digits
use go_sdk_test.Common.{
  ℕ, zero, suc, ◌+◌, ◌*◌, ◌-◌, ◌/◌, ◌%◌, Bool, true, false, ◌&&◌, not, Option, none, some, List, [],
  ◌∷◌, ◌++◌, ℤ, pos, neg, abs, is_neg, leb, ltb, nat_beq, if◌then◌else◌,
}
use mathlib.Core.Option

abbrev pub Text : Type 0
Text = List ℕ

abbrev pub is_digit : ℕ → Bool
is_digit c = leb b'0' c && leb c b'9'

-- The digits of a number, the most significant first; a number has fewer digits than its value + 1.
unfoldable pub digits_within : ℕ → ℕ → Text
digits_within zero n = []
digits_within (suc fuel) n =
    let higher = digits_within fuel (n / 10) in
    (if ltb n 10 then [] else higher) ++ (b'0' + n % 10) ∷ []

unfoldable pub digits : ℕ → Text
unfolding digits_within
digits n = digits_within (suc n) n

-- `String`
unfoldable pub big_string : ℤ → Text
big_string a = if is_neg a then b'-' ∷ digits (abs a) else digits (abs a)

-- The number that digits behind `acc` make; `none` on any other byte.
unfoldable pub read_digits : ℕ → Text → Option ℕ
read_digits acc [] = some acc
read_digits acc (c ∷ cs) =
    let rest = read_digits (acc * 10 + (c - b'0')) cs in if is_digit c then rest else none

-- A number without sign: at least one digit.
unfoldable pub read_number : Text → Option ℕ
read_number [] = none
read_number (c ∷ cs) = read_digits 0 (c ∷ cs)

-- `SetString(s, 10)`, with its sign.
unfoldable pub set_string : Text → Option ℤ
set_string [] = none
set_string (c ∷ cs) =
    if nat_beq c b'-'
    then Option.map (λ n. neg (pos n)) (read_number cs)
    else if nat_beq c b'+'
    then Option.map pos (read_number cs)
    else Option.map pos (read_number (c ∷ cs))
