-- ===== src/Units.antt =====
-- internal/functions/utils/decimals.go: token amounts as decimal text. A text is the list of its
-- bytes.
pub mod RoundTrip
mod Tests
use go_sdk_test.Common.{
  ℕ, zero, suc, ◌+◌, ◌-◌, Bool, true, false, not, ◌&&◌, ◌||◌, Option, none, some, List, [], ◌∷◌,
  ◌++◌, ℤ, pos, neg, abs, is_neg, length, take, drop, replicate, ltb, leb, nat_beq, if◌then◌else◌,
}
use mathlib.Core.Option
use go_sdk_test.Decimal.{Text, digits, set_string}

-- strings.TrimRight(s, "0"), the text behind the first byte being trimmed first.
abbrev pub cons_trimmed : ℕ → Text → Text
cons_trimmed c [] = if nat_beq c b'0' then [] else c ∷ []
cons_trimmed c (d ∷ ds) = c ∷ d ∷ ds

unfoldable pub trim_right_zeros : Text → Text
trim_right_zeros [] = []
trim_right_zeros (c ∷ cs) = cons_trimmed c (trim_right_zeros cs)

abbrev pub or_zero : Text → Text
or_zero [] = b'0' ∷ []
or_zero (c ∷ cs) = c ∷ cs

-- At least one digit more than the decimals.
unfoldable pub pad_zeros : ℕ → Text → Text
pad_zeros decimals ds =
    if leb (length ds) decimals then replicate (decimals + 1 - length ds) b'0' ++ ds else ds

-- The text without its sign; `none` as the value is nil, which counts as 0.
unfoldable pub format_magnitude : ℕ → ℕ → Text
format_magnitude magnitude decimals =
    let ds = digits magnitude in
    let padded = pad_zeros decimals ds in
    let cut = length padded - decimals in
    if nat_beq decimals 0
    then ds
    else take cut padded ++ b'.' ∷ or_zero (trim_right_zeros (drop cut padded))

unfoldable pub format_units : Option ℤ → ℕ → Text
format_units none decimals = format_magnitude 0 decimals
format_units (some value) decimals =
    let text = format_magnitude (abs value) decimals in if is_neg value then b'-' ∷ text else text

-- The blanks that strings.TrimSpace removes, as far as they are ASCII.
abbrev pub is_space : ℕ → Bool
is_space c = nat_beq c 32 || (leb 9 c && leb c 13)

unfoldable pub trim_left_space : Text → Text
trim_left_space [] = []
trim_left_space (c ∷ cs) = if is_space c then trim_left_space cs else c ∷ cs

abbrev pub cons_unspaced : ℕ → Text → Text
cons_unspaced c [] = if is_space c then [] else c ∷ []
cons_unspaced c (d ∷ ds) = c ∷ d ∷ ds

unfoldable pub trim_right_space : Text → Text
trim_right_space [] = []
trim_right_space (c ∷ cs) = cons_unspaced c (trim_right_space cs)

-- strings.SplitN(s, ".", 2): the text up to the first point, and the text behind it, if any.
unfoldable pub split_point : Text → Text × Option Text
split_point [] = ([], none)
split_point (c ∷ cs) =
    let (before, after) = split_point cs in
    if nat_beq c b'.' then ([], some cs) else (c ∷ before, after)

unfoldable pub has_point : Text → Bool
has_point [] = false
has_point (c ∷ cs) = nat_beq c b'.' || has_point cs

-- ParseUnits behind the sign. A second point, or more decimals than there may be, is an error.
unfoldable pub parse_magnitude : Text → ℕ → Option ℤ
parse_magnitude value decimals =
    let (int_part, rest) = split_point value in
    let frac : Text = elim rest [ none ↦ [] | some f ↦ f ] in
    if has_point frac || ltb decimals (length frac)
    then none
    else set_string (or_zero (int_part ++ frac ++ replicate (decimals - length frac) b'0'))

unfoldable pub parse_signed : Text → ℕ → Option ℤ
parse_signed [] decimals = parse_magnitude [] decimals
parse_signed (c ∷ cs) decimals =
    if nat_beq c b'-'
    then Option.map neg (parse_magnitude cs decimals)
    else parse_magnitude (c ∷ cs) decimals

unfoldable pub parse_units : Text → ℕ → Option ℤ
parse_units value decimals = parse_signed (trim_right_space (trim_left_space value)) decimals
