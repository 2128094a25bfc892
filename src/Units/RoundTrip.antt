-- ===== src/Units/RoundTrip.antt =====
-- ParseUnits reads back what FormatUnits wrote.
use go_sdk_test.Common.{
  ℕ, zero, suc, ◌+◌, ◌-◌, ◌≤◌, ◌<◌, ◌≡◌, refl, ap, ◌∙◌, false, none, some, [], ◌∷◌, ◌++◌, ℤ, pos,
  negsuc, neg, abs, length, take, drop, replicate, length-append, length-take, length-drop,
  length-replicate, take-append-drop, append_assoc, append-nil, arith, Bool-cases, inl, inr, ltb,
  leb, nat_beq,
}
use mathlib.Core.Option
use go_sdk_test.Decimal.{Text, digits, read_digits, set_string}
use go_sdk_test.Decimal.Digits.{
  AreDigits, AreDigits-append, digits-AreDigits, digits-cons, read_digits-digits, read_digits-zeros,
  set_string-AreDigits, set_string-digits,
}
use go_sdk_test.Units.{
  cons_trimmed, trim_right_zeros, pad_zeros, format_magnitude, format_units, is_space,
  trim_left_space, trim_right_space, split_point, has_point, or_zero, parse_magnitude, parse_signed,
  parse_units,
}

take-AreDigits : (n : ℕ) (t : Text) → AreDigits t → AreDigits (take n t)
take-AreDigits zero t h = tt
take-AreDigits (suc n) [] h = tt
take-AreDigits (suc n) (c ∷ cs) (lo, hi, h) = (lo, hi, take-AreDigits n cs h)

drop-AreDigits : (n : ℕ) (t : Text) → AreDigits t → AreDigits (drop n t)
drop-AreDigits zero t h = h
drop-AreDigits (suc n) [] h = tt
drop-AreDigits (suc n) (c ∷ cs) (lo, hi, h) = drop-AreDigits n cs h

zeros-AreDigits : (n : ℕ) → AreDigits (replicate n b'0')
zeros-AreDigits zero = tt
zeros-AreDigits (suc n) = (omega arith, omega arith, zeros-AreDigits n)

-- `r` is `t` less some zeros at its end.
abbrev IsTrimmed : Text → Text → Type 0
IsTrimmed t r =
    (length r ≤ length t)
    × (r ++ replicate (length t - length r) b'0' ≡ t)
    × (AreDigits t → AreDigits r)

cons-IsTrimmed : (c : ℕ) (t r : Text) → IsTrimmed t r → IsTrimmed (c ∷ t) (cons_trimmed c r)
cons-IsTrimmed c t (d ∷ r) (shorter, filled, kept) =
    let e : suc (length t) - suc (suc (length r)) ≡ length t - suc (length r) = omega arith in
    (omega arith, rw (e) (ap (λ u. c ∷ u) filled), λ (lo, hi, h). (lo, hi, kept h))
cons-IsTrimmed c t [] (shorter, filled, kept) = elim (Bool-cases (nat_beq c b'0')) [
  | inr other ↦
      let e : suc (length t) - 1 ≡ length t - 0 = omega arith in
      rw (other) (omega arith, rw (e) (ap (λ u. c ∷ u) filled), λ (lo, hi, h). (lo, hi, tt))
  | inl z ↦
      let same : b'0' ≡ c = ground arith in
      let e : suc (length t) - 0 ≡ suc (length t - 0) = omega arith in
      rw (z) (
        omega arith,
        rw (e) (ap (λ d. d ∷ replicate (length t - 0) b'0') same ∙ ap (λ u. c ∷ u) filled),
        λ h. tt,
      )
]

trim_right_zeros-IsTrimmed : (t : Text) → IsTrimmed t (trim_right_zeros t)
unfolding trim_right_zeros
trim_right_zeros-IsTrimmed [] = (omega arith, refl, λ h. tt)
trim_right_zeros-IsTrimmed (c ∷ cs) =
    cons-IsTrimmed c cs (trim_right_zeros cs) (trim_right_zeros-IsTrimmed cs)

-- A text of digits has no point, and no blank at an end.
digits-has_point : (t : Text) → AreDigits t → has_point t ≡ false
unfolding has_point
digits-has_point [] h = refl
digits-has_point (c ∷ cs) (lo, hi, h) = ground (arith, digits-has_point cs h)

split_digits : (t u : Text) → AreDigits t → split_point (t ++ b'.' ∷ u) ≡ (t, some u)
unfolding split_point
split_digits [] u h = refl
split_digits (c ∷ cs) u (lo, hi, h) =
    let no : nat_beq c b'.' ≡ false = ground arith in rw (no, split_digits cs u h) refl

split_digits_only : (t : Text) → AreDigits t → split_point t ≡ (t, none)
unfolding split_point
split_digits_only [] h = refl
split_digits_only (c ∷ cs) (lo, hi, h) =
    let no : nat_beq c b'.' ≡ false = ground arith in rw (no, split_digits_only cs h) refl

fill_or_zero :
    (t r : Text)
    → 1 ≤ length t
    → IsTrimmed t r
    → or_zero r ++ replicate (length t - length (or_zero r)) b'0' ≡ t
fill_or_zero t (c ∷ r) more (shorter, filled, kept) = filled
fill_or_zero t [] more (shorter, filled, kept) =
    let e : length t - 0 ≡ suc (length t - 1) = omega arith in rw (e) at filled

or_zero-AreDigits : (t : Text) → AreDigits t → AreDigits (or_zero t)
or_zero-AreDigits [] h = (omega arith, omega arith, tt)
or_zero-AreDigits (c ∷ cs) h = h

or_zero_of_cons : (t : Text) → 1 ≤ length t → or_zero t ≡ t
or_zero_of_cons [] h = absurd (omega arith)
or_zero_of_cons (c ∷ cs) h = refl

-- Texts without blanks are left alone by strings.TrimSpace.
abbrev AreUnspaced : Text → Type 0
AreUnspaced [] = Unit {0}
AreUnspaced (c ∷ cs) = (is_space c ≡ false) × AreUnspaced cs

digits-AreUnspaced : (t : Text) → AreDigits t → AreUnspaced t
digits-AreUnspaced [] h = tt
digits-AreUnspaced (c ∷ cs) (lo, hi, h) = (ground arith, digits-AreUnspaced cs h)

AreUnspaced-append : (t u : Text) → AreUnspaced t → AreUnspaced u → AreUnspaced (t ++ u)
AreUnspaced-append [] u ht hu = hu
AreUnspaced-append (c ∷ cs) u (clear, ht) hu = (clear, AreUnspaced-append cs u ht hu)

trim_left_space-AreUnspaced : (t : Text) → AreUnspaced t → trim_left_space t ≡ t
unfolding trim_left_space
trim_left_space-AreUnspaced [] h = refl
trim_left_space-AreUnspaced (c ∷ cs) (clear, h) = rw (clear) refl

trim_right_space-AreUnspaced : (t : Text) → AreUnspaced t → trim_right_space t ≡ t
unfolding trim_right_space
trim_right_space-AreUnspaced [] h = refl
trim_right_space-AreUnspaced (c ∷ []) (clear, h) = rw (clear) refl
trim_right_space-AreUnspaced (c ∷ d ∷ ds) (clear, h) =
    rw (trim_right_space-AreUnspaced (d ∷ ds) h) refl

parse_units-AreUnspaced : (t : Text) (d : ℕ) → AreUnspaced t → parse_units t d ≡ parse_signed t d
unfolding parse_units
parse_units-AreUnspaced t d h =
    rw (trim_left_space-AreUnspaced t h, trim_right_space-AreUnspaced t h) refl

-- The padded digits are zeros before the digits, with a digit before the decimals.
pad_zeros_lem :
    (d : ℕ) (ds : Text)
    → (k : ℕ) × (pad_zeros d ds ≡ replicate k b'0' ++ ds) × (d < length (pad_zeros d ds))
unfolding pad_zeros
pad_zeros_lem d ds = elim (Bool-cases (leb (length ds) d)) [
  | inl few ↦ rw (few) (
    d + 1 - length ds,
    refl,
    rw
        (
          length-append (replicate (d + 1 - length ds) b'0') ds,
          length-replicate {A = ℕ} (d + 1 - length ds) b'0',
        )
        (ground arith),
  )
  | inr many ↦ rw (many) (0, refl, ground arith)
]

padded-AreDigits : (d n : ℕ) → AreDigits (pad_zeros d (digits n))
padded-AreDigits d n =
    let (k, e, longer) = pad_zeros_lem d (digits n) in
    rw (e) (AreDigits-append (replicate k b'0') (digits n) (zeros-AreDigits k) (digits-AreDigits n))

padded-value : (d n : ℕ) → set_string (pad_zeros d (digits n)) ≡ some (pos n)
padded-value d n =
    let (k, e, longer) = pad_zeros_lem d (digits n) in
    let value : read_digits 0 (pad_zeros d (digits n)) ≡ some n =
      rw (e) (read_digits-zeros k (digits n) ∙ read_digits-digits n) in
    set_string-AreDigits (pad_zeros d (digits n)) n (padded-AreDigits d n) (omega arith) value

-- The text with a point is read as the digits on both sides of it, padded with zeros.
parse_split :
    (whole frac : Text) (d : ℕ)
    → AreDigits whole
    → AreDigits frac
    → length frac ≤ d
    → parse_magnitude (whole ++ b'.' ∷ frac) d
      ≡ set_string (or_zero (whole ++ frac ++ replicate (d - length frac) b'0'))
unfolding parse_magnitude
parse_split whole frac d hw hf h =
    let short : ltb d (length frac) ≡ false = ground arith in
    rw (split_digits whole frac hw, digits-has_point frac hf, short) refl

parse_whole :
    (t : Text) (d : ℕ)
    → AreDigits t
    → parse_magnitude t d ≡ set_string (or_zero (t ++ [] ++ replicate (d - 0) b'0'))
unfolding parse_magnitude has_point
parse_whole t d h =
    let short : ltb d 0 ≡ false = ground arith in rw (split_digits_only t h, short) refl

or_zero-IsTrimmed : (t r : Text) → 1 ≤ length t → IsTrimmed t r → length (or_zero r) ≤ length t
or_zero-IsTrimmed t [] more h = more
or_zero-IsTrimmed t (c ∷ r) more (shorter, filled, kept) = shorter

-- The two sides of the point make the padded digits again.
parse_padded :
    (p : Text) (d : ℕ)
    → AreDigits p
    → 1 ≤ d
    → d < length p
    → parse_magnitude
        (take (length p - d) p ++ b'.' ∷ or_zero (trim_right_zeros (drop (length p - d) p)))
        d
      ≡ set_string p
parse_padded p d h positive longer =
    let cut = length p - d in
    let right = drop cut p in
    let size : length right ≡ d = length-drop cut p ∙ omega arith in
    let trimmed = trim_right_zeros-IsTrimmed right in
    let more : 1 ≤ length right = omega arith in
    let short = or_zero-IsTrimmed right (trim_right_zeros right) more trimmed in
    let filled = fill_or_zero right (trim_right_zeros right) more trimmed in
    let frac_digits =
      or_zero-AreDigits (trim_right_zeros right) (trimmed.2 (drop-AreDigits cut p h)) in
    parse_split (take cut p) (or_zero (trim_right_zeros right)) d (take-AreDigits cut p h)
      frac_digits (omega arith)
    ∙ ap (λ u. set_string (or_zero u)) (append_assoc (take cut p) _ _)
    ∙ ap (λ u. set_string (or_zero (take cut p ++ u))) (rw (size) at filled)
    ∙ ap (λ u. set_string (or_zero u)) (take-append-drop cut p)
    ∙ ap set_string (or_zero_of_cons p (omega arith))

magnitude_round_trip : (n d : ℕ) → parse_magnitude (format_magnitude n d) d ≡ some (pos n)
unfolding format_magnitude
magnitude_round_trip n d = elim (Bool-cases (nat_beq d 0)) [
  | inl none_left ↦
      let z : d ≡ 0 = ground arith in
      let (c, cs, e, lo, hi) = digits-cons n in
      rw
        (
          none_left,
          parse_whole (digits n) d (digits-AreDigits n),
          z,
          append-nil (digits n),
          append-nil (digits n),
        )
        (rw (e) (rw (e) at (set_string-digits n)))
  | inr positive ↦
      let (k, e, longer) = pad_zeros_lem d (digits n) in
      rw (positive) (
        parse_padded (pad_zeros d (digits n)) d (padded-AreDigits d n) (ground arith) longer
        ∙ padded-value d n)
]

-- A text that begins with a digit and has no blank.
abbrev StartsWithDigit : Text → Type 0
StartsWithDigit t = (c : ℕ) × (cs : Text) × (t ≡ c ∷ cs) × (b'0' ≤ c) × AreUnspaced t

digits-StartsWithDigit : (t : Text) → AreDigits t → 1 ≤ length t → StartsWithDigit t
digits-StartsWithDigit [] h more = absurd (omega arith)
digits-StartsWithDigit (c ∷ cs) (lo, hi, h) more =
    (c, cs, refl, lo, digits-AreUnspaced (c ∷ cs) (lo, hi, h))

StartsWithDigit-append : (t u : Text) → StartsWithDigit t → AreUnspaced u → StartsWithDigit (t ++ u)
StartsWithDigit-append t u (c, cs, e, lo, clear) h =
    (c, cs ++ u, ap (λ w. w ++ u) e, lo, AreUnspaced-append t u clear h)

format_magnitude-StartsWithDigit : (n d : ℕ) → StartsWithDigit (format_magnitude n d)
unfolding format_magnitude
format_magnitude-StartsWithDigit n d = elim (Bool-cases (nat_beq d 0)) [
  | inl whole ↦
      let (c, cs, e, lo, hi) = digits-cons n in
      rw (whole) (c, cs, e, lo, digits-AreUnspaced (digits n) (digits-AreDigits n))
  | inr positive ↦
      let p = pad_zeros d (digits n) in
      let (k, e, longer) = pad_zeros_lem d (digits n) in
      let cut = length p - d in
      let size : length (take cut p) ≡ cut = length-take cut p ∙ ground arith in
      let frac = or_zero-AreDigits (trim_right_zeros (drop cut p)) (
        (trim_right_zeros-IsTrimmed (drop cut p)).2
          (drop-AreDigits cut p (padded-AreDigits d n))) in
      rw (positive) (
        StartsWithDigit-append (take cut p) _
          (digits-StartsWithDigit (take cut p) (take-AreDigits cut p (padded-AreDigits d n))
            (omega arith))
          (refl, digits-AreUnspaced _ frac))
]

-- Without a minus in front, a text is parsed as a magnitude.
parse_signed-StartsWithDigit :
    (t : Text) (d : ℕ) → StartsWithDigit t → parse_signed t d ≡ parse_magnitude t d
unfolding parse_signed
parse_signed-StartsWithDigit t d (c, cs, e, lo, clear) =
    let plain : nat_beq c b'-' ≡ false = ground arith in rw (e, plain) refl

parse_minus : (t : Text) (d : ℕ) → parse_signed (b'-' ∷ t) d ≡ Option.map neg (parse_magnitude t d)
unfolding parse_signed
parse_minus t d = refl

-- ParseUnits reads the text that FormatUnits writes of a value back as that value, for every value
-- and every number of decimals.
pub parse-format_units : (v : ℤ) (d : ℕ) → parse_units (format_units (some v) d) d ≡ some v
unfolding format_units
parse-format_units (pos n) d =
    let t = format_magnitude n d in
    let shape = format_magnitude-StartsWithDigit n d in
    let e : abs (pos n) ≡ n = omega arith in
    rw (e) (
      parse_units-AreUnspaced t d shape.4
      ∙ parse_signed-StartsWithDigit t d shape
      ∙ magnitude_round_trip n d)
parse-format_units (negsuc k) d =
    let t = format_magnitude (suc k) d in
    let shape = format_magnitude-StartsWithDigit (suc k) d in
    let same : neg (pos (suc k)) ≡ negsuc k = ground arith in
    let e : abs (negsuc k) ≡ suc k = omega arith in
    rw (e) (
      parse_units-AreUnspaced (b'-' ∷ t) d (refl, shape.4)
      ∙ parse_minus t d
      ∙ rw (magnitude_round_trip (suc k) d) (ap some same))
