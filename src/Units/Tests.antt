-- ===== src/Units/Tests.antt =====
-- Runs of FormatUnits and ParseUnits on concrete amounts.
use go_sdk_test.Common.{◌≡◌, refl, none, some, [], ◌∷◌, pos, negsuc}
use go_sdk_test.Decimal.{digits}
use go_sdk_test.Units.{
  format_units, format_magnitude, pad_zeros, trim_right_zeros, parse_units, parse_signed,
  trim_right_space, trim_left_space, parse_magnitude, has_point, split_point,
}
use go_sdk_test.Units.RoundTrip.{parse-format_units}

six_decimals : format_units (some (pos 1500000)) 6 ≡ b'1' ∷ b'.' ∷ b'5' ∷ []
unfolding format_units format_magnitude pad_zeros digits trim_right_zeros
six_decimals = refl

nil_value : format_units none 2 ≡ b'0' ∷ b'.' ∷ b'0' ∷ []
unfolding format_units format_magnitude pad_zeros digits trim_right_zeros
nil_value = refl

too_many_decimals : parse_units (b'1' ∷ b'.' ∷ b'2' ∷ b'5' ∷ []) 1 ≡ none
unfolding parse_units parse_signed trim_right_space trim_left_space parse_magnitude has_point
    split_point
too_many_decimals = refl

parse-format_units_example :
    parse_units (format_units (some (negsuc 1204)) 3) 3 ≡ some (negsuc 1204)
parse-format_units_example = parse-format_units (negsuc 1204) 3
