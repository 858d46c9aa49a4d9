-- ===== src/Money/Defs.antt =====
-- The conversions between typed major units and integer minor units. The number of fraction digits
-- of a currency comes from `Intl`, a parameter.
use restaurant_engine.Prelude.{
  ℕ, ◌+◌, ◌-◌, Bool, true, false, ◌&&◌, ◌||◌, not, Option, none, some, List, [], ◌∷◌, ◌++◌, map,
  String, length, take, drop, replicate, leb, ltb, ◌==◌, if◌then◌else◌,
}
use restaurant_engine.Prelude.Int.{ℤ, pos, negsuc, abs}
use restaurant_engine.Prelude.Text.{Text, starts_with}
use restaurant_engine.Prelude.Splitting.{split}
use restaurant_engine.Prelude.Decimal.{is_digit, value, decimal}
use restaurant_engine.Js.{max_safe, round_nat}

pub data MoneyParseError : Type 0 where
  required malformed negative too_precise whole_only unsafe : MoneyParseError

pub data MoneyParseResult : Type 0 where
  ok : ℕ → MoneyParseResult
  error : MoneyParseError → MoneyParseResult

-- `new Intl.NumberFormat(undefined, { style: 'currency', currency }).resolvedOptions()`'s
-- `maximumFractionDigits`: `none` where it throws, `some none` where the option is undefined.
abbrev pub Intl : Type 0
Intl = String → Option (Option ℕ)

unfoldable pub fraction_digits : Intl → String → ℕ
fraction_digits intl currency = elim (intl currency) [
  | some resolved ↦ elim resolved [ some digits ↦ digits | none ↦ 2 ]
  | none ↦ 2
]

abbrev pub bengali_zero : ℕ
bengali_zero = 0x09e6

abbrev pub normalize_digit : ℕ → ℕ
normalize_digit c =
    if leb bengali_zero c && leb c (bengali_zero + 9) then b'0' + (c - bengali_zero) else c

-- A character outside the basic plane is two code units, and both stay.
unfoldable pub normalize_digits : Text → Text
normalize_digits value = map normalize_digit value

-- What `trim` takes off: white space and line ends.
unfoldable pub is_space : ℕ → Bool
is_space c =
    (leb 9 c && leb c 13)
    || (c == 32)
    || (c == 160)
    || (c == 0x1680)
    || (leb 0x2000 c && leb c 0x200a)
    || (c == 0x2028)
    || (c == 0x2029)
    || (c == 0x202f)
    || (c == 0x205f)
    || (c == 0x3000)
    || (c == 0xfeff)

unfoldable pub trim_start : Text → Text
trim_start [] = []
trim_start (c ∷ s) = if is_space c then trim_start s else c ∷ s

abbrev pub cons_unless_end : ℕ → Text → Text
cons_unless_end c [] = if is_space c then [] else c ∷ []
cons_unless_end c (d ∷ s) = c ∷ d ∷ s

unfoldable pub trim_end : Text → Text
trim_end [] = []
trim_end (c ∷ s) = cons_unless_end c (trim_end s)

-- `trim`
unfoldable pub trim : Text → Text
unfolding trim_start trim_end is_space
trim s = trim_end (trim_start s)

-- What stands behind `[0-9]*`, which takes all digits there are.
unfoldable pub skip_digits : Text → Text
skip_digits [] = []
skip_digits (c ∷ s) = if is_digit c then skip_digits s else c ∷ s

abbrev pub is_empty : Text → Bool
is_empty [] = true
is_empty (c ∷ s) = false

-- Behind the integer digits: `\.?[0-9]*$`
abbrev pub is_fraction : Text → Bool
is_fraction [] = true
is_fraction (c ∷ s) = c == b'.' && is_empty (skip_digits s)

-- /^[0-9]*\.?[0-9]*$/
unfoldable pub is_syntax : Text → Bool
unfolding skip_digits
is_syntax s = is_fraction (skip_digits s)

-- `const [intPart = '', fracPart = ''] = parts`
abbrev pub first_part : List Text → Text
first_part [] = []
first_part (s ∷ ss) = s

abbrev pub second_part : List Text → Text
second_part (s ∷ t ∷ ss) = t
second_part _ = []

-- `s.padEnd(n, '0')` and `s.padStart(n, '0')`
abbrev pub pad_end : ℕ → Text → Text
pad_end n s = s ++ replicate (n - length s) b'0'

abbrev pub pad_start : ℕ → Text → Text
pad_start n s = replicate (n - length s) b'0' ++ s

abbrev pub or_zero : Text → Text
or_zero s = if is_empty s then b'0' ∷ [] else s

-- `Number` of decimal digits, with the test for a safe integer.
unfoldable pub to_minor : Text → MoneyParseResult
to_minor minor_digits =
    let minor = round_nat (value minor_digits) in
    if not (leb minor max_safe) then error unsafe else ok minor

unfoldable pub combine : ℕ → Text → Text → MoneyParseResult
combine digits int_part frac_part =
    if is_empty int_part && is_empty frac_part
    then error malformed
    else if ltb digits (length frac_part)
    then error (if digits == 0 then whole_only else too_precise)
    else to_minor (or_zero int_part ++ pad_end digits frac_part)

-- `parseMajorToMinor` behind the trimming
unfoldable pub parse_trimmed : ℕ → Text → MoneyParseResult
parse_trimmed digits value =
    if is_empty value
    then error required
    else if starts_with value (b'-' ∷ [])
    then error negative
    else if not (is_syntax value)
    then error malformed
    else combine digits (first_part (split b'.' value)) (second_part (split b'.' value))

unfoldable pub parse_major_to_minor : Intl → Text → String → MoneyParseResult
unfolding fraction_digits normalize_digits trim parse_trimmed is_syntax starts_with split combine
    to_minor
parse_major_to_minor intl raw currency =
    parse_trimmed (fraction_digits intl currency) (trim (normalize_digits raw))

-- `padded.slice(0, -digits) + '.' + padded.slice(-digits)`, for digits > 0
abbrev pub place_dot : ℕ → Text → Text
place_dot digits padded =
    take (length padded - digits) padded ++ (b'.' ∷ drop (length padded - digits) padded)

unfoldable pub place_digits : ℕ → ℕ → Text
unfolding decimal
place_digits digits minor =
    if digits == 0 then decimal minor else place_dot digits (pad_start (digits + 1) (decimal minor))

-- `minorToMajorInput`, for an integer amount
unfoldable pub minor_to_major_input : Intl → ℤ → String → Text
unfolding fraction_digits place_digits
minor_to_major_input intl minor currency = place_digits (fraction_digits intl currency) (abs minor)

-- `minorUnitsToDecimalString` of the renderer, `none` where it throws
unfoldable pub minor_units_to_decimal_string : ℤ → ℕ → Option Text
unfolding place_digits
minor_units_to_decimal_string (pos minor) fraction_digits =
    if not (leb minor max_safe) then none else some (place_digits fraction_digits minor)
minor_units_to_decimal_string (negsuc minor) fraction_digits = none
