-- ===== src/Hours/Defs.antt =====
-- Wall times as minutes from local midnight. Minutes are integers; `%` keeps the sign of its left
-- operand, as in JavaScript.
use restaurant_engine.Prelude.{
  ℕ, suc, ◌+◌, ◌-◌, ◌*◌, ◌/◌, ◌%◌, ◌&&◌, ◌||◌, Option, none, some, [], ◌∷◌, ◌++◌, ltb, ◌==◌, length,
  replicate, if◌then◌else◌,
}
use restaurant_engine.Prelude.Int.{ℤ, pos, negsuc}
use restaurant_engine.Prelude.Text.{Text, codes}
use restaurant_engine.Prelude.Decimal.{is_digit, value, decimal}

abbrev pub minutes_per_day : ℕ
minutes_per_day = 1440

-- `((minute % MINUTES_PER_DAY) + MINUTES_PER_DAY) % MINUTES_PER_DAY`; the sum is positive.
unfoldable pub clamp : ℤ → ℕ
clamp (pos n) = (n % minutes_per_day + minutes_per_day) % minutes_per_day
clamp (negsuc n) = (minutes_per_day - suc n % minutes_per_day) % minutes_per_day

-- `String(n).padStart(2, '0')`
unfoldable pub two_digits : ℕ → Text
two_digits n = replicate (2 - length (decimal n)) b'0' ++ decimal n

unfoldable pub minute_to_time_input : ℤ → Text
unfolding clamp two_digits
minute_to_time_input minute =
    two_digits (clamp minute / 60) ++ (b':' ∷ two_digits (clamp minute % 60))

abbrev pub time_of : Text → Text → Option ℕ
time_of hours minutes =
    if ltb 23 (value hours) || ltb 59 (value minutes)
    then none
    else some (value hours * 60 + value minutes)

-- `/^(\d{2}):(\d{2})$/`
unfoldable pub time_input_to_minute : Text → Option ℕ
time_input_to_minute (a ∷ b ∷ colon ∷ c ∷ d ∷ []) =
    if is_digit a && is_digit b && colon == b':' && is_digit c && is_digit d
    then time_of (a ∷ b ∷ []) (c ∷ d ∷ [])
    else none
time_input_to_minute _ = none

-- "2:30 AM"
abbrev pub clock : ℕ → ℕ → Text
clock hours24 minutes =
    decimal (if hours24 % 12 == 0 then 12 else hours24 % 12)
    ++ (b':' ∷ (two_digits minutes ++ (b' ' ∷ (if ltb hours24 12 then codes "AM" else codes "PM"))))

unfoldable pub minute_label : ℤ → Text
unfolding clamp two_digits
minute_label minute = clock (clamp minute / 60) (clamp minute % 60)

-- The storefront renderer's; the contract's minutes are natural numbers.
unfoldable pub format_minute : ℕ → Text
unfolding two_digits
format_minute minute = clock (minute / 60 % 24) (minute % 60)
