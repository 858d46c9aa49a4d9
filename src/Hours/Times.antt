-- ===== src/Hours/Times.antt =====
-- Time inputs and labels.
use restaurant_engine.Prelude.{
  ℕ, zero, suc, ◌+◌, ◌-◌, ◌*◌, ◌/◌, ◌%◌, ◌≤◌, ◌<◌, true, false, some, [], ◌∷◌, ◌≡◌, refl, ap, ◌∙◌,
  inl, inr, arith, ltb, Bool-cases,
}
use restaurant_engine.Prelude.Int.{ℤ, pos, negsuc}
use restaurant_engine.Prelude.Text.{Text}
use restaurant_engine.Prelude.Decimal.{decimal, decimal_from, value, is_digit, IsDigit}
use restaurant_engine.Hours.Defs.{
  clamp, two_digits, minute_to_time_input, time_input_to_minute, time_of, minute_label,
  format_minute,
}

last_digit :
    (fuel m : ℕ) (out : Text) → 1 ≤ fuel → m < 10 → decimal_from fuel m out ≡ (b'0' + m) ∷ out
unfolding decimal_from
last_digit zero m out h k = absurd (omega arith)
last_digit (suc fuel) m out h k = ground arith

decimal_below_ten : (n : ℕ) → n < 10 → decimal n ≡ (b'0' + n) ∷ []
unfolding decimal
decimal_below_ten n h = last_digit (suc n) n [] (omega arith) h

decimal_below_hundred :
    (n : ℕ) → 10 ≤ n → n < 100 → decimal n ≡ (b'0' + n / 10) ∷ (b'0' + n % 10) ∷ []
unfolding decimal decimal_from
decimal_below_hundred n h k =
    let big : ltb n 10 ≡ false = ground arith in
    rw big (last_digit n (n / 10) ((b'0' + n % 10) ∷ []) (omega arith) (omega arith))

two_digits_below : (n : ℕ) → n < 100 → two_digits n ≡ (b'0' + n / 10) ∷ (b'0' + n % 10) ∷ []
unfolding two_digits
two_digits_below n h = elim (Bool-cases (ltb n 10)) [
  | inl small ↦
      let one : n < 10 = ground arith in
      let tens : n / 10 ≡ 0 = omega arith in
      let units : n % 10 ≡ n = omega arith in rw (decimal_below_ten n one) (rw (tens, units) refl)
  | inr big ↦ rw (decimal_below_hundred n (ground arith) h) refl
]

clamp_lt : (m : ℤ) → clamp m < 1440
unfolding clamp
clamp_lt (pos n) = omega arith
clamp_lt (negsuc n) = omega arith

digit_shown : (d : ℕ) → d < 10 → is_digit (b'0' + d) ≡ true
digit_shown d h = ground arith

pair_value : (n : ℕ) → n < 100 → value ((b'0' + n / 10) ∷ (b'0' + n % 10) ∷ []) ≡ n
pair_value n h = omega arith

read_pairs :
    (h m : ℕ)
    → h < 24
    → m < 60
    → time_input_to_minute
        ((b'0' + h / 10) ∷ (b'0' + h % 10) ∷ b':' ∷ (b'0' + m / 10) ∷ (b'0' + m % 10) ∷ [])
      ≡ some (h * 60 + m)
unfolding time_input_to_minute
read_pairs h m k l =
    let early : ltb 23 h ≡ false = ground arith in
    let short : ltb 59 m ≡ false = ground arith in
    let tens = digit_shown (h / 10) (omega arith) in
    let ones = digit_shown (h % 10) (omega arith) in
    let minute_tens = digit_shown (m / 10) (omega arith) in
    let minute_ones = digit_shown (m % 10) (omega arith) in
    rw (tens, ones, minute_tens, minute_ones)
      (rw (pair_value h (omega arith), pair_value m (omega arith)) (rw (early, short) refl))

-- The value put into a time input is read back as the minute of the day, whatever the sign and the
-- size of the stored minute.
pub time_input-minute :
    (minute : ℤ) → time_input_to_minute (minute_to_time_input minute) ≡ some (clamp minute)
unfolding minute_to_time_input
time_input-minute minute =
    let bound = clamp_lt minute in
    let hours : clamp minute / 60 < 24 = omega arith in
    let minutes : clamp minute % 60 < 60 = omega arith in
    rw
      (
        two_digits_below (clamp minute / 60) (omega arith),
        two_digits_below (clamp minute % 60) (omega arith),
      )
      (read_pairs (clamp minute / 60) (clamp minute % 60) hours minutes ∙ ap some (omega arith))

clamp_of_lt : (m : ℕ) → m < 1440 → clamp (pos m) ≡ m
unfolding clamp
clamp_of_lt m h = omega arith

-- A time of four digits, in range.
abbrev IsTime : ℕ → ℕ → ℕ → ℕ → ℕ → Type 0
IsTime a b c d m =
    IsDigit a
    × IsDigit b
    × IsDigit c
    × IsDigit d
    × ((a - b'0') * 10 + (b - b'0') ≤ 23)
    × ((c - b'0') * 10 + (d - b'0') ≤ 59)
    × (m ≡ ((a - b'0') * 10 + (b - b'0')) * 60 + ((c - b'0') * 10 + (d - b'0')))

time_in_range :
    (a b c d m : ℕ)
    → time_of (a ∷ b ∷ []) (c ∷ d ∷ []) ≡ some m
    → (value (a ∷ b ∷ []) ≤ 23)
      × (value (c ∷ d ∷ []) ≤ 59)
      × (value (a ∷ b ∷ []) * 60 + value (c ∷ d ∷ []) ≡ m)
time_in_range a b c d m h = ground arith

digits-IsTime :
    (a b colon c d m : ℕ)
    → time_input_to_minute (a ∷ b ∷ colon ∷ c ∷ d ∷ []) ≡ some m
    → (colon ≡ b':') × IsTime a b c d m
unfolding time_input_to_minute
digits-IsTime a b colon c d m h = ground (arith, time_in_range a b c d m)

time_parts :
    (a b c d m : ℕ)
    → IsTime a b c d m
    → (m < 1440)
      × (a ≡ b'0' + m / 60 / 10)
      × (b ≡ b'0' + m / 60 % 10)
      × (c ≡ b'0' + m % 60 / 10)
      × (d ≡ b'0' + m % 60 % 10)
time_parts a b c d m (da, db, dc, dd, hour, minute, e) =
    (omega arith, omega arith, omega arith, omega arith, omega arith)

shown :
    (m : ℕ)
    → m < 1440
    → minute_to_time_input (pos m)
      ≡ (b'0' + m / 60 / 10)
        ∷ (b'0' + m / 60 % 10)
        ∷ b':'
        ∷ (b'0' + m % 60 / 10)
        ∷ (b'0' + m % 60 % 10)
        ∷ []
unfolding minute_to_time_input
shown m h =
    rw (clamp_of_lt m h)
      (rw (two_digits_below (m / 60) (omega arith), two_digits_below (m % 60) (omega arith)) refl)

-- Every text that is accepted as a time is a minute of the day, and is what that minute shows.
pub minute_to_time_input-time :
    (s : Text) (m : ℕ)
    → time_input_to_minute s ≡ some m
    → (m < 1440) × (minute_to_time_input (pos m) ≡ s)
unfolding time_input_to_minute
minute_to_time_input-time (a ∷ b ∷ colon ∷ c ∷ d ∷ []) m h =
    let (is_colon, time) = digits-IsTime a b colon c d m h in
    let (bound, ea, eb, ec, ed) = time_parts a b c d m time in
    (bound, shown m bound ∙ cc (is_colon, ea, eb, ec, ed))
minute_to_time_input-time _ m h = absurd (ground arith)

-- The two applications name a wall time alike.
pub format_minute-minute_label : (n : ℕ) → format_minute n ≡ minute_label (pos n)
unfolding format_minute minute_label clamp
format_minute-minute_label n =
    let hour : n / 60 % 24 ≡ (n % 1440 + 1440) % 1440 / 60 = omega arith in
    let minute : n % 60 ≡ (n % 1440 + 1440) % 1440 % 60 = omega arith in rw (hour, minute) refl
