-- ===== src/Hours/Dates.antt =====
-- The dates of a weekday and the wall times that daylight saving skips
-- (apps/control-center/src/hours/time.ts). A date is its number of days since 1970-01-01, from that day
-- on; instants are whole milliseconds.
use restaurant_engine.Prelude.{
  ℕ, zero, suc, ◌+◌, ◌*◌, ◌/◌, ◌%◌, Bool, true, false, Option, none, some, List, [], ◌∷◌, ◌++◌,
  length, ltb, leb, ◌==◌, not, ◌≡◌, find_first, if◌then◌else◌,
}
use restaurant_engine.Prelude.Int.{ℤ, pos, negsuc, ◌+ℤ◌}
use restaurant_engine.Prelude.Text.{Text}

-- `toISOString().slice(0, 10)` of a date, and the date that `split('-')`, `Number` and `Date.UTC` read.
pub record Calendar : Type 0 where
  pub iso : ℕ → Text
  pub day_of : Text → Option ℕ
  pub day_of-iso : (day : ℕ) → day_of (iso day) ≡ some day

-- `getUTCDay`: the first day was a Thursday.
abbrev pub utc_day : ℕ → ℕ
utc_day day = (day + 4) % 7

-- `(dayOfWeek + 1) % 7`
abbrev pub target_of : ℕ → ℕ
target_of day_of_week = (day_of_week + 1) % 7

abbrev pub push_if : Calendar → ℕ → ℕ → List Text → List Text
push_if calendar target cursor dates =
    if utc_day cursor == target then dates ++ (calendar.iso cursor ∷ []) else dates

-- The loop, with `none` where the fuel does not last.
unfoldable pub collect_dates : Calendar → ℕ → ℕ → ℕ → ℕ → List Text → Option (List Text)
collect_dates calendar target count zero cursor dates =
    if ltb (length dates) count then none else some dates
collect_dates calendar target count (suc fuel) cursor dates =
    let rest =
      collect_dates calendar target count fuel (suc cursor)
        (push_if calendar target cursor dates) in
    if ltb (length dates) count then rest else some dates

-- A week of fuel for each date.
unfoldable pub upcoming_dates_for_weekday : Calendar → ℕ → ℕ → ℕ → Option (List Text)
unfolding collect_dates
upcoming_dates_for_weekday calendar day_of_week count from =
    collect_dates calendar (target_of day_of_week) count (7 * count) from []

abbrev pub negate : ℤ → ℤ
negate (pos zero) = pos zero
negate (pos (suc n)) = negsuc n
negate (negsuc n) = pos (suc n)

abbrev pub same_instant : ℤ → ℤ → Bool
same_instant (pos m) (pos n) = m == n
same_instant (negsuc m) (negsuc n) = m == n
same_instant _ _ = false

-- `Date.UTC(year, month - 1, day + ⌊minute / 1440⌋, ⌊minute % 1440 / 60⌋, minute % 60)`
abbrev pub wall_utc : ℕ → ℕ → ℤ
wall_utc day minute =
    pos (((day + minute / 1440) * 1440 + (minute % 1440) / 60 * 60 + minute % 60) * 60000)

-- The offset of the time zone at an instant, in milliseconds: `tzOffsetMinutes(epoch) * 60_000`.
abbrev pub Zone : Type 0
Zone = ℤ → ℤ

unfoldable pub round_trip : Zone → ℤ → ℤ
unfolding ◌+ℤ◌
round_trip offset wall = let first = wall +ℤ negate (offset wall) in wall +ℤ negate (offset first)

abbrev pub exists_on : Zone → ℕ → Option ℕ → Bool
unfolding round_trip
exists_on offset minute none = true
exists_on offset minute (some day) =
    let wall = wall_utc day minute in
    let epoch = round_trip offset wall in same_instant (epoch +ℤ offset epoch) wall

unfoldable pub wall_time_exists : Calendar → Zone → Text → ℕ → Bool
unfolding exists_on
wall_time_exists calendar offset iso_date minute =
    exists_on offset minute (calendar.day_of iso_date)

abbrev pub gap_among : Calendar → Zone → ℕ → Option (List Text) → Option Text
unfolding wall_time_exists
gap_among calendar offset minute none = none
gap_among calendar offset minute (some dates) =
    find_first (λ iso_date. not (wall_time_exists calendar offset iso_date minute)) dates

unfoldable pub first_weekly_gap_date : Calendar → Zone → ℕ → ℕ → ℕ → Option Text
unfolding gap_among upcoming_dates_for_weekday
first_weekly_gap_date calendar offset day_of_week minute from =
    if leb (5 * 60) (minute % 1440)
    then none
    else gap_among calendar offset minute (upcoming_dates_for_weekday calendar day_of_week 53 from)
