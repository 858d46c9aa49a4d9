-- ===== src/Hours/DateTests.antt =====
-- Weekdays and daylight-saving gaps on concrete input, and the theorems at them.
use restaurant_engine.Prelude.{
  ◌+◌, ◌*◌, ◌%◌, ◌≤◌, ◌<◌, true, false, none, some, [], ◌∷◌, ◌≡◌, ◌⊎◌, refl, ap, ltb, if◌then◌else◌,
}
use restaurant_engine.Prelude.Int.{pos, negsuc, ◌+ℤ◌}
use restaurant_engine.Prelude.Text.{codes}
use restaurant_engine.Prelude.Decimal.{decimal, value, value-decimal}
use restaurant_engine.Hours.Dates.{
  Calendar, Zone, target_of, utc_day, wall_time_exists, round_trip, collect_dates,
  upcoming_dates_for_weekday, first_weekly_gap_date,
}
use restaurant_engine.Hours.Weekdays.{wait, weekly, upcoming_dates_for_weekday-weekly}
use restaurant_engine.Hours.Gaps.{IsGapOf, first_weekly_gap_date-IsGapOf}

-- A calendar that prints the number of the day.
abbrev day_numbers : Calendar
unfolding decimal
day_numbers = record {
  iso = decimal;
  day_of = λ s. some (value s);
  day_of-iso = λ day. ap some (value-decimal day);
}

-- New York around 2026-03-08, day 20520: 2:00 to 3:00 is skipped.
abbrev new_york : Zone
new_york (pos n) = if ltb n ((20520 * 1440 + 420) * 60000) then negsuc 17999999 else negsuc 14399999
new_york (negsuc n) = negsuc 17999999

skipped :
    (wall_time_exists day_numbers new_york (decimal 20520) 150 ≡ false)
    × (wall_time_exists day_numbers new_york (decimal 20520) 119 ≡ true)
    × (wall_time_exists day_numbers new_york (decimal 20520) 180 ≡ true)
    × (wall_time_exists day_numbers new_york (decimal 20513) 150 ≡ true)
unfolding wall_time_exists round_trip decimal ◌+ℤ◌
skipped = (refl, refl, refl, refl)

-- West Greenland around 2026-03-29, day 20541: at 1:00 UTC the clocks go forward from two hours
-- behind UTC to one, which skips 23:00 to 24:00 of the Saturday.
abbrev nuuk : Zone
nuuk (pos n) = if ltb n ((20541 * 1440 + 60) * 60000) then negsuc 7199999 else negsuc 3599999
nuuk (negsuc n) = negsuc 7199999

-- A gap in the evening gets no warning.
unwarned :
    (wall_time_exists day_numbers nuuk (decimal 20540) 1410 ≡ false)
    × (first_weekly_gap_date day_numbers nuuk 5 1410 20515 ≡ none)
unfolding wall_time_exists round_trip first_weekly_gap_date decimal ◌+ℤ◌
unwarned = (refl, refl)

two_sundays :
    upcoming_dates_for_weekday day_numbers 6 2 20515 ≡ some (codes "20520" ∷ codes "20527" ∷ [])
unfolding upcoming_dates_for_weekday collect_dates decimal
two_sundays = refl

upcoming_dates_for_weekday-weekly_example :
    (upcoming_dates_for_weekday day_numbers 6 2 20515
      ≡ some (weekly day_numbers (20515 + wait (target_of 6) 20515) 2))
    × (utc_day (20515 + wait (target_of 6) 20515) ≡ target_of 6)
    × (wait (target_of 6) 20515 < 7)
upcoming_dates_for_weekday-weekly_example = upcoming_dates_for_weekday-weekly day_numbers 6 2 20515

first_weekly_gap_date-IsGapOf_example :
    ((300 ≤ 150 % 1440) × (first_weekly_gap_date day_numbers new_york 6 150 20515 ≡ none))
    ⊎ ((150 % 1440 < 300)
        × IsGapOf day_numbers new_york 150
            (weekly day_numbers (20515 + wait (target_of 6) 20515) 53)
            (first_weekly_gap_date day_numbers new_york 6 150 20515)
            (20515 + wait (target_of 6) 20515)
            53)
first_weekly_gap_date-IsGapOf_example =
    first_weekly_gap_date-IsGapOf day_numbers new_york 6 150 20515
