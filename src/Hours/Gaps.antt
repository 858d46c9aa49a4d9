-- ===== src/Hours/Gaps.antt =====
-- The daylight-saving warning of a weekly boundary (`firstWeeklyGapDate`).
use restaurant_engine.Prelude.{
  ◌<◌, ℕ, zero, suc, ◌+◌, ◌%◌, true, false, not, Option, none, some, List, any, leb, find_first,
  ◌≡◌, ◌⊎◌, ◌≤◌, leb→le, arith, refl, subst, ap, ==_iff, Bool-cases, inl, inr,
}
use restaurant_engine.Prelude.Options.{clash}
use restaurant_engine.Prelude.Int.{ℤ, pos, negsuc, ◌+ℤ◌}
use restaurant_engine.Prelude.Text.{Text, text_eq, text_eq_refl}
use restaurant_engine.Hours.Dates.{
  Calendar, Zone, target_of, wall_utc, same_instant, round_trip, exists_on, wall_time_exists,
  first_weekly_gap_date,
}
use restaurant_engine.Hours.Weekdays.{wait, weekly, upcoming_dates_for_weekday-weekly}

-- Some instant shows a wall time in the zone.
abbrev pub IsShown : Zone → ℤ → Type 0
IsShown offset wall = (epoch : ℤ) × (epoch +ℤ offset epoch ≡ wall)

same_instant_sound : (a b : ℤ) → same_instant a b ≡ true → a ≡ b
same_instant_sound (pos m) (pos n) h = ap pos ((==_iff m n).0 h)
same_instant_sound (negsuc m) (negsuc n) h = ap negsuc ((==_iff m n).0 h)
same_instant_sound (pos m) (negsuc n) h = clash false refl h
same_instant_sound (negsuc m) (pos n) h = clash false refl h

IsShown-on :
    (calendar : Calendar) (offset : Zone) (day minute : ℕ)
    → wall_time_exists calendar offset (calendar.iso day) minute ≡ true
    → IsShown offset (wall_utc day minute)
unfolding wall_time_exists
IsShown-on calendar offset day minute h = (
  round_trip offset (wall_utc day minute),
  same_instant_sound _ _
      (subst (λ o. exists_on offset minute o ≡ true) (calendar.day_of-iso day) h),
)

-- Of the next weeks: a boundary that some instant shows on each date.
abbrev pub AreShown : Zone → ℕ → ℕ → ℕ → Type 0
AreShown offset minute day zero = Unit {0}
AreShown offset minute day (suc n) =
    IsShown offset (wall_utc day minute) × AreShown offset minute (day + 7) n

abbrev pub IsGapOf : Calendar → Zone → ℕ → List Text → Option Text → ℕ → ℕ → Type 0
IsGapOf calendar offset minute dates none day n = AreShown offset minute day n
IsGapOf calendar offset minute dates (some date) day n =
    (wall_time_exists calendar offset date minute ≡ false)
    × (any (λ d. text_eq date d) dates ≡ true)

-- A gap among later dates, behind a date without one.
later_gap :
    (calendar : Calendar) (offset : Zone) (minute day n : ℕ) (found : Option Text)
    → IsShown offset (wall_utc day minute)
    → IsGapOf calendar offset minute (weekly calendar (day + 7) n) found (day + 7) n
    → IsGapOf calendar offset minute (weekly calendar day (suc n)) found day (suc n)
later_gap calendar offset minute day n none shown h = (shown, h)
later_gap calendar offset minute day n (some date) shown (missing, among) =
    (missing, rw among (ground arith))

find_gap :
    (calendar : Calendar) (offset : Zone) (minute day n : ℕ)
    → IsGapOf calendar offset minute
        (weekly calendar day n)
        (find_first
          (λ iso_date. not (wall_time_exists calendar offset iso_date minute))
          (weekly calendar day n))
        day
        n
find_gap calendar offset minute day zero = tt
find_gap calendar offset minute day (suc n) =
    elim (Bool-cases (wall_time_exists calendar offset (calendar.iso day) minute)) [
      | inl shown ↦ rw shown (
          later_gap calendar offset minute day n _ (IsShown-on calendar offset day minute shown)
            (find_gap calendar offset minute (day + 7) n))
      | inr missing ↦ rw missing (missing, rw (text_eq_refl (calendar.iso day)) refl)
    ]

-- A boundary at 05:00 or later gets no warning, whether there is a gap at it or not. For a boundary
-- before 05:00, a warning names one of the next fifty-three dates on the weekday, on which the
-- boundary's wall time does not come back from its instant; and without a warning some instant shows
-- the boundary on each of those dates.
pub first_weekly_gap_date-IsGapOf :
    (calendar : Calendar) (offset : Zone) (day_of_week minute from : ℕ)
    → ((300 ≤ minute % 1440)
        × (first_weekly_gap_date calendar offset day_of_week minute from ≡ none))
      ⊎ ((minute % 1440 < 300)
          × IsGapOf calendar offset minute
              (weekly calendar (from + wait (target_of day_of_week) from) 53)
              (first_weekly_gap_date calendar offset day_of_week minute from)
              (from + wait (target_of day_of_week) from)
              53)
unfolding first_weekly_gap_date
first_weekly_gap_date-IsGapOf calendar offset day_of_week minute from =
    elim (Bool-cases (leb 300 (minute % 1440))) [
      | inl late ↦ inl (leb→le 300 (minute % 1440) late, rw late refl)
      | inr early ↦ inr (
        ground arith,
        rw (early, (upcoming_dates_for_weekday-weekly calendar day_of_week 53 from).0)
            (find_gap calendar offset minute (from + wait (target_of day_of_week) from) 53),
      )
    ]
