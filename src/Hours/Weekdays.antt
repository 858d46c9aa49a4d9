-- ===== src/Hours/Weekdays.antt =====
-- The next dates of a weekday: the loop ends, and with which dates.
use restaurant_engine.Prelude.{
  ℕ, zero, suc, ◌+◌, ◌-◌, ◌*◌, ◌%◌, ◌≤◌, ◌<◌, Option, some, List, [], ◌∷◌, ◌++◌, append_assoc,
  append-nil, length, length-append, ltb, ◌==◌, ◌≡◌, ◌≢◌, ==_iff, refl, sym, ap, ◌∙◌, arith,
  Bool-cases, inl, inr, if◌then◌else◌,
}
use restaurant_engine.Prelude.Options.{clash}
use restaurant_engine.Prelude.Text.{Text}
use restaurant_engine.Hours.Dates.{
  Calendar, utc_day, target_of, collect_dates, upcoming_dates_for_weekday,
}

-- The days from a date to the next one on the weekday.
abbrev pub wait : ℕ → ℕ → ℕ
wait target day = ((target + 7) - utc_day day) % 7

-- Every seventh date.
abbrev pub weekly : Calendar → ℕ → ℕ → List Text
weekly calendar day zero = []
weekly calendar day (suc n) = calendar.iso day ∷ weekly calendar (day + 7) n

wait_hit :
    (target day : ℕ)
    → target < 7
    → utc_day day ≡ target
    → (wait target day ≡ 0) × (wait target (suc day) ≡ 6)
wait_hit target day h e = (omega arith, omega arith)

wait_miss :
    (target day : ℕ)
    → target < 7
    → utc_day day ≢ target
    → suc (wait target (suc day)) ≡ wait target day
wait_miss target day h n = omega arith

-- The loop is over.
full :
    (dates : List Text) (count : ℕ) (a b : Option (List Text))
    → length dates + 0 ≡ count
    → (if ltb (length dates) count then a else b) ≡ b
full dates count a b e = ground arith

-- The loop goes on.
not_full :
    (dates : List Text) (k count : ℕ) (a b : Option (List Text))
    → length dates + suc k ≡ count
    → (if ltb (length dates) count then a else b) ≡ a
not_full dates k count a b e = ground arith

snoc_length :
    (dates : List Text) (k count : ℕ) (text : Text)
    → length dates + suc k ≡ count
    → length (dates ++ (text ∷ [])) + k ≡ count
snoc_length dates k count text e = rw (length-append dates (text ∷ [])) (omega arith)

module _ (calendar : Calendar) (target count : ℕ) (weekday : target < 7) where
  weekly_at :
      (dates : List Text) (d day later k : ℕ)
      → d ≡ day
      → d + 7 ≡ later
      → some (dates ++ weekly calendar d (suc k))
        ≡ some (dates ++ (calendar.iso day ∷ weekly calendar later k))
  weekly_at dates d day later k e f = rw (f, e) refl

  collect_dates_lem :
      (fuel day k : ℕ) (dates : List Text)
      → length dates + k ≡ count
      → wait target day + 7 * k ≤ fuel + 6
      → collect_dates calendar target count fuel day dates
        ≡ some (dates ++ weekly calendar (day + wait target day) k)
  unfolding collect_dates
  collect_dates_lem zero day zero dates e h =
      full dates count _ _ e ∙ ap some (sym (append-nil dates))
  collect_dates_lem (suc fuel) day zero dates e h =
      full dates count _ _ e ∙ ap some (sym (append-nil dates))
  collect_dates_lem zero day (suc k) dates e h = absurd (omega arith)
  collect_dates_lem (suc fuel) day (suc k) dates e h =
      not_full dates k count _ _ e ∙ elim (Bool-cases (utc_day day == target)) [
        | inl hit ↦
            let (now, later) = wait_hit target day weekday ((==_iff _ _).0 hit) in
            rw hit (
              collect_dates_lem fuel (suc day) k (dates ++ (calendar.iso day ∷ []))
                (snoc_length dates k count _ e) (omega arith)
              ∙ ap some (append_assoc dates (calendar.iso day ∷ []) _)
              ∙ sym (
                  weekly_at dates (day + wait target day) day (suc day + wait target (suc day)) k
                    (omega arith) (omega arith)))
        | inr miss ↦
            let next =
              wait_miss target day weekday
                (λ same. clash (utc_day day == target) miss ((==_iff _ _).1 same)) in
            rw miss (
              collect_dates_lem fuel (suc day) (suc k) dates e (omega arith)
              ∙ ap (λ d. some (dates ++ weekly calendar d (suc k))) (omega arith))
      ]

-- The loop ends within a week for each date, with the next `count` dates on the weekday: the first
-- at most six days ahead, and every seventh day from there.
pub upcoming_dates_for_weekday-weekly :
    (calendar : Calendar) (day_of_week count from : ℕ)
    → (upcoming_dates_for_weekday calendar day_of_week count from
        ≡ some (weekly calendar (from + wait (target_of day_of_week) from) count))
      × (utc_day (from + wait (target_of day_of_week) from) ≡ target_of day_of_week)
      × (wait (target_of day_of_week) from < 7)
unfolding upcoming_dates_for_weekday
upcoming_dates_for_weekday-weekly calendar day_of_week count from = (
  collect_dates_lem calendar (target_of day_of_week) count (omega arith) (7 * count) from count []
      (omega arith) (omega arith),
  omega arith,
  omega arith,
)
