-- ===== src/Hours/Tests.antt =====
-- Times on concrete input, and the theorems at them.
use restaurant_engine.Prelude.{none, some, ◌≡◌, refl}
use restaurant_engine.Prelude.Int.{pos, negsuc}
use restaurant_engine.Prelude.Text.{codes}
use restaurant_engine.Prelude.Decimal.{decimal, decimal_from}
use restaurant_engine.Hours.Defs.{
  clamp, two_digits, minute_to_time_input, time_input_to_minute, minute_label, format_minute,
}

times :
    (minute_to_time_input (pos 1590) ≡ codes "02:30")
    × (minute_to_time_input (negsuc 0) ≡ codes "23:59")
    × (time_input_to_minute (codes "24:00") ≡ none)
    × (time_input_to_minute (codes "9:00") ≡ none)
    × (minute_label (pos 0) ≡ codes "12:00 AM")
    × (format_minute 1590 ≡ codes "2:30 AM")
    × (format_minute 1439 ≡ codes "11:59 PM")
unfolding clamp two_digits minute_to_time_input time_input_to_minute minute_label format_minute
    decimal decimal_from
times = (refl, refl, refl, refl, refl, refl, refl)

accepted : time_input_to_minute (codes "17:05") ≡ some 1025
unfolding time_input_to_minute
accepted = refl
