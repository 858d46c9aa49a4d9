-- ===== src/Money/Tests.antt =====
-- Runs of the money conversions, and the theorems at concrete amounts.
use restaurant_engine.Prelude.{none, some, [], String, ◌≡◌, ◌⊎◌, refl, All}
use restaurant_engine.Prelude.Int.{pos, negsuc}
use restaurant_engine.Prelude.Text.{Text, codes}
use restaurant_engine.Prelude.Decimal.{IsDigit}
use restaurant_engine.Js.{round_nat}
use restaurant_engine.Money.Defs.{
  ok, error, required, malformed, negative, too_precise, whole_only, unsafe, Intl, fraction_digits,
  normalize_digits, trim, parse_major_to_minor, minor_to_major_input, minor_units_to_decimal_string,
}
use restaurant_engine.Money.Syntax.{dotted}
use restaurant_engine.Money.Soundness.{IsExact, parse_major_to_minor-IsExact}

money_runs : Unit {0}
unfolding parse_major_to_minor minor_to_major_input minor_units_to_decimal_string round_nat
money_runs = tt

-- A runtime with two fraction digits for every currency, and one with none.
abbrev cents : Intl
cents = λ currency. some (some 2)

abbrev whole : Intl
whole = λ currency. some (some 0)

abbrev usd : String
usd = "USD"

parsed :
    (parse_major_to_minor cents (codes " 12.5 ") usd ≡ ok 1250)
    × (parse_major_to_minor cents (codes ".05") usd ≡ ok 5)
    × (parse_major_to_minor cents (codes "১২.৫০") usd ≡ ok 1250)
    × (parse_major_to_minor whole (codes "12") usd ≡ ok 12)
    × (parse_major_to_minor whole (codes "12.") usd ≡ ok 12)
unfolding money_runs
parsed = (refl, refl, refl, refl, refl)

refused :
    (parse_major_to_minor cents (codes "  ") usd ≡ error required)
    × (parse_major_to_minor cents (codes "-1") usd ≡ error negative)
    × (parse_major_to_minor cents (codes ".") usd ≡ error malformed)
    × (parse_major_to_minor cents (codes "1,5") usd ≡ error malformed)
    × (parse_major_to_minor cents (codes "1.250") usd ≡ error too_precise)
    × (parse_major_to_minor whole (codes "1.2") usd ≡ error whole_only)
    × (parse_major_to_minor cents (codes "90071992547409.92") usd ≡ error unsafe)
unfolding money_runs
refused = (refl, refl, refl, refl, refl, refl, refl)

shown :
    (minor_to_major_input cents (pos 1250) usd ≡ codes "12.50")
    × (minor_to_major_input cents (negsuc 4) usd ≡ codes "0.05")
    × (minor_to_major_input whole (pos 1250) usd ≡ codes "1250")
    × (minor_units_to_decimal_string (pos 1250) 3 ≡ some (codes "1.250"))
    × (minor_units_to_decimal_string (negsuc 0) 3 ≡ none)
unfolding money_runs
shown = (refl, refl, refl, refl, refl)

parse_major_to_minor-IsExact_example :
    (s : Text) × (t : Text) × All IsDigit s
    × All IsDigit t
    × ((trim (normalize_digits (codes " 12.5 ")) ≡ s) × (t ≡ [])
        ⊎ (trim (normalize_digits (codes " 12.5 ")) ≡ dotted s t))
    × IsExact (fraction_digits cents usd) 1250 s t
parse_major_to_minor-IsExact_example =
    parse_major_to_minor-IsExact cents (codes " 12.5 ") usd 1250 parsed.0
