-- ===== src/Prelude/Decimal.antt =====
-- Decimal digits: `String(n)` of a natural number below 10^21, and the number that digits spell.
use Prim.Native.Nat.{ℕ, zero, suc, ◌+◌, ◌-◌, ◌*◌, ◌/◌, ◌%◌, ◌≤◌, ◌<◌}
use mathlib.Core.Path.{◌≡◌, refl}
use mathlib.Core.Bool.{Bool, ◌&&◌}
use mathlib.Core.List.{[], ◌∷◌, ◌++◌}
use native.Mathlib.Omega.{arith}
use restaurant_engine.Prelude.Tests.{ltb, leb, if◌then◌else◌}
use restaurant_engine.Prelude.Lists.{All, replicate, length}
use restaurant_engine.Prelude.Text.{Text}

-- `[0-9]`
abbrev pub is_digit : ℕ → Bool
is_digit c = leb b'0' c && leb c b'9'

abbrev pub IsDigit : ℕ → Type 0
IsDigit c = (b'0' ≤ c) × (c ≤ b'9')

-- The number that digits spell behind `n`.
abbrev pub value_from : ℕ → Text → ℕ
value_from n [] = n
value_from n (c ∷ s) = value_from (n * 10 + (c - b'0')) s

abbrev pub value : Text → ℕ
value s = value_from 0 s

unfoldable pub decimal_from : ℕ → ℕ → Text → Text
decimal_from zero n out = out
decimal_from (suc fuel) n out =
    let rest = decimal_from fuel (n / 10) ((b'0' + n % 10) ∷ out) in
    if ltb n 10 then (b'0' + n) ∷ out else rest

-- Every round divides `n` by ten, so more rounds than `n` are enough.
unfoldable pub decimal : ℕ → Text
unfolding decimal_from
decimal n = decimal_from (suc n) n []

value-decimal_from :
    (fuel n : ℕ) (out : Text) → n < fuel → value (decimal_from fuel n out) ≡ value_from n out
unfolding decimal_from
value-decimal_from zero n out h = absurd (omega arith)
value-decimal_from (suc fuel) n out h =
    ground (arith, value-decimal_from fuel (n / 10) ((b'0' + n % 10) ∷ out))

pub value-decimal : (n : ℕ) → value (decimal n) ≡ n
unfolding decimal
value-decimal n = value-decimal_from (suc n) n [] (omega arith)

decimal_from-IsDigit :
    (fuel n : ℕ) (out : Text) → All IsDigit out → All IsDigit (decimal_from fuel n out)
unfolding decimal_from
decimal_from-IsDigit zero n out h = h
decimal_from-IsDigit (suc fuel) n out h =
    ground (arith, decimal_from-IsDigit fuel (n / 10) ((b'0' + n % 10) ∷ out))

pub decimal-IsDigit : (n : ℕ) → All IsDigit (decimal n)
unfolding decimal
decimal-IsDigit n = decimal_from-IsDigit (suc n) n [] tt

length-decimal_from-pos :
    (fuel n : ℕ) (out : Text) → n < fuel → 1 ≤ length (decimal_from fuel n out)
unfolding decimal_from
length-decimal_from-pos zero n out h = absurd (omega arith)
length-decimal_from-pos (suc fuel) n out h =
    ground (arith, length-decimal_from-pos fuel (n / 10) ((b'0' + n % 10) ∷ out))

pub length-decimal-pos : (n : ℕ) → 1 ≤ length (decimal n)
unfolding decimal
length-decimal-pos n = length-decimal_from-pos (suc n) n [] (omega arith)

pub value_from-append : (n : ℕ) (s t : Text) → value_from n (s ++ t) ≡ value_from (value_from n s) t
value_from-append n [] t = refl
value_from-append n (c ∷ s) t = value_from-append (n * 10 + (c - b'0')) s t

pub value-zeros : (k : ℕ) (s : Text) → value (replicate k b'0' ++ s) ≡ value s
value-zeros zero s = refl
value-zeros (suc k) s = value-zeros k s

pub zeros-IsDigit : (k : ℕ) → All IsDigit (replicate k b'0')
zeros-IsDigit zero = tt
zeros-IsDigit (suc k) = (omega arith, zeros-IsDigit k)

decimal_tests : decimal 10250 ≡ b'1' ∷ b'0' ∷ b'2' ∷ b'5' ∷ b'0' ∷ []
unfolding decimal
decimal_tests = refl
