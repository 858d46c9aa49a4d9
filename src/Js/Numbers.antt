-- ===== src/Js/Numbers.antt =====
-- JavaScript numbers, as far as the program looks at them. `int z` is a number with an integer
-- value (and 0 stands for -0 too), `other` a fraction, an infinity or NaN. Sums and products of
-- integers are rounded to the nearest double, ties to even; the overflow to an infinity at 2^1024
-- is left out.
use restaurant_engine.Prelude.{
  ℕ, zero, suc, ◌+◌, ◌-◌, ◌*◌, ◌/◌, ◌%◌, ◌^◌, Bool, false, leb, ltb, ◌==◌, if◌then◌else◌,
}
use restaurant_engine.Prelude.Int.{ℤ, pos, negsuc, abs, ◌+ℤ◌, ◌*ℤ◌}

pub data Number : Type 0 where
  int : ℤ → Number
  other : ℕ → Number

-- Number.MAX_SAFE_INTEGER
abbrev pub max_safe : ℕ
max_safe = 2 ^ 53 - 1

-- Number.isSafeInteger
abbrev pub is_safe_integer : Number → Bool
is_safe_integer (int z) = leb (abs z) max_safe
is_safe_integer (other n) = false

-- The distance between the doubles round n: the least power of two `u` with n < 2^53 * u, among
-- the `fuel` ones from `u` on. (The greatest finite double needs 971.)
unfoldable pub spacing : ℕ → ℕ → ℕ → ℕ
spacing zero u n = u
spacing (suc fuel) u n =
    let wider = spacing fuel (2 * u) n in if ltb n (2 ^ 53 * u) then u else wider

-- The multiple of `u` nearest to n; a tie goes to the even multiple.
unfoldable pub nearest : ℕ → ℕ → ℕ
nearest u n =
    let q = n / u in
    let r = n % u in
    if ltb (2 * r) u
    then q * u
    else if ltb u (2 * r)
    then (q + 1) * u
    else if q % 2 == 0
    then q * u
    else (q + 1) * u

unfoldable pub round_nat : ℕ → ℕ
unfolding spacing nearest
round_nat n = if leb n max_safe then n else nearest (spacing 971 1 n) n

-- The double nearest to an integer.
unfoldable pub round : ℤ → ℤ
unfolding round_nat
round (pos n) = pos (round_nat n)
round (negsuc n) = negsuc (round_nat (n + 1) - 1)

-- `a + b` and `a * n`
unfoldable pub js_add : ℤ → ℤ → ℤ
js_add a b = round (a +ℤ b)

unfoldable pub js_mul : ℤ → ℕ → ℤ
js_mul a n = round (a *ℤ n)
