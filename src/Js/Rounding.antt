-- ===== src/Js/Rounding.antt =====
-- Arithmetic on safe integers is exact.
use native.Mathlib.Nat.{le-div_iff_mul-le, mul-le-mul}
use restaurant_engine.Prelude.{
  ℕ, zero, suc, ◌+◌, ◌*◌, ◌/◌, ◌^◌, ◌≤◌, ◌<◌, ◌≡◌, false, refl, inl, inr, arith, ltb, leb, le→leb,
  Bool-cases,
}
use restaurant_engine.Prelude.Int.{ℤ, pos, negsuc, abs, ◌+ℤ◌, ◌*ℤ◌}
use restaurant_engine.Js.Numbers.{max_safe, spacing, nearest, round_nat, round, js_add, js_mul}

pub round_nat_exact : (n : ℕ) → n ≤ max_safe → round_nat n ≡ n
unfolding round_nat
round_nat_exact n h = rw (le→leb n max_safe h)

pub round_exact : (z : ℤ) → abs z ≤ max_safe → round z ≡ z
unfolding round
round_exact (pos n) h = ground (arith, round_nat_exact n)
round_exact (negsuc n) h = ground (arith, round_nat_exact (n + 1))

pub js_add_exact : (a b : ℤ) → abs (a +ℤ b) ≤ max_safe → js_add a b ≡ a +ℤ b
unfolding js_add
js_add_exact a b h = round_exact _ h

pub js_mul_exact : (a : ℤ) (n : ℕ) → abs (a *ℤ n) ≤ max_safe → js_mul a n ≡ a *ℤ n
unfolding js_mul
js_mul_exact a n h = round_exact _ h

-- 2^53 + 1 is no double, and 2^53 + 3 goes up.
round_tests :
    (round (pos 9007199254740993) ≡ pos 9007199254740992)
    × (round (pos 9007199254740995) ≡ pos 9007199254740996)
unfolding round
round_tests = (refl, refl)

le_of_ltb : (a b : ℕ) → ltb a b ≡ false → b ≤ a
le_of_ltb a b h = ground arith

spacing_bounds :
    (fuel u n : ℕ) → 2 ^ 52 * u ≤ n → (2 ^ 52 * spacing fuel u n ≤ n) × (u ≤ spacing fuel u n)
unfolding spacing
spacing_bounds zero u n h = (h, omega arith)
spacing_bounds (suc fuel) u n h = elim (Bool-cases (ltb n (2 ^ 53 * u))) [
  | inl near ↦ rw near (h, omega arith)
  | inr far ↦
      let rest = spacing_bounds fuel (2 * u) n (omega (arith, le_of_ltb n (2 ^ 53 * u) far)) in
      rw far (rest.0, omega arith)
]

mul_suc_le : (q u : ℕ) → q * u ≤ (q + 1) * u
mul_suc_le q u = grind arith

nearest-ge : (u n : ℕ) → (n / u) * u ≤ nearest u n
unfolding nearest
nearest-ge u n = ground (arith, mul_suc_le (n / u) u)

two_le-spacing : (fuel n : ℕ) → max_safe < n → 2 ≤ spacing (suc fuel) 1 n
unfolding spacing
two_le-spacing fuel n h =
    let far : ltb n (2 ^ 53 * 1) ≡ false = ground arith in
    rw far (spacing_bounds fuel (2 * 1) n (omega arith)).1

-- A number that is no safe integer is rounded to one that is none.
pub lt-round_nat : (n : ℕ) → max_safe < n → max_safe < round_nat n
unfolding round_nat
lt-round_nat n h =
    let unsafe : leb n max_safe ≡ false = ground arith in
    let u = spacing 971 1 n in
    let two = two_le-spacing 970 n h in
    let fits = (spacing_bounds 971 1 n (omega arith)).0 in
    let most : 2 ^ 52 ≤ n / u =
      (le-div_iff_mul-le {k = u} {x = 2 ^ 52} {y = n} (omega arith)).1 fits in
    rw unsafe (omega (arith, nearest-ge u n, mul-le-mul most two))
