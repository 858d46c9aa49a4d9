-- ===== src/Money/RoundTrip.antt =====
-- A stored amount shown in the price field is read back unchanged.
use restaurant_engine.Prelude.{
  ℕ, zero, suc, ◌+◌, ◌-◌, ◌≤◌, ◌<◌, false, none, some, [], ◌∷◌, ◌++◌, append-nil, String, ◌≡◌, refl,
  sym, ap, ◌⊎◌, ◌∙◌, inl, inr, arith, length, take, drop, replicate, leb, ltb, ◌==◌, leb→le, le→leb,
  All, All-append, All-left, All-right, Bool-cases, take-append-drop, length-append, length-take,
  length-drop, length-replicate,
}
use restaurant_engine.Prelude.Int.{ℤ, pos, negsuc, abs, is_nonneg}
use restaurant_engine.Prelude.Text.{Text}
use restaurant_engine.Prelude.Decimal.{
  IsDigit, value, decimal, value-decimal, decimal-IsDigit, length-decimal-pos, value-zeros,
  zeros-IsDigit,
}
use restaurant_engine.Js.{max_safe}
use restaurant_engine.Money.Defs.{
  ok, Intl, fraction_digits, is_empty, pad_start, place_digits, parse_major_to_minor,
  minor_to_major_input, minor_units_to_decimal_string,
}
use restaurant_engine.Money.Syntax.{dotted}
use restaurant_engine.Money.Amount.{exact, minor_value, value-combined}
use restaurant_engine.Money.Parsing.{parse_dotted, parse_whole}

-- The digits of an amount, padded so that at least one stands before the dot.
padded : ℕ → ℕ → Text
padded d n = pad_start (d + 1) (decimal n)

padded-IsDigit : (d n : ℕ) → All IsDigit (padded d n)
unfolding padded
padded-IsDigit d n =
    All-append IsDigit (replicate (d + 1 - length (decimal n)) b'0') (decimal n) (zeros-IsDigit _)
      (decimal-IsDigit n)

value-padded : (d n : ℕ) → value (padded d n) ≡ n
unfolding padded
value-padded d n = value-zeros (d + 1 - length (decimal n)) (decimal n) ∙ value-decimal n

length-padded : (d n : ℕ) → d < length (padded d n)
unfolding padded
length-padded d n =
    let zeros : Text = replicate (d + 1 - length (decimal n)) b'0' in
    omega (
      arith,
      length-append zeros (decimal n),
      length-replicate {A = ℕ} (d + 1 - length (decimal n)) b'0',
    )

nonempty : (s : Text) → 0 < length s → is_empty s ≡ false
nonempty [] h = absurd (omega arith)
nonempty (c ∷ s) h = refl

full : (d : ℕ) {m : ℕ} → m ≡ d → d - m ≡ 0
full d e = omega arith

exactly : (d : ℕ) {m : ℕ} → m ≡ d → ltb d m ≡ false
exactly d e = ground arith

module _ (d n : ℕ) where
  cut : ℕ
  cut = length (padded d n) - d

  before : Text
  before = take cut (padded d n)

  behind : Text
  behind = drop cut (padded d n)

  halves : before ++ behind ≡ padded d n
  unfolding before behind
  halves = take-append-drop cut (padded d n)

  halves-IsDigit : All IsDigit (before ++ behind)
  halves-IsDigit = rw halves (padded-IsDigit d n)

  length-behind : length behind ≡ d
  unfolding behind cut
  length-behind = omega (arith, length-drop cut (padded d n), length-padded d n)

  is_empty-before : is_empty before ≡ false
  unfolding before cut
  is_empty-before = nonempty _ (omega (arith, length-take cut (padded d n), length-padded d n))

  -- No zeros are added behind `d` digits.
  amount : minor_value d before behind ≡ n
  amount =
      sym (value-combined d before behind (omega (arith, length-behind)))
      ∙ ap value (ap (λ k. before ++ (behind ++ replicate k b'0')) (full d length-behind))
      ∙ ap (λ s. value (before ++ s)) (append-nil behind)
      ∙ ap value halves
      ∙ value-padded d n

  -- The printed amount is a decimal number with exactly `d` digits behind its dot.
  parse_place_dot :
      (intl : Intl) (currency : String)
      → fraction_digits intl currency ≡ d
      → parse_major_to_minor intl (dotted before behind) currency ≡ exact n
  parse_place_dot intl currency e =
      parse_dotted intl currency before behind (All-left IsDigit before behind halves-IsDigit)
        (All-right IsDigit before behind halves-IsDigit) (rw is_empty-before)
      ∙ rw e (rw (exactly d length-behind) (ap exact amount))

exact_of_safe : (n : ℕ) → n ≤ max_safe → exact n ≡ ok n
exact_of_safe n h = rw (le→leb _ _ h)

whole_amount : (n : ℕ) → minor_value 0 (decimal n) [] ≡ n
whole_amount n = omega (arith, value-decimal n)

not_zero : (d : ℕ) → (suc d == 0) ≡ false
not_zero d = ground arith

place_digits_zero : (n : ℕ) → place_digits 0 n ≡ decimal n
place_digits_zero n = unfold place_digits in refl

place_digits-suc : (d n : ℕ) → place_digits (suc d) n ≡ dotted (before (suc d) n) (behind (suc d) n)
unfolding place_digits before behind cut padded
place_digits-suc d n = rw (not_zero d)

-- For each number of fraction digits.
parse_place :
    (intl : Intl) (currency : String) (d n : ℕ)
    → fraction_digits intl currency ≡ d
    → parse_major_to_minor intl (place_digits d n) currency ≡ exact n
parse_place intl currency zero n e = rw (place_digits_zero n) (
    parse_whole intl currency (decimal n) (decimal-IsDigit n)
      (nonempty (decimal n) (length-decimal-pos n))
    ∙ rw e (ap exact (whole_amount n)))
parse_place intl currency (suc d) n e =
    rw (place_digits-suc d n) (parse_place_dot (suc d) n intl currency e)

-- An amount shown in the price field is read back unchanged, whatever the currency's fraction
-- digits: its absolute value, if that is a safe integer.
pub parse-minor_to_major_input :
    (intl : Intl) (minor : ℤ) (currency : String)
    → abs minor ≤ max_safe
    → parse_major_to_minor intl (minor_to_major_input intl minor currency) currency ≡ ok (abs minor)
unfolding minor_to_major_input
parse-minor_to_major_input intl minor currency h =
    parse_place intl currency (fraction_digits intl currency) (abs minor) refl
    ∙ exact_of_safe (abs minor) h

-- The renderer's decimal string of an amount is refused exactly for a negative or unsafe amount, and
-- otherwise the price field reads it as that same amount.
pub parse-minor_units_to_decimal_string :
    (intl : Intl) (minor : ℤ) (currency : String)
    → ((minor_units_to_decimal_string minor (fraction_digits intl currency) ≡ none)
        × ((is_nonneg minor ≡ false) ⊎ (max_safe < abs minor)))
      ⊎ ((n : ℕ) × (s : Text) × (minor ≡ pos n)
          × (minor_units_to_decimal_string minor (fraction_digits intl currency) ≡ some s)
          × (parse_major_to_minor intl s currency ≡ ok n))
unfolding minor_units_to_decimal_string
parse-minor_units_to_decimal_string intl (negsuc n) currency = inl (refl, inl refl)
parse-minor_units_to_decimal_string intl (pos n) currency = elim (Bool-cases (leb n max_safe)) [
  | inr unsafe ↦ rw unsafe (inl (refl, inr (ground arith)))
  | inl safe ↦
      let s = place_digits (fraction_digits intl currency) n in
      rw safe (
        inr (
          n,
          s,
          refl,
          refl,
          parse_place intl currency (fraction_digits intl currency) n refl
              ∙ exact_of_safe n (leb→le _ _ safe),
        ))
]
