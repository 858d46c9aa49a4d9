-- ===== src/Money/Parsing.antt =====
-- What `parseMajorToMinor` accepts, and the amount that it returns.
use restaurant_engine.Prelude.{
  false, ◌&&◌, [], ◌∷◌, String, ◌≡◌, refl, ap, ◌∙◌, inl, inr, arith, length, ltb, ◌==◌, ltb→lt, All,
  Bool-cases, if◌then◌else◌,
}
use restaurant_engine.Prelude.Text.{Text}
use restaurant_engine.Prelude.Decimal.{IsDigit}
use restaurant_engine.Money.Defs.{
  error, too_precise, whole_only, Intl, fraction_digits, trim, is_empty, parse_trimmed,
  parse_major_to_minor,
}
use restaurant_engine.Money.Syntax.{
  IsPlain, normalize_digits_of_IsPlain, trim_of_IsPlain, digits-IsPlain, dotted, dotted-IsPlain,
  parse_trimmed-dotted, parse_trimmed_whole,
}
use restaurant_engine.Money.Amount.{exact, minor_value, combine-exact, combine_too_long}

parse_of_IsPlain :
    (intl : Intl) (s : Text) (currency : String)
    → All IsPlain s
    → parse_major_to_minor intl s currency ≡ parse_trimmed (fraction_digits intl currency) s
unfolding parse_major_to_minor
parse_of_IsPlain intl s currency h =
    ap (parse_trimmed (fraction_digits intl currency))
      (ap trim (normalize_digits_of_IsPlain s h) ∙ trim_of_IsPlain s h)

-- A typed decimal number, with digits on at least one side of the dot, is converted to exactly
-- integer part × 10^d + fraction part × 10^(d - its length), for a currency of d fraction digits; it
-- is refused as unsafe exactly when that amount is above 2^53 - 1, and as too precise or whole-only
-- exactly when there are more than d digits behind the dot.
pub parse_dotted :
    (intl : Intl) (currency : String) (int_part frac_part : Text)
    → All IsDigit int_part
    → All IsDigit frac_part
    → (is_empty int_part && is_empty frac_part) ≡ false
    → parse_major_to_minor intl (dotted int_part frac_part) currency ≡ (
        if ltb (fraction_digits intl currency) (length frac_part)
        then error (if fraction_digits intl currency == 0 then whole_only else too_precise)
        else exact (minor_value (fraction_digits intl currency) int_part frac_part))
parse_dotted intl currency s t h k e =
    let d = fraction_digits intl currency in
    parse_of_IsPlain intl (dotted s t) currency (dotted-IsPlain s t h k)
    ∙ parse_trimmed-dotted d s t h k
    ∙ elim (Bool-cases (ltb d (length t))) [
      | inl long ↦ rw long (combine_too_long d s t (ltb→lt _ _ long))
      | inr short ↦ rw short (combine-exact d s t e (ground arith))
    ]

-- So is a whole number, which is multiplied by 10^d.
pub parse_whole :
    (intl : Intl) (currency : String) (int_part : Text)
    → All IsDigit int_part
    → is_empty int_part ≡ false
    → parse_major_to_minor intl int_part currency
      ≡ exact (minor_value (fraction_digits intl currency) int_part [])
parse_whole intl currency [] h e = cc
parse_whole intl currency (c ∷ s) h e =
    let d = fraction_digits intl currency in
    parse_of_IsPlain intl (c ∷ s) currency (digits-IsPlain (c ∷ s) h)
    ∙ parse_trimmed_whole d c s h
    ∙ combine-exact d (c ∷ s) [] refl (omega arith)
