-- ===== src/Money/Amount.antt =====
-- The amount that digits before and behind a dot stand for, and how it is computed.
use native.Mathlib.Nat.{pow-suc, pow-zero}
use restaurant_engine.Prelude.{
  ℕ, zero, suc, ◌+◌, ◌-◌, ◌*◌, ◌^◌, ◌≤◌, ◌<◌, Bool, true, false, ◌&&◌, [], ◌∷◌, ◌++◌, ◌≡◌, refl, ap,
  ◌∙◌, inl, inr, arith, length, replicate, leb, ltb, ◌==◌, leb→le, lt→ltb, Bool-cases,
  if◌then◌else◌,
}
use restaurant_engine.Prelude.Text.{Text}
use restaurant_engine.Prelude.Decimal.{value, value_from, value_from-append}
use restaurant_engine.Js.{max_safe, round_nat, round_nat_exact, lt-round_nat}
use restaurant_engine.Money.Defs.{
  MoneyParseResult, ok, error, too_precise, whole_only, unsafe, is_empty, pad_end, or_zero,
  to_minor, combine,
}

-- The exact amount, or the refusal of one that is no safe integer.
abbrev pub exact : ℕ → MoneyParseResult
exact n = if leb n max_safe then ok n else error unsafe

pub to_minor_lem : (s : Text) → to_minor s ≡ exact (value s)
unfolding to_minor
to_minor_lem s = elim (Bool-cases (leb (value s) max_safe)) [
  | inl safe ↦ rw (round_nat_exact (value s) (leb→le _ _ safe), safe)
  | inr big ↦
      let lost : leb (round_nat (value s)) max_safe ≡ false =
        ground (arith, lt-round_nat (value s)) in
      rw (lost, big)
]

-- The amount in minor units, at `d` fraction digits.
abbrev pub minor_value : ℕ → Text → Text → ℕ
minor_value d int_part frac_part =
    value int_part * 10 ^ d + value frac_part * 10 ^ (d - length frac_part)

pub value_from_lem : (n : ℕ) (s : Text) → value_from n s ≡ n * 10 ^ length s + value s
value_from_lem n [] = omega arith
value_from_lem n (c ∷ s) =
    let e = c - b'0' in
    value_from_lem (n * 10 + e) s
    ∙ rw (pow-suc 10 (length s)) (omega (arith, value_from_lem (0 + e) s))

pub value-zeros_end : (n k : ℕ) → value_from n (replicate k b'0') ≡ n * 10 ^ k
value-zeros_end n zero = omega arith
value-zeros_end n (suc k) = value-zeros_end (n * 10 + 0) k ∙ rw (pow-suc 10 k) (omega arith)

pub pow_split : (a b d : ℕ) → a + b ≡ d → 10 ^ a * 10 ^ b ≡ 10 ^ d
pow_split a zero d e =
    rw (pow-zero 10) (omega (arith, ap (λ k. 10 ^ k) (let e' : a ≡ d = omega arith in e')))
pow_split a (suc b) d e =
    let e' : suc (a + b) ≡ d = omega arith in
    rw (← e') (rw (pow-suc 10 b, pow-suc 10 (a + b)) (omega (arith, pow_split a b (a + b) refl)))

pub value-combined :
    (d : ℕ) (s t : Text) → length t ≤ d → value (s ++ pad_end d t) ≡ minor_value d s t
value-combined d s t h =
    value_from-append 0 s (pad_end d t)
    ∙ value_from-append (value s) t (replicate (d - length t) b'0')
    ∙ value-zeros_end (value_from (value s) t) (d - length t)
    ∙ ap (λ n. n * 10 ^ (d - length t)) (value_from_lem (value s) t)
    ∙ omega (arith, ap (λ p. value s * p) (pow_split (length t) (d - length t) d (omega arith)))

pub value-or_zero : (s t : Text) → value (or_zero s ++ t) ≡ value (s ++ t)
value-or_zero [] t = refl
value-or_zero (c ∷ s) t = refl

pub combine-exact :
    (d : ℕ) (s t : Text)
    → (is_empty s && is_empty t) ≡ false
    → length t ≤ d
    → combine d s t ≡ exact (minor_value d s t)
unfolding combine
combine-exact d s t h k =
    let short : ltb d (length t) ≡ false = ground arith in
    rw (h, short)
      (to_minor_lem (or_zero s ++ pad_end d t)
        ∙ ap exact (value-or_zero s (pad_end d t) ∙ value-combined d s t k))

pub not_both : (b : Bool) → (b && false) ≡ false
not_both true = refl
not_both false = refl

pub combine_too_long :
    (d : ℕ) (s t : Text)
    → d < length t
    → combine d s t ≡ error (if d == 0 then whole_only else too_precise)
unfolding combine
combine_too_long d s [] k = absurd (omega arith)
combine_too_long d s (c ∷ t) k =
    let long : ltb d (length (c ∷ t)) ≡ true = lt→ltb _ _ k in rw (not_both (is_empty s), long)
