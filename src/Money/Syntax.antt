-- ===== src/Money/Syntax.antt =====
-- Decimal numbers under the normalisation, the trimming and the syntax test.
use restaurant_engine.Prelude.{
  ℕ, ◌≤◌, true, false, [], ◌∷◌, ◌++◌, ◌≡◌, refl, ap, ◌∙◌, arith, All, All-append,
}
use restaurant_engine.Prelude.Text.{Text, starts_with}
use restaurant_engine.Prelude.Splitting.{Lacks, split, split_of_Lacks, split-append}
use restaurant_engine.Prelude.Decimal.{IsDigit}
use restaurant_engine.Money.Defs.{
  normalize_digit, normalize_digits, is_space, trim_end, trim, skip_digits, is_empty, is_syntax,
  combine, parse_trimmed, cons_unless_end,
}

-- Digits and dots are not touched by the normalisation and the trimming.
abbrev pub IsPlain : ℕ → Type 0
IsPlain c = (b'.' ≤ c) × (c ≤ b'9')

pub is_space_of_IsPlain : (c : ℕ) → IsPlain c → is_space c ≡ false
unfolding is_space
is_space_of_IsPlain c h = ground arith

pub normalize_digit_of_IsPlain : (c : ℕ) → IsPlain c → normalize_digit c ≡ c
normalize_digit_of_IsPlain c h = ground arith

pub normalize_digits_of_IsPlain : (s : Text) → All IsPlain s → normalize_digits s ≡ s
unfolding normalize_digits
normalize_digits_of_IsPlain [] h = refl
normalize_digits_of_IsPlain (c ∷ s) (p, h) =
    cc (normalize_digit_of_IsPlain c p, normalize_digits_of_IsPlain s h)

pub trim_end_of_IsPlain : (s : Text) → All IsPlain s → trim_end s ≡ s
unfolding trim_end
trim_end_of_IsPlain [] h = refl
trim_end_of_IsPlain (c ∷ []) (p, h) = rw (is_space_of_IsPlain c p)
trim_end_of_IsPlain (c ∷ d ∷ s) (p, h) = ap (cons_unless_end c) (trim_end_of_IsPlain (d ∷ s) h)

pub trim_of_IsPlain : (s : Text) → All IsPlain s → trim s ≡ s
unfolding trim
trim_of_IsPlain [] h = refl
trim_of_IsPlain (c ∷ s) (p, h) = rw (is_space_of_IsPlain c p) (trim_end_of_IsPlain (c ∷ s) (p, h))

pub digits-IsPlain : (s : Text) → All IsDigit s → All IsPlain s
digits-IsPlain [] h = tt
digits-IsPlain (c ∷ s) (p, h) = (omega arith, digits-IsPlain s h)

pub digits-Lacks : (s : Text) → All IsDigit s → Lacks b'.' s
digits-Lacks [] h = tt
digits-Lacks (c ∷ s) (p, h) = (omega arith, digits-Lacks s h)

pub skip_digits-append : (s t : Text) → All IsDigit s → skip_digits (s ++ t) ≡ skip_digits t
unfolding skip_digits
skip_digits-append [] t h = refl
skip_digits-append (c ∷ s) t (p, h) = ground (arith, skip_digits-append s t h)

pub skip_digits_of_IsDigit : (s : Text) → All IsDigit s → skip_digits s ≡ []
unfolding skip_digits
skip_digits_of_IsDigit [] h = refl
skip_digits_of_IsDigit (c ∷ s) (p, h) = ground (arith, skip_digits_of_IsDigit s h)

-- A decimal number, with or without a dot.
abbrev pub dotted : Text → Text → Text
dotted int_part frac_part = int_part ++ (b'.' ∷ frac_part)

pub dotted-is_syntax : (s t : Text) → All IsDigit s → All IsDigit t → is_syntax (dotted s t) ≡ true
unfolding is_syntax
dotted-is_syntax s t h k = rw (skip_digits-append s (b'.' ∷ t) h) (rw (skip_digits_of_IsDigit t k))

pub whole-is_syntax : (s : Text) → All IsDigit s → is_syntax s ≡ true
unfolding is_syntax
whole-is_syntax s h = rw (skip_digits_of_IsDigit s h)

pub starts_with-minus : (s : Text) → All IsPlain s → starts_with s (b'-' ∷ []) ≡ false
unfolding starts_with
starts_with-minus [] h = refl
starts_with-minus (c ∷ s) (p, h) = ground arith

pub dotted-IsPlain : (s t : Text) → All IsDigit s → All IsDigit t → All IsPlain (dotted s t)
dotted-IsPlain s t h k =
    All-append IsPlain s (b'.' ∷ t) (digits-IsPlain s h) (omega arith, digits-IsPlain t k)

pub is_empty-dotted : (s t : Text) → is_empty (dotted s t) ≡ false
is_empty-dotted [] t = refl
is_empty-dotted (c ∷ s) t = refl

pub split-dotted :
    (s t : Text) → All IsDigit s → All IsDigit t → split b'.' (dotted s t) ≡ s ∷ t ∷ []
split-dotted s t h k =
    split-append b'.' s t (digits-Lacks s h)
    ∙ ap (λ l. s ∷ l) (split_of_Lacks b'.' t (digits-Lacks t k))

pub parse_trimmed-dotted :
    (d : ℕ) (s t : Text)
    → All IsDigit s
    → All IsDigit t
    → parse_trimmed d (dotted s t) ≡ combine d s t
unfolding parse_trimmed
parse_trimmed-dotted d s t h k = rw (
  is_empty-dotted s t,
  starts_with-minus (dotted s t) (dotted-IsPlain s t h k),
  dotted-is_syntax s t h k,
  split-dotted s t h k,
)

pub parse_trimmed_whole :
    (d c : ℕ) (s : Text) → All IsDigit (c ∷ s) → parse_trimmed d (c ∷ s) ≡ combine d (c ∷ s) []
unfolding parse_trimmed
parse_trimmed_whole d c s h = rw (
  starts_with-minus (c ∷ s) (digits-IsPlain (c ∷ s) h),
  whole-is_syntax (c ∷ s) h,
  split_of_Lacks b'.' (c ∷ s) (digits-Lacks (c ∷ s) h),
)
