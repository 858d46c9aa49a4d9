-- ===== src/Money/Soundness.antt =====
-- Everything that `parseMajorToMinor` accepts is a decimal number, read exactly.
use restaurant_engine.Prelude.{
  ℕ, ◌≤◌, true, false, ◌&&◌, [], ◌∷◌, ◌++◌, String, ◌≡◌, refl, sym, ap, ◌∙◌, ◌⊎◌, inl, inr, arith,
  length, append-nil, ltb, ltb→lt, All, Bool-cases, if◌then◌else◌,
}
use restaurant_engine.Prelude.Text.{Text}
use restaurant_engine.Prelude.Decimal.{is_digit, IsDigit}
use restaurant_engine.Js.{max_safe}
use restaurant_engine.Money.Defs.{
  ok, Intl, fraction_digits, normalize_digits, trim, skip_digits, is_empty, is_fraction, is_syntax,
  combine, parse_trimmed, parse_major_to_minor,
}
use restaurant_engine.Money.Syntax.{dotted, parse_trimmed-dotted, parse_trimmed_whole}
use restaurant_engine.Money.Amount.{exact, minor_value, combine-exact, combine_too_long}

-- The digits at the front of a text.
take_digits : Text → Text
take_digits [] = []
take_digits (c ∷ s) = if is_digit c then c ∷ take_digits s else []

take_digits-IsDigit : (s : Text) → All IsDigit (take_digits s)
unfolding take_digits
take_digits-IsDigit [] = tt
take_digits-IsDigit (c ∷ s) = ground (arith, take_digits-IsDigit s)

take_digits-append-skip_digits : (s : Text) → s ≡ take_digits s ++ skip_digits s
unfolding take_digits skip_digits
take_digits-append-skip_digits [] = refl
take_digits-append-skip_digits (c ∷ s) = ground (arith, take_digits-append-skip_digits s)

IsDigit-of_skip_digits : (s : Text) → is_empty (skip_digits s) ≡ true → All IsDigit s
unfolding skip_digits
IsDigit-of_skip_digits [] h = tt
IsDigit-of_skip_digits (c ∷ s) h = ground (arith, IsDigit-of_skip_digits s)

fraction_cases :
    (r : Text) → is_fraction r ≡ true → (r ≡ []) ⊎ ((t : Text) × (r ≡ b'.' ∷ t) × All IsDigit t)
fraction_cases [] h = inl refl
fraction_cases (c ∷ t) h = inr (t, ground arith, IsDigit-of_skip_digits t (ground arith))

-- A text that passes the syntax test is a row of digits, or two with a dot between them.
syntax_cases :
    (v : Text)
    → is_syntax v ≡ true
    → (s : Text) × (t : Text) × All IsDigit s
      × All IsDigit t
      × ((v ≡ s) × (t ≡ []) ⊎ (v ≡ dotted s t))
unfolding is_syntax
syntax_cases v h =
    let s = take_digits v in
    let front = take_digits-append-skip_digits v in
    elim (fraction_cases (skip_digits v) h) [
      | inl whole ↦ (
        s,
        [],
        take_digits-IsDigit v,
        tt,
        inl (front ∙ ap (λ r. s ++ r) whole ∙ append-nil s, refl),
      )
      | inr (t, fraction, digits) ↦
          (s, t, take_digits-IsDigit v, digits, inr (front ∙ ap (λ r. s ++ r) fraction))
    ]

-- An accepted number.
pub record IsExact (d n : ℕ) (s t : Text) : Type 0 where
  pub precise : length t ≤ d
  pub amount : n ≡ minor_value d s t
  pub safe : n ≤ max_safe

exact_ok : (m n : ℕ) → exact m ≡ ok n → (n ≡ m) × (n ≤ max_safe)
exact_ok m n h = ground arith

combine_none :
    (d n : ℕ) (s t : Text)
    → (is_empty s && is_empty t) ≡ true
    → combine d s t ≡ ok n
    → IsExact d n s t
unfolding combine
combine_none d n s t e h = absurd (cc (rw e at h))

combine_ok : (d n : ℕ) (s t : Text) → combine d s t ≡ ok n → IsExact d n s t
combine_ok d n s t h = elim (Bool-cases (is_empty s && is_empty t)) [
  | inl none_at_all ↦ combine_none d n s t none_at_all h
  | inr some_digits ↦ elim (Bool-cases (ltb d (length t))) [
    | inl long ↦ absurd (cc (combine_too_long d s t (ltb→lt _ _ long)))
    | inr short ↦
        let fits : length t ≤ d = ground arith in
        let (amount, safe) =
          exact_ok (minor_value d s t) n (sym (combine-exact d s t some_digits fits) ∙ h) in
        record { precise = fits; amount = amount; safe = safe }
  ]
]

parse_trimmed_syntax :
    (d n : ℕ) (v : Text) → parse_trimmed d v ≡ ok n → (is_syntax v ≡ true) × (is_empty v ≡ false)
unfolding parse_trimmed
parse_trimmed_syntax d n v h = ground arith

of_shape :
    (d n : ℕ) (v s t : Text)
    → All IsDigit s
    → All IsDigit t
    → (v ≡ s) × (t ≡ []) ⊎ (v ≡ dotted s t)
    → is_empty v ≡ false
    → parse_trimmed d v ≡ ok n
    → combine d s t ≡ ok n
of_shape d n v s t ds dt (inr shape) e h =
    sym (parse_trimmed-dotted d s t ds dt) ∙ ap (parse_trimmed d) (sym shape) ∙ h
of_shape d n v [] t ds dt (inl (shape, none_behind)) e h = cc
of_shape d n v (c ∷ s) t ds dt (inl (shape, none_behind)) e h =
    ap (combine d (c ∷ s)) none_behind
    ∙ sym (parse_trimmed_whole d c s ds)
    ∙ ap (parse_trimmed d) (sym shape)
    ∙ h

parse_step :
    (intl : Intl) (raw : Text) (currency : String)
    → parse_trimmed (fraction_digits intl currency) (trim (normalize_digits raw))
      ≡ parse_major_to_minor intl raw currency
unfolding parse_major_to_minor
parse_step intl raw currency = refl

parse_trimmed_ok :
    (d n : ℕ) (v : Text)
    → parse_trimmed d v ≡ ok n
    → (s : Text) × (t : Text) × All IsDigit s
      × All IsDigit t
      × ((v ≡ s) × (t ≡ []) ⊎ (v ≡ dotted s t))
      × IsExact d n s t
parse_trimmed_ok d n v h =
    let (syntax, nonempty) = parse_trimmed_syntax d n v h in
    let (s, t, ds, dt, shape) = syntax_cases v syntax in
    (s, t, ds, dt, shape, combine_ok d n s t (of_shape d n v s t ds dt shape nonempty h))

-- Whatever text is accepted, it is, once its digits are normalised and its white space trimmed, a
-- row of digits or two with a dot between them, with no more digits behind the dot than the currency
-- has; the amount returned is exactly the number that these digits spell in minor units, and a safe
-- integer.
pub parse_major_to_minor-IsExact :
    (intl : Intl) (raw : Text) (currency : String) (n : ℕ)
    → parse_major_to_minor intl raw currency ≡ ok n
    → (s : Text) × (t : Text) × All IsDigit s
      × All IsDigit t
      × ((trim (normalize_digits raw) ≡ s) × (t ≡ []) ⊎ (trim (normalize_digits raw) ≡ dotted s t))
      × IsExact (fraction_digits intl currency) n s t
parse_major_to_minor-IsExact intl raw currency n h =
    parse_trimmed_ok (fraction_digits intl currency) n (trim (normalize_digits raw))
      (parse_step intl raw currency ∙ h)
