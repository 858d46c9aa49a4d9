-- ===== src/Theme/Derivation.antt =====
-- The derivation of the accent's text colour ends, and with a colour that can be read.
use restaurant_engine.Prelude.{
  ℕ, zero, suc, ◌+◌, ◌*◌, ◌≤◌, Bool, true, false, Option, none, some, [], ◌∷◌, ◌≡◌, ◌⊎◌, inl, inr,
  refl, sym, subst, Bool-cases, arith, &&-parts,
}
use restaurant_engine.Prelude.Options.{clash}
use restaurant_engine.Prelude.Text.{Text}
use restaurant_engine.Theme.Doubles.{Doubles, IsUnit, AreRounded, step_by}
use restaurant_engine.Theme.Accents.{Rgb, to_rgb, safe_accent, is_valid_accent, is_hex, hex_value}
use restaurant_engine.Theme.Defs.{
  PaletteTokens, Hsl, Walk, found, off_end, stuck, black, white, greatest_of, least_of,
  lightness_of, rgb_to_hsl, hsl_to_hex, conforms, is_outside, walk, or_endpoint, darken, lighten,
  first_found, darkens_first, walk_both, derive_accent_text,
}

-- The channels of a colour are bytes.
abbrev IsByteRgb : Rgb → Type 0
IsByteRgb rgb = (rgb.red ≤ 255) × (rgb.green ≤ 255) × (rgb.blue ≤ 255)

hex_value-le : (c : ℕ) → is_hex c ≡ true → hex_value c ≤ 15
hex_value-le c h = ground arith

byte-le : (a b : ℕ) → is_hex a ≡ true → is_hex b ≡ true → hex_value a * 16 + hex_value b ≤ 255
byte-le a b h k = omega (arith, hex_value-le a h, hex_value-le b k)

to_rgb-IsByteRgb : (s : Text) → is_valid_accent s ≡ true → IsByteRgb (to_rgb s)
unfolding is_valid_accent
to_rgb-IsByteRgb (hash ∷ a ∷ b ∷ c ∷ d ∷ e ∷ f ∷ []) h =
    let (ha, h1) = &&-parts _ _ (&&-parts _ _ (&&-parts _ _ h).0).1 in
    let (hb, h2) = &&-parts _ _ h1 in
    let (hc, h3) = &&-parts _ _ h2 in
    let (hd, h4) = &&-parts _ _ h3 in
    let (he, h5) = &&-parts _ _ h4 in
    let (hf, _) = &&-parts _ _ h5 in (byte-le a b ha hb, byte-le c d hc hd, byte-le e f he hf)
to_rgb-IsByteRgb _ h = (omega arith, omega arith, omega arith)

safe_accent-IsByteRgb : (accent : Text) → IsByteRgb (to_rgb (safe_accent accent))
unfolding safe_accent
safe_accent-IsByteRgb accent = elim (Bool-cases (is_valid_accent accent)) [
  | inl h ↦ rw h (to_rgb-IsByteRgb accent h)
  | inr h ↦ rw h (omega arith, omega arith, omega arith)
]

abbrev is_stuck : Walk → Bool
is_stuck stuck = true
is_stuck _ = false

module _ {D : Type 0} (d : Doubles D) where
  lightness_of-IsUnit : (rgb : Rgb) → AreRounded d → IsByteRgb rgb → IsUnit d (lightness_of d rgb)
  lightness_of-IsUnit rgb laws (r, g, b) =
      let red = laws.channel_unit rgb.red r in
      let green = laws.channel_unit rgb.green g in
      let blue = laws.channel_unit rgb.blue b in
      laws.middle_unit (greatest_of d rgb) (least_of d rgb)
        (laws.greatest_unit _ _ (laws.greatest_unit _ _ red green) blue)
        (laws.least_unit _ _ (laws.least_unit _ _ red green) blue)

  rgb_to_hsl-lightness : (rgb : Rgb) → Hsl.lightness (rgb_to_hsl d rgb) ≡ lightness_of d rgb
  unfolding rgb_to_hsl
  rgb_to_hsl-lightness rgb = elim (Bool-cases (d.same (greatest_of d rgb) (least_of d rgb))) [
    | inl h ↦ rw h refl
    | inr h ↦ rw h refl
  ]

  module _ (palette : PaletteTokens) (floor : D) where
    -- A walk leads out at the latest with its last step.
    walk_ends :
        (hsl : Hsl D) (direction : D)
        → is_outside d (d.plus hsl.lightness (step_by d direction 256)) ≡ true
        → (fuel step : ℕ) → fuel + step ≡ 256
        → is_stuck (walk d palette floor hsl direction (suc fuel) step) ≡ false
    unfolding walk
    walk_ends hsl direction out zero step e =
        let last : 256 ≡ step = omega arith in
        rw
          (subst (λ n. is_outside d (d.plus hsl.lightness (step_by d direction n)) ≡ true) last out)
          refl
    walk_ends hsl direction out (suc fuel) step e =
        elim (Bool-cases (is_outside d (d.plus hsl.lightness (step_by d direction step)))) [
          | inl h ↦ rw h refl
          | inr h ↦
              elim (Bool-cases (
                conforms d palette floor (
                  hsl_to_hex d hsl.hue hsl.saturation
                    (d.plus hsl.lightness (step_by d direction step))))) [
                      | inl k ↦ rw (h, k) refl
                      | inr k ↦
                          rw (h, k) (walk_ends hsl direction out fuel (suc step) (omega arith))
                    ]
        ]

    -- What a walk finds conforms.
    abbrev IsGood : Walk → Type 0
    IsGood (found candidate) = conforms d palette floor candidate ≡ true
    IsGood _ = Unit {0}

    walk-IsGood :
        (hsl : Hsl D) (direction : D) (fuel step : ℕ)
        → IsGood (walk d palette floor hsl direction fuel step)
    unfolding walk
    walk-IsGood hsl direction zero step = tt
    walk-IsGood hsl direction (suc fuel) step =
        elim (Bool-cases (is_outside d (d.plus hsl.lightness (step_by d direction step)))) [
          | inl h ↦ rw h tt
          | inr h ↦
              elim (Bool-cases (
                conforms d palette floor (
                  hsl_to_hex d hsl.hue hsl.saturation
                    (d.plus hsl.lightness (step_by d direction step))))) [
                      | inl k ↦ rw (h, k) k
                      | inr k ↦ rw (h, k) (walk-IsGood hsl direction fuel (suc step))
                    ]
        ]

    -- What a direction finds conforms, and one that finds nothing has no conforming endpoint.
    abbrev IsSettled : Text → Walk → Type 0
    IsSettled endpoint (found candidate) = conforms d palette floor candidate ≡ true
    IsSettled endpoint off_end = conforms d palette floor endpoint ≡ false
    IsSettled endpoint stuck = ⊥

    settle :
        (endpoint : Text) (w : Walk)
        → is_stuck w ≡ false
        → IsGood w
        → IsSettled endpoint (or_endpoint d palette floor endpoint w)
    unfolding or_endpoint
    settle endpoint (found candidate) h good = good
    settle endpoint stuck h good = clash true h refl
    settle endpoint off_end h good = elim (Bool-cases (conforms d palette floor endpoint)) [
      | inl k ↦ rw k k
      | inr k ↦ rw k k
    ]

    -- A colour that conforms, or the fallback where neither endpoint does.
    abbrev pub IsReadable : Text → Option Text → Type 0
    IsReadable fallback none = ⊥
    IsReadable fallback (some c) =
        (conforms d palette floor c ≡ true)
        ⊎ ((c ≡ fallback)
            × (conforms d palette floor black ≡ false)
            × (conforms d palette floor white ≡ false))

    either_direction :
        (fallback : Text) (down up : Walk)
        → IsSettled black down
        → IsSettled white up
        → IsReadable fallback (first_found d fallback down up)
          × IsReadable fallback (first_found d fallback up down)
    either_direction fallback (found c) (found e) h k = (inl h, inl k)
    either_direction fallback (found c) off_end h k = (inl h, inl h)
    either_direction fallback off_end (found e) h k = (inl k, inl k)
    either_direction fallback off_end off_end h k = (inr (refl, h, k), inr (refl, h, k))
    either_direction fallback stuck up h k = absurd h
    either_direction fallback (found c) stuck h k = absurd k
    either_direction fallback off_end stuck h k = absurd k

    out_up :
        (hsl : Hsl D)
        → AreRounded d
        → IsUnit d hsl.lightness
        → is_outside d (d.plus hsl.lightness (step_by d (d.nat 1) 256)) ≡ true
    out_up hsl laws unit = rw (laws.whole_up hsl.lightness unit) (ground arith)

    out_down :
        (hsl : Hsl D)
        → AreRounded d
        → IsUnit d hsl.lightness
        → is_outside d (d.plus hsl.lightness (step_by d (d.negative (d.nat 1)) 256)) ≡ true
    out_down hsl laws unit = rw (laws.whole_down hsl.lightness unit) refl

    walk_both-IsReadable :
        (hsl : Hsl D)
        → AreRounded d
        → IsUnit d hsl.lightness
        → IsReadable palette.text (walk_both d palette floor hsl)
    unfolding walk_both darken lighten
    walk_both-IsReadable hsl laws unit =
        let both =
          either_direction palette.text _ _
            (settle black _
              (walk_ends hsl (d.negative (d.nat 1)) (out_down hsl laws unit) 255 1 refl)
              (walk-IsGood hsl (d.negative (d.nat 1)) 256 1))
            (settle white _ (walk_ends hsl (d.nat 1) (out_up hsl laws unit) 255 1 refl)
              (walk-IsGood hsl (d.nat 1) 256 1)) in
        elim (Bool-cases (darkens_first d palette)) [ inl h ↦ rw h both.0 | inr h ↦ rw h both.1 ]

    -- With the laws of rounding, every accent gets a text colour: the accent or the default for an
    -- invalid one, or a walked colour, or an endpoint, that has the contrast with the background
    -- and the surface; only where neither black nor white has it is the colour the palette's own
    -- text. Both walks end within 256 steps.
    pub derive_accent_text-IsReadable :
        (accent : Text)
        → AreRounded d
        → IsReadable palette.text (derive_accent_text d accent palette floor)
    unfolding derive_accent_text
    derive_accent_text-IsReadable accent laws =
        elim (Bool-cases (conforms d palette floor (safe_accent accent))) [
          | inl h ↦ rw h (inl h)
          | inr h ↦ rw h (
              walk_both-IsReadable (rgb_to_hsl d (to_rgb (safe_accent accent))) laws (
                subst (IsUnit d) (sym (rgb_to_hsl-lightness (to_rgb (safe_accent accent)))) (
                  lightness_of-IsUnit (to_rgb (safe_accent accent)) laws
                    (safe_accent-IsByteRgb accent))))
        ]
