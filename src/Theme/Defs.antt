-- ===== src/Theme/Defs.antt =====
-- The accent as text on a palette (packages/storefront-renderer/src/theme/accent-text.ts).
use restaurant_engine.Prelude.{
  ℕ, zero, suc, ◌+◌, ◌-◌, ◌/◌, ◌%◌, min, Bool, ◌&&◌, ◌||◌, Option, none, some, [], ◌∷◌, ◌++◌, ltb,
  if◌then◌else◌,
}
use restaurant_engine.Prelude.Int.{ℤ, pos_part}
use restaurant_engine.Prelude.Text.{Text, codes}
use restaurant_engine.Theme.Doubles.{Doubles, step_by}
use restaurant_engine.Theme.Accents.{Rgb, to_rgb, safe_accent, relative_luminance, contrast_ratio}

-- The tokens of a palette that the derivation reads.
pub record PaletteTokens : Type 0 where
  pub bg : Text
  pub surface : Text
  pub text : Text

pub record Hsl (D : Type 0) : Type 0 where
  pub hue : D
  pub saturation : D
  pub lightness : D

abbrev pub hex_digit : ℕ → ℕ
hex_digit n = if ltb n 10 then b'0' + n else b'a' + (n - 10)

-- `Math.max(0, Math.min(255, value)).toString(16).padStart(2, '0')`
abbrev pub hex_part : ℤ → Text
hex_part value = let n = min 255 (pos_part value) in hex_digit (n / 16) ∷ hex_digit (n % 16) ∷ []

unfoldable pub to_hex : ℤ → ℤ → ℤ → Text
to_hex r g b = b'#' ∷ hex_part r ++ hex_part g ++ hex_part b

-- One direction of the walk: a conforming candidate, the end of the lightness, or no fuel left.
pub data Walk : Type 0 where
  found : Text → Walk
  off_end : Walk
  stuck : Walk

abbrev pub black : Text
black = codes "#000000"

abbrev pub white : Text
white = codes "#ffffff"

module _ {D : Type 0} (d : Doubles D) where
  unfoldable pub hue_of : D → D → D → D → D → D
  hue_of rn gn bn greatest spread =
      if d.same greatest rn
      then d.remainder (d.plus (d.remainder (d.over (d.minus gn bn) spread) (d.nat 6)) (d.nat 6))
          (d.nat 6)
      else if d.same greatest gn
      then d.plus (d.over (d.minus bn rn) spread) (d.nat 2)
      else d.plus (d.over (d.minus rn gn) spread) (d.nat 4)

  unfoldable pub saturation_of : D → D → D → D
  saturation_of greatest least l =
      let spread = d.minus greatest least in
      if d.less_than (d.fraction 5 10) l
      then d.over spread (d.minus (d.minus (d.nat 2) greatest) least)
      else d.over spread (d.plus greatest least)

  abbrev pub unit_of : ℕ → D
  unit_of channel = d.over (d.nat channel) (d.nat 255)

  abbrev pub greatest_of : Rgb → D
  greatest_of rgb = d.greatest (d.greatest (unit_of rgb.red) (unit_of rgb.green)) (unit_of rgb.blue)

  abbrev pub least_of : Rgb → D
  least_of rgb = d.least (d.least (unit_of rgb.red) (unit_of rgb.green)) (unit_of rgb.blue)

  -- `(max + min) / 2`
  abbrev pub lightness_of : Rgb → D
  lightness_of rgb = d.over (d.plus (greatest_of rgb) (least_of rgb)) (d.nat 2)

  unfoldable pub rgb_to_hsl : Rgb → Hsl D
  unfolding hue_of saturation_of
  rgb_to_hsl rgb =
      if d.same (greatest_of rgb) (least_of rgb)
      then record { hue = d.nat 0; saturation = d.nat 0; lightness = lightness_of rgb }
      else record {
        hue =
            d.times
              (hue_of (unit_of rgb.red) (unit_of rgb.green) (unit_of rgb.blue) (greatest_of rgb)
                (d.minus (greatest_of rgb) (least_of rgb)))
              (d.nat 60);
        saturation = saturation_of (greatest_of rgb) (least_of rgb) (lightness_of rgb);
        lightness = lightness_of rgb;
      }

  -- `Math.round((part + m) * 255)`
  abbrev pub channel_of : D → D → ℤ
  channel_of m part = d.rounded (d.times (d.plus part m) (d.nat 255))

  abbrev pub hex_of : D → D → D → D → Text
  unfolding to_hex
  hex_of m rp gp bp = to_hex (channel_of m rp) (channel_of m gp) (channel_of m bp)

  unfoldable pub hsl_to_hex : D → D → D → Text
  unfolding hex_of
  hsl_to_hex h s l =
      let c =
        d.times (d.minus (d.nat 1) (d.magnitude (d.minus (d.times (d.nat 2) l) (d.nat 1)))) s in
      let hp =
        d.over (d.remainder (d.plus (d.remainder h (d.nat 360)) (d.nat 360)) (d.nat 360))
          (d.nat 60) in
      let x =
        d.times c
          (d.minus (d.nat 1) (d.magnitude (d.minus (d.remainder hp (d.nat 2)) (d.nat 1)))) in
      let m = d.minus l (d.over c (d.nat 2)) in
      let o = d.nat 0 in
      if d.less_than hp (d.nat 1)
      then hex_of m c x o
      else if d.less_than hp (d.nat 2)
      then hex_of m x c o
      else if d.less_than hp (d.nat 3)
      then hex_of m o c x
      else if d.less_than hp (d.nat 4)
      then hex_of m o x c
      else if d.less_than hp (d.nat 5)
      then hex_of m x o c
      else hex_of m c o x

  unfoldable pub conforms : PaletteTokens → D → Text → Bool
  unfolding relative_luminance contrast_ratio
  conforms palette floor candidate =
      let luminance = relative_luminance d candidate in
      d.at_most floor (contrast_ratio d luminance (relative_luminance d palette.bg))
      && d.at_most floor (contrast_ratio d luminance (relative_luminance d palette.surface))

  abbrev pub is_outside : D → Bool
  is_outside l = d.at_most l (d.nat 0) || d.at_most (d.nat 1) l

  -- The inner loop from a step on.
  unfoldable pub walk : PaletteTokens → D → Hsl D → D → ℕ → ℕ → Walk
  unfolding hsl_to_hex conforms
  walk palette floor hsl direction zero step = stuck
  walk palette floor hsl direction (suc fuel) step =
      let candidate_l = d.plus hsl.lightness (step_by d direction step) in
      let candidate = hsl_to_hex hsl.hue hsl.saturation candidate_l in
      let rest = walk palette floor hsl direction fuel (suc step) in
      if is_outside candidate_l
      then off_end
      else if conforms palette floor candidate
      then found candidate
      else rest

  -- The exact endpoint behind the steps.
  unfoldable pub or_endpoint : PaletteTokens → D → Text → Walk → Walk
  unfolding conforms
  or_endpoint palette floor endpoint (found candidate) = found candidate
  or_endpoint palette floor endpoint off_end =
      if conforms palette floor endpoint then found endpoint else off_end
  or_endpoint palette floor endpoint stuck = stuck

  -- 256 steps lead out of the lightness from every start.
  unfoldable pub darken : PaletteTokens → D → Hsl D → Walk
  unfolding walk or_endpoint
  darken palette floor hsl =
      or_endpoint palette floor black (walk palette floor hsl (d.negative (d.nat 1)) 256 1)

  unfoldable pub lighten : PaletteTokens → D → Hsl D → Walk
  unfolding walk or_endpoint
  lighten palette floor hsl =
      or_endpoint palette floor white (walk palette floor hsl (d.nat 1) 256 1)

  -- The loop over the directions; `none` is a walk without fuel.
  abbrev pub first_found : Text → Walk → Walk → Option Text
  first_found fallback (found candidate) second = some candidate
  first_found fallback stuck second = none
  first_found fallback off_end (found candidate) = some candidate
  first_found fallback off_end stuck = none
  first_found fallback off_end off_end = some fallback

  unfoldable pub darkens_first : PaletteTokens → Bool
  unfolding relative_luminance
  darkens_first palette =
      d.less_than (relative_luminance d palette.text) (relative_luminance d palette.bg)

  unfoldable pub walk_both : PaletteTokens → D → Hsl D → Option Text
  unfolding darken lighten darkens_first
  walk_both palette floor hsl =
      let down = darken palette floor hsl in
      let up = lighten palette floor hsl in
      if darkens_first palette
      then first_found palette.text down up
      else first_found palette.text up down

  unfoldable pub derive_accent_text : Text → PaletteTokens → D → Option Text
  unfolding walk_both rgb_to_hsl conforms safe_accent
  derive_accent_text accent palette floor =
      let safe = safe_accent accent in
      if conforms palette floor safe
      then some safe
      else walk_both palette floor (rgb_to_hsl (to_rgb safe))

  -- With the floor of WCAG AA.
  unfoldable pub accent_text : Text → PaletteTokens → Option Text
  unfolding derive_accent_text
  accent_text accent palette = derive_accent_text accent palette (d.fraction 45 10)
