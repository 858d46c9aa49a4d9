-- ===== src/Theme/Accents.antt =====
-- An accent, its luminance, and the foreground over it
-- (packages/storefront-renderer/src/accent.ts).
use restaurant_engine.Prelude.{
  ℕ, ◌+◌, ◌-◌, ◌*◌, Bool, false, ◌&&◌, ◌||◌, [], ◌∷◌, leb, all, length, ◌==◌, if◌then◌else◌,
}
use restaurant_engine.Prelude.Text.{Text, codes}
use restaurant_engine.Theme.Doubles.{Doubles}

-- `[0-9a-f]`
abbrev pub is_hex : ℕ → Bool
is_hex c = leb b'0' c && leb c b'9' || leb b'a' c && leb c b'f'

-- `/^#[0-9a-f]{6}$/`
unfoldable pub is_valid_accent : Text → Bool
is_valid_accent [] = false
is_valid_accent (c ∷ s) = c == b'#' && all is_hex s && length s == 6

abbrev pub default_accent : Text
default_accent = codes "#a34b2a"

unfoldable pub safe_accent : Text → Text
unfolding is_valid_accent
safe_accent value = if is_valid_accent value then value else default_accent

abbrev pub hex_value : ℕ → ℕ
hex_value c = if leb c b'9' then c - b'0' else (c - b'a') + 10

pub record Rgb : Type 0 where
  pub red : ℕ
  pub green : ℕ
  pub blue : ℕ

-- `Number.parseInt(hex.slice(1, 3), 16)` and the others, of a valid accent
abbrev pub to_rgb : Text → Rgb
to_rgb (hash ∷ a ∷ b ∷ c ∷ d ∷ e ∷ f ∷ []) = record {
  red = hex_value a * 16 + hex_value b;
  green = hex_value c * 16 + hex_value d;
  blue = hex_value e * 16 + hex_value f;
}
to_rgb _ = record { red = 0; green = 0; blue = 0 }

module _ {D : Type 0} (d : Doubles D) where
  unfoldable pub channel : ℕ → D
  channel linear =
      let scaled = d.over (d.nat linear) (d.nat 255) in
      if d.at_most scaled (d.fraction 4045 100000)
      then d.over scaled (d.fraction 1292 100)
      else d.power (d.over (d.plus scaled (d.fraction 55 1000)) (d.fraction 1055 1000))
          (d.fraction 24 10)

  unfoldable pub relative_luminance : Text → D
  unfolding channel safe_accent
  relative_luminance accent =
      let rgb = to_rgb (safe_accent accent) in
      d.plus
        (d.plus (d.times (d.fraction 2126 10000) (channel rgb.red))
          (d.times (d.fraction 7152 10000) (channel rgb.green)))
        (d.times (d.fraction 722 10000) (channel rgb.blue))

  unfoldable pub contrast_ratio : D → D → D
  contrast_ratio l1 l2 =
      d.over (d.plus (d.greatest l1 l2) (d.fraction 5 100))
        (d.plus (d.least l1 l2) (d.fraction 5 100))

  unfoldable pub accent_foreground : Text → Text
  unfolding relative_luminance contrast_ratio
  accent_foreground accent =
      let luminance = relative_luminance accent in
      if d.at_most (contrast_ratio luminance (d.nat 1)) (contrast_ratio luminance (d.nat 0))
      then codes "#000000"
      else codes "#ffffff"
