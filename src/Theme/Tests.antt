-- ===== src/Theme/Tests.antt =====
-- Colours on concrete input, and the derivation at one.
use restaurant_engine.Prelude.{◌≡◌, refl, true, false}
use restaurant_engine.Prelude.Int.{pos}
use restaurant_engine.Prelude.Text.{codes}
use restaurant_engine.Theme.Accents.{is_valid_accent, safe_accent, to_rgb, default_accent}
use restaurant_engine.Theme.Doubles.{Doubles}
use restaurant_engine.Theme.FixedPoint.{fixed_point, fixed_point-AreRounded}
use restaurant_engine.Theme.Defs.{PaletteTokens, to_hex, derive_accent_text}
use restaurant_engine.Theme.Derivation.{IsReadable, derive_accent_text-IsReadable}

accents :
    (is_valid_accent (codes "#a34b2a") ≡ true)
    × (is_valid_accent (codes "#A34B2A") ≡ false)
    × (is_valid_accent (codes "a34b2a") ≡ false)
    × (safe_accent (codes "red") ≡ default_accent)
    × (to_rgb (codes "#a34b2a") ≡ record { red = 163; green = 75; blue = 42 })
    × (to_hex (pos 163) (pos 300) (pos 10) ≡ codes "#a3ff0a")
unfolding is_valid_accent safe_accent to_hex
accents = (refl, refl, refl, refl, refl, refl)

abbrev midnight : PaletteTokens
midnight = record { bg = codes "#14161b"; surface = codes "#1e2129"; text = codes "#eef0f4" }

derive_accent_text-IsReadable_example :
    IsReadable fixed_point midnight
      (Doubles.fraction fixed_point 45 10)
      (PaletteTokens.text midnight)
      (derive_accent_text fixed_point
        (codes "#241f1c")
        midnight
        (Doubles.fraction fixed_point 45 10))
derive_accent_text-IsReadable_example =
    derive_accent_text-IsReadable fixed_point midnight (Doubles.fraction fixed_point 45 10)
      (codes "#241f1c") fixed_point-AreRounded
