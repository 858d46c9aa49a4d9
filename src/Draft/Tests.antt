-- ===== src/Draft/Tests.antt =====
-- A loaded draft, an edit and an added section, and the theorems at them.
use restaurant_engine.Prelude.{true, none, some, List, [], ◌∷◌, ◌≡◌, refl}
use restaurant_engine.Prelude.Text.{codes}
use restaurant_engine.Js.{null, end, field}
use restaurant_engine.Draft.Defs.{
  hero, hero_props, ConfigSection, Theme, StorefrontConfig, composer_values_from_config,
  carried_theme_from_config, to_draft_put, section_summary, default_accent,
}
use restaurant_engine.Draft.Edits.{to_draft_put-composer_values}

abbrev theme : Theme
theme = record {
  accent = codes "#000000";
  palette = codes "cool";
  type_pairing = codes "serif";
  logo = some (codes "m1");
  extra = field "density" null end;
}

abbrev front : ConfigSection
front = record {
  id = codes "hero";
  section_type = hero;
  enabled = true;
  props = hero_props (codes "Hi") none none (codes "none");
}

abbrev loaded : StorefrontConfig
loaded = record { theme = some theme; sections = some (front ∷ []) }

drafts :
    ((composer_values_from_config none).accent ≡ default_accent)
    × ((to_draft_put (composer_values_from_config none) none).expected_lock_version ≡ none)
    × (section_summary front ≡ some (codes "Hi"))
unfolding composer_values_from_config carried_theme_from_config to_draft_put section_summary
drafts = (refl, refl, refl)

abbrev edited : List ConfigSection
edited = []

to_draft_put-composer_values_example :
    (to_draft_put (composer_values_from_config (some loaded)) (some 4)
      ≡ record { config = loaded; expected_lock_version = some 4 })
    × (to_draft_put
          (record (composer_values_from_config (some loaded)) {
            accent = codes "#ffffff";
            palette = codes "warm";
            type_pairing = codes "serif";
            logo = none;
            sections = edited;
          })
          (some 4)
        ≡ record {
          config = record {
            theme = some (record theme {
              accent = codes "#ffffff";
              palette = codes "warm";
              type_pairing = codes "serif";
              logo = none;
            });
            sections = some edited;
          };
          expected_lock_version = some 4;
        })
to_draft_put-composer_values_example =
    to_draft_put-composer_values theme (front ∷ []) edited (codes "#ffffff") (codes "warm")
      (codes "serif") none (some 4)
