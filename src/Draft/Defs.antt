-- ===== src/Draft/Defs.antt =====
-- The storefront draft as the composer edits it. Structured clones are the values themselves. An absent
-- logo is read as null. `extra` holds the theme fields that this form does not know.
use restaurant_engine.Prelude.{ℕ, Bool, true, Option, none, some, List, []}
use restaurant_engine.Prelude.Text.{Text, codes}
use restaurant_engine.Js.{Fields, end}

pub data SectionType : Type 0 where
  hero menu story contact gallery hours : SectionType

pub record SectionImageRef : Type 0 where
  pub media_id : Text
  pub alt_text : Option Text

-- The contents of a section, by its type.
pub data Props : Type 0 where
  hero_props : Text → Option Text → Option SectionImageRef → Text → Props
  menu_props : Text → Option Text → Props
  story_props : Text → Text → Props
  contact_props : Text → List Text → Option Text → Option Text → Props
  gallery_props : Option Text → List SectionImageRef → Props
  hours_props : Text → Option Text → Bool → Props

pub record ConfigSection : Type 0 where
  pub id : Text
  pub section_type : SectionType
  pub enabled : Bool
  pub props : Props

pub record Theme : Type 0 where
  pub accent : Text
  pub palette : Text
  pub type_pairing : Text
  pub logo : Option Text
  pub extra : Fields

pub record StorefrontConfig : Type 0 where
  pub theme : Option Theme
  pub sections : Option (List ConfigSection)

pub record DraftPut : Type 0 where
  pub config : StorefrontConfig
  pub expected_lock_version : Option ℕ

abbrev pub default_accent : Text
default_accent = codes "#a34b2a"

abbrev pub default_palette : Text
default_palette = codes "warm"

abbrev pub default_type_pairing : Text
default_type_pairing = codes "humanist"

pub record ComposerValues : Type 0 where
  pub accent : Text
  pub palette : Text
  pub type_pairing : Text
  pub logo : Option Text
  pub carried_theme : Theme
  pub sections : List ConfigSection

abbrev pub theme_of : Option StorefrontConfig → Option Theme
theme_of none = none
theme_of (some config) = config.theme

abbrev pub sections_of : Option StorefrontConfig → Option (List ConfigSection)
sections_of none = none
sections_of (some config) = config.sections

abbrev pub or_default {ℓ} : {A : Type ℓ} → A → Option A → A
or_default d none = d
or_default d (some a) = a

unfoldable pub carried_theme_from_config : Option StorefrontConfig → Theme
carried_theme_from_config config =
    or_default
      (record {
        accent = default_accent;
        palette = default_palette;
        type_pairing = default_type_pairing;
        logo = none;
        extra = end;
      })
      (theme_of config)

abbrev pub logo_of : Option Theme → Option Text
logo_of none = none
logo_of (some theme) = theme.logo

abbrev pub field_of : (Theme → Text) → Text → Option Theme → Text
field_of get d none = d
field_of get d (some theme) = get theme

unfoldable pub composer_values_from_config : Option StorefrontConfig → ComposerValues
unfolding carried_theme_from_config
composer_values_from_config config = record {
  accent = field_of (λ t. t.accent) default_accent (theme_of config);
  palette = field_of (λ t. t.palette) default_palette (theme_of config);
  type_pairing = field_of (λ t. t.type_pairing) default_type_pairing (theme_of config);
  logo = logo_of (theme_of config);
  carried_theme = carried_theme_from_config config;
  sections = or_default [] (sections_of config);
}

-- An omitted lock version is `none`.
unfoldable pub to_draft_put : ComposerValues → Option ℕ → DraftPut
to_draft_put values expected_lock_version = record {
  config = record {
    theme = some (record values.carried_theme {
      accent = values.accent;
      palette = values.palette;
      type_pairing = values.type_pairing;
      logo = values.logo;
    });
    sections = some values.sections;
  };
  expected_lock_version = expected_lock_version;
}

abbrev pub section_name : SectionType → Text
section_name hero = codes "hero"
section_name menu = codes "menu"
section_name story = codes "story"
section_name contact = codes "contact"
section_name gallery = codes "gallery"
section_name hours = codes "hours"

abbrev pub default_props : SectionType → Props
default_props hero = hero_props [] none none (codes "none")
default_props menu = menu_props [] none
default_props story = story_props [] []
default_props contact = contact_props [] [] none none
default_props gallery = gallery_props none []
default_props hours = hours_props [] none true

unfoldable pub default_section_values : SectionType → ConfigSection
default_section_values t = record {
  id = section_name t;
  section_type = t;
  enabled = true;
  props = default_props t;
}

abbrev pub heading_of : Props → Option Text
heading_of (hero_props heading s i a) = some heading
heading_of (menu_props heading i) = some heading
heading_of (story_props heading b) = some heading
heading_of (contact_props heading ls p e) = some heading
heading_of (gallery_props heading is) = heading
heading_of (hours_props heading i s) = some heading

abbrev pub non_empty : Option Text → Option Text
non_empty (some []) = none
non_empty o = o

unfoldable pub section_summary : ConfigSection → Option Text
section_summary section = non_empty (heading_of section.props)
