-- ===== src/Draft/Edits.antt =====
-- What a save of the composer sends.
use restaurant_engine.Prelude.{
  ℕ, true, Option, none, some, List, ◌≡◌, ◌↔◌, refl, sym, ap, ◌∙◌, if◌then◌else◌,
}
use restaurant_engine.Prelude.Text.{Text, text_eq}
use restaurant_engine.Draft.Defs.{
  SectionType, hero, menu, story, contact, gallery, hours, ConfigSection, Theme,
  composer_values_from_config, carried_theme_from_config, to_draft_put, section_name,
  default_section_values, section_summary,
}

-- A save of a loaded draft sends what was edited and, of everything else in the document, exactly what
-- was loaded: the theme fields that the form does not know as well. Without an edit the document comes
-- back whole.
pub to_draft_put-composer_values :
    (theme : Theme) (sections edited : List ConfigSection) (accent palette pairing : Text)
    (logo : Option Text) (lock : Option ℕ)
    → (to_draft_put
          (composer_values_from_config
            (some (record { theme = some theme; sections = some sections })))
          lock
        ≡ record {
          config = record { theme = some theme; sections = some sections };
          expected_lock_version = lock;
        })
      × (to_draft_put
            (record (composer_values_from_config
              (some (record { theme = some theme; sections = some sections }))) {
                accent = accent;
                palette = palette;
                type_pairing = pairing;
                logo = logo;
                sections = edited;
              })
            lock
          ≡ record {
            config = record {
              theme = some (record theme {
                accent = accent;
                palette = palette;
                type_pairing = pairing;
                logo = logo;
              });
              sections = some edited;
            };
            expected_lock_version = lock;
          })
unfolding to_draft_put composer_values_from_config carried_theme_from_config
to_draft_put-composer_values theme sections edited accent palette pairing logo lock = (refl, refl)

-- The type that an id of an added section names.
named : Text → SectionType
named id =
    if text_eq id (section_name hero)
    then hero
    else if text_eq id (section_name menu)
    then menu
    else if text_eq id (section_name story)
    then story
    else if text_eq id (section_name contact)
    then contact
    else if text_eq id (section_name gallery)
    then gallery
    else hours

named-section_name : (s : SectionType) → named (section_name s) ≡ s
unfolding named text_eq
named-section_name hero = refl
named-section_name menu = refl
named-section_name story = refl
named-section_name contact = refl
named-section_name gallery = refl
named-section_name hours = refl

same_name : (s t : SectionType) → section_name s ≡ section_name t → s ≡ t
same_name s t e = sym (named-section_name s) ∙ ap named e ∙ named-section_name t

no_summary : (t : SectionType) → section_summary (default_section_values t) ≡ none
unfolding default_section_values section_summary
no_summary hero = refl
no_summary menu = refl
no_summary story = refl
no_summary contact = refl
no_summary gallery = refl
no_summary hours = refl

-- An added section is of the type that was asked for, is enabled, has no copy to summarize, and its id
-- differs from that of an added section of any other type.
pub default_section_values-fresh :
    (s t : SectionType)
    → ((default_section_values t).section_type ≡ t)
      × ((default_section_values t).enabled ≡ true)
      × (section_summary (default_section_values t) ≡ none)
      × (((default_section_values s).id ≡ (default_section_values t).id) ↔ (s ≡ t))
unfolding default_section_values
default_section_values-fresh s t =
    (refl, refl, no_summary t, (same_name s t, λ e. ap section_name e))
