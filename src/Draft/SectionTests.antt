-- ===== src/Draft/SectionTests.antt =====
-- Runs of the section dialog on concrete input, and the theorems at them.
use restaurant_engine.Prelude.{true, false, none, [], ◌∷◌, ◌≡◌, refl}
use restaurant_engine.Prelude.Text.{codes, text_eq, starts_with}
use restaurant_engine.Money.{trim, trim_start, trim_end}
use restaurant_engine.Draft.Defs.{contact, contact_props, ConfigSection}
use restaurant_engine.Draft.SectionForm.{
  SectionFormValues, blank_values, accepts, form_values_from_section, blank_to_null, props_of,
  build_section, clear_server_error,
}
use restaurant_engine.Draft.Sections.{build_section-form_values, build_section-again}

abbrev entered : SectionFormValues
entered = record (blank_values true) {
  heading = codes " Find us";
  address_lines = codes "1 Road " ∷ [];
  phone = codes "  ";
}

abbrev stored : ConfigSection
stored = record {
  id = codes "contact";
  section_type = contact;
  enabled = true;
  props = contact_props (codes "Find us") (codes "1 Road" ∷ []) none none;
}

dialog_runs :
    (accepts contact entered ≡ true)
    × (accepts contact (record entered { heading = codes " " }) ≡ false)
    × (build_section contact (codes "contact") entered ≡ stored)
    × (clear_server_error (codes "images") (codes "images.2" ∷ codes "heading" ∷ codes "image" ∷ [])
        ≡ codes "heading" ∷ codes "image" ∷ [])
unfolding accepts build_section props_of blank_to_null trim trim_start trim_end clear_server_error
    text_eq starts_with
dialog_runs = (refl, refl, refl, refl)

build_section-form_values_example :
    build_section contact (codes "contact") (form_values_from_section stored) ≡ stored
unfolding trim trim_start trim_end
build_section-form_values_example = build_section-form_values stored (refl, (refl, tt), tt, tt)

build_section-again_example :
    build_section contact
      (codes "contact")
      (form_values_from_section (build_section contact (codes "contact") entered))
    ≡ build_section contact (codes "contact") entered
build_section-again_example = build_section-again contact (codes "contact") entered
