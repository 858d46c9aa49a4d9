-- ===== src/Forms/Tests.antt =====
-- Failures on concrete input, and the theorems at them.
use restaurant_engine.Prelude.{none, some, List, [], ◌∷◌, ◌≡◌, refl, ap}
use restaurant_engine.Prelude.Options.{or_else}
use restaurant_engine.Prelude.Text.{Text, codes, text_eq}
use restaurant_engine.Prelude.Splitting.{split, join}
use restaurant_engine.Prelude.Decimal.{value, value-decimal, decimal}
use restaurant_engine.Api.{ApiFailure, FieldError}
use restaurant_engine.Forms.Defs.{
  FormFailure, map_failure, message_of, is_inherited, is_in, add_field, add_fields,
  trailing_segment, errors_of, some_fields,
}
use restaurant_engine.Forms.DraftDefs.{
  NumberReader, MappedSaveFailure, own, map_draft_save_failure, path_of, push_all, push, map_errors,
  theme_path, nested_path, tagged_path, section_path, find_entry,
}
use restaurant_engine.Forms.Failures.{map_failure-first, first_said}
use restaurant_engine.Forms.DraftFailures.{
  map_draft_save_failure-IsDealt, IsDealt, messages, said_by,
}

abbrev error_at : Text → Text → FieldError
error_at field message = record { field = field; code = codes "value_error"; message = message }

abbrev errors : List FieldError
errors =
    error_at (codes "body.price_minor") (codes "Too much.")
    ∷ error_at (codes "other.price_minor") (codes "Again.")
    ∷ error_at (codes "body.toString") (codes "Lost.")
    ∷ []

abbrev failure_of : List FieldError → ApiFailure
failure_of errors = record {
  status = some 422;
  envelope = some (record {
    code = codes "validation_error";
    message = codes "Invalid.";
    correlation_id = none;
    field_errors = errors;
    details = none;
  });
}

form_failure : map_failure (failure_of errors) (codes "Failed.") ≡ record {
  summary = some_fields;
  fields = record { name = codes "price_minor"; message = codes "Too much." } ∷ [];
}
unfolding map_failure add_fields add_field is_in is_inherited trailing_segment split text_eq
form_failure = refl

map_failure-first_example :
    message_of
      (codes "price_minor")
      (FormFailure.fields (map_failure (failure_of errors) (codes "Failed.")))
    ≡ first_said (codes "price_minor") (errors_of (ApiFailure.envelope (failure_of errors)))
map_failure-first_example =
    map_failure-first (failure_of errors) (codes "Failed.") (codes "price_minor")
      (unfold is_inherited text_eq in refl)

-- A reader of decimal digits.
abbrev digits_reader : NumberReader
digits_reader = record {
  read = λ s. some (value s);
  read-decimal = λ n h. ap some (value-decimal n);
}

abbrev section_types : List Text
section_types = codes "hero" ∷ codes "menu" ∷ []

abbrev draft_errors : List FieldError
draft_errors =
    error_at (codes "body.config.sections.0.hero.props.heading") (codes "Short.")
    ∷ error_at (codes "body.config.sections.1.hero.props.heading") (codes "Moved.")
    ∷ error_at (codes "body.config.theme.logo.media_id") (codes "Gone.")
    ∷ []

draft_failure :
    map_draft_save_failure digits_reader (failure_of draft_errors) section_types ≡ record {
      fields =
          record { path = own (codes "sections.0.props.heading"); message = codes "Short." }
          ∷ record { path = own (codes "logo"); message = codes "Gone." }
          ∷ [];
      unmapped = codes "Moved." ∷ [];
    }
unfolding map_draft_save_failure map_errors push_all push path_of theme_path nested_path tagged_path
    section_path find_entry split join text_eq or_else decimal is_inherited
draft_failure = refl

map_draft_save_failure-IsDealt_example :
    IsDealt
      (messages (
        MappedSaveFailure.fields
          (map_draft_save_failure digits_reader (failure_of draft_errors) section_types)))
      (MappedSaveFailure.unmapped
        (map_draft_save_failure digits_reader (failure_of draft_errors) section_types))
      (said_by
        (ApiFailure.envelope (failure_of draft_errors))
        (errors_of (ApiFailure.envelope (failure_of draft_errors))))
map_draft_save_failure-IsDealt_example =
    map_draft_save_failure-IsDealt digits_reader (failure_of draft_errors) section_types
