-- ===== src/Forms/DraftDefs.antt =====
-- The 422 of a draft save, mapped to the composer's controls
-- (apps/control-center/src/storefront/fieldErrors.ts).
use restaurant_engine.Prelude.{
  ℕ, ◌≤◌, Bool, false, ◌&&◌, Option, none, some, List, [], ◌∷◌, ◌++◌, get_elem?, if◌then◌else◌, ◌≡◌,
}
use restaurant_engine.Prelude.Options.{or_else}
use restaurant_engine.Prelude.Text.{Text, codes, text_eq}
use restaurant_engine.Prelude.Splitting.{split, join}
use restaurant_engine.Prelude.Decimal.{decimal}
use restaurant_engine.Js.{max_safe}
use restaurant_engine.Api.{ApiFailure, ErrorEnvelope, FieldError}
use restaurant_engine.Forms.Defs.{is_inherited, errors_of}

-- `Number` on a text, where its result is an integer that is not negative.
pub record NumberReader : Type 0 where
  pub read : Text → Option ℕ
  pub read-decimal : (n : ℕ) → n ≤ max_safe → read (decimal n) ≡ some n

-- What the index of an object literal returns: an own value, or what it inherits under that name,
-- which is not undefined either.
pub data Looked : Type 0 where
  own inherited : Text → Looked

pub record MappedFieldError : Type 0 where
  pub path : Looked
  pub message : Text

pub record MappedSaveFailure : Type 0 where
  pub fields : List MappedFieldError
  pub unmapped : List Text

pub record Entry : Type 0 where
  pub key : Text
  pub value : Text

unfoldable pub find_entry : Text → List Entry → Option Looked
unfolding text_eq is_inherited
find_entry key [] = if is_inherited key then some (inherited key) else none
find_entry key (e ∷ es) =
    if text_eq key (Entry.key e) then some (own (Entry.value e)) else find_entry key es

-- `THEME_FIELD_PATHS`
abbrev pub theme_field_paths : List Entry
theme_field_paths =
    record { key = codes "accent"; value = codes "accent" }
    ∷ record { key = codes "palette"; value = codes "palette" }
    ∷ record { key = codes "type_pairing"; value = codes "typePairing" }
    ∷ record { key = codes "logo"; value = codes "logo" }
    ∷ record { key = codes "logo.media_id"; value = codes "logo" }
    ∷ []

-- `THEME_FIELD_PATHS[parts.slice(3).join('.')]`, behind the test of the first three parts
unfoldable pub theme_path : List Text → Option Looked
unfolding text_eq join find_entry
theme_path (body ∷ config ∷ theme ∷ suffix) =
    if text_eq body (codes "body")
      && text_eq config (codes "config")
      && text_eq theme (codes "theme")
    then find_entry (join b'.' suffix) theme_field_paths
    else none
theme_path _ = none

-- `sections.${String(index)}.${…}`
unfoldable pub section_path : ℕ → List Text → Text
unfolding decimal join
section_path index more = codes "sections." ++ decimal index ++ (b'.' ∷ join b'.' more)

-- `sectionTypes[index] === tag`; a missing type is undefined.
abbrev pub is_type : Option Text → Text → Bool
unfolding text_eq
is_type (some t) tag = text_eq t tag
is_type none tag = false

unfoldable pub tagged_path : List Text → Option ℕ → Text → List Text → Option Looked
unfolding is_type section_path
tagged_path section_types (some index) tag more =
    if is_type (get_elem? section_types index) tag
    then some (own (section_path index more))
    else none
tagged_path section_types none tag more = none

unfoldable pub nested_path : NumberReader → List Text → List Text → Option Looked
unfolding text_eq tagged_path
nested_path number section_types (body ∷ config ∷ sections ∷ index ∷ tag ∷ next ∷ more) =
    if text_eq body (codes "body")
      && text_eq config (codes "config")
      && text_eq sections (codes "sections")
    then tagged_path section_types (number.read index) tag (next ∷ more)
    else none
nested_path number section_types _ = none

-- The path that the loop's body pushes for an error, if it pushes one.
unfoldable pub path_of : NumberReader → List Text → FieldError → Option Looked
unfolding theme_path nested_path split or_else
path_of number section_types e =
    let parts = split b'.' (FieldError.field e) in
    or_else (theme_path parts) (nested_path number section_types parts)

unfoldable pub push : Text → Option Looked → MappedSaveFailure → MappedSaveFailure
push message (some path) mapped = record {
  fields = mapped.fields ++ (record { path = path; message = message } ∷ []);
  unmapped = mapped.unmapped;
}
push message none mapped = record {
  fields = mapped.fields;
  unmapped = mapped.unmapped ++ (message ∷ []);
}

unfoldable pub push_all :
    NumberReader → List Text → MappedSaveFailure → List FieldError → MappedSaveFailure
unfolding push path_of
push_all number section_types mapped [] = mapped
push_all number section_types mapped (e ∷ errors) =
    push_all number section_types
      (push (FieldError.message e) (path_of number section_types e) mapped) errors

-- The summary's only message where the failure names no field.
abbrev pub whole_message : Option ErrorEnvelope → List Text
whole_message none = []
whole_message (some envelope) = ErrorEnvelope.message envelope ∷ []

unfoldable pub map_errors :
    NumberReader → List Text → Option ErrorEnvelope → List FieldError → MappedSaveFailure
unfolding push_all
map_errors number section_types envelope [] = record {
  fields = [];
  unmapped = whole_message envelope;
}
map_errors number section_types envelope (e ∷ errors) =
    push_all number section_types (record { fields = []; unmapped = [] }) (e ∷ errors)

unfoldable pub map_draft_save_failure : NumberReader → ApiFailure → List Text → MappedSaveFailure
unfolding map_errors
map_draft_save_failure number failure section_types =
    map_errors number section_types failure.envelope (errors_of failure.envelope)
