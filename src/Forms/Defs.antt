-- ===== src/Forms/Defs.antt =====
-- `mapFailure` (apps/control-center/src/components/formErrors.ts): which message stands at which
-- input, and the sentence of the summary.
use restaurant_engine.Prelude.{
  Bool, ◌||◌, Option, none, some, List, [], ◌∷◌, ◌++◌, any, if◌then◌else◌,
}
use restaurant_engine.Prelude.Text.{Text, codes, text_eq}
use restaurant_engine.Prelude.Splitting.{split}
use restaurant_engine.Api.{ApiFailure, ErrorEnvelope, FieldError}

-- An own property of `fields: Record<string, string>`.
pub record FieldMessage : Type 0 where
  pub name : Text
  pub message : Text

pub record FormFailure : Type 0 where
  pub summary : Text
  pub fields : List FieldMessage

unfoldable pub message_of : Text → List FieldMessage → Option Text
unfolding text_eq
message_of name [] = none
message_of name (f ∷ fs) =
    if text_eq name (FieldMessage.name f) then some (FieldMessage.message f) else message_of name fs

-- The names that `{}` inherits, which `in` finds as well.
abbrev pub object_prototype : List Text
object_prototype =
    codes "constructor"
    ∷ codes "__defineGetter__"
    ∷ codes "__defineSetter__"
    ∷ codes "hasOwnProperty"
    ∷ codes "__lookupGetter__"
    ∷ codes "__lookupSetter__"
    ∷ codes "isPrototypeOf"
    ∷ codes "propertyIsEnumerable"
    ∷ codes "toString"
    ∷ codes "valueOf"
    ∷ codes "__proto__"
    ∷ codes "toLocaleString"
    ∷ []

unfoldable pub is_inherited : Text → Bool
unfolding text_eq
is_inherited name = any (λ k. text_eq name k) object_prototype

-- `name in fields`
unfoldable pub is_in : Text → List FieldMessage → Bool
unfolding is_inherited text_eq
is_in name fields = is_inherited name || any (λ f. text_eq name (FieldMessage.name f)) fields

abbrev last_part : Text → List Text → Text
last_part whole [] = whole
last_part whole (part ∷ []) = part
last_part whole (part ∷ next ∷ parts) = last_part whole (next ∷ parts)

-- `fieldError.field.split('.').at(-1) ?? fieldError.field`
unfoldable pub trailing_segment : Text → Text
unfolding split
trailing_segment path = last_part path (split b'.' path)

-- The body of the loop over the field errors.
unfoldable pub add_field : List FieldMessage → FieldError → List FieldMessage
unfolding is_in trailing_segment
add_field fields e =
    let name = trailing_segment (FieldError.field e) in
    if is_in name fields
    then fields
    else fields ++ (record { name = name; message = FieldError.message e } ∷ [])

unfoldable pub add_fields : List FieldMessage → List FieldError → List FieldMessage
unfolding add_field
add_fields fields [] = fields
add_fields fields (e ∷ errors) = add_fields (add_field fields e) errors

abbrev pub errors_of : Option ErrorEnvelope → List FieldError
errors_of none = []
errors_of (some envelope) = ErrorEnvelope.field_errors envelope

-- `failure.envelope?.error.message ?? fallback`
abbrev pub message_or : Text → Option ErrorEnvelope → Text
message_or fallback none = fallback
message_or fallback (some envelope) = ErrorEnvelope.message envelope

abbrev pub some_fields : Text
some_fields = codes "Some fields need attention."

-- The test of the number of fields and the two results behind it.
abbrev pub summarize : Text → List FieldMessage → FormFailure
summarize message [] = record { summary = message; fields = [] }
summarize message (f ∷ fs) = record { summary = some_fields; fields = f ∷ fs }

unfoldable pub map_failure : ApiFailure → Text → FormFailure
unfolding add_fields
map_failure failure fallback =
    summarize (message_or fallback failure.envelope) (add_fields [] (errors_of failure.envelope))
