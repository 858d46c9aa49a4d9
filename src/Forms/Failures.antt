-- ===== src/Forms/Failures.antt =====
-- Where a failure's messages end up in a form.
use restaurant_engine.Prelude.{
  Bool, true, false, Option, none, some, List, [], ◌∷◌, ◌++◌, any, if◌then◌else◌, ◌≡◌, inl, inr,
  refl, sym, ap, ◌∙◌, Bool-cases, subst,
}
use restaurant_engine.Prelude.Options.{or_else, or_else_assoc, or_else-none, or_else_missing, clash}
use restaurant_engine.Prelude.Text.{Text, text_eq, text_eq_sound}
use restaurant_engine.Api.{ApiFailure, FieldError}
use restaurant_engine.Forms.Defs.{
  FieldMessage, FormFailure, message_of, is_in, is_inherited, trailing_segment, add_field,
  add_fields, map_failure, errors_of, summarize,
}

-- What an error says about the input `name`.
abbrev said : Text → FieldError → Option Text
said name e =
    if text_eq name (trailing_segment (FieldError.field e))
    then some (FieldError.message e)
    else none

-- The message of the first error whose path ends in `name`.
abbrev pub first_said : Text → List FieldError → Option Text
first_said name [] = none
first_said name (e ∷ errors) = or_else (said name e) (first_said name errors)

is_held : Text → List FieldMessage → Bool
is_held name fields = any (λ f. text_eq name (FieldMessage.name f)) fields

message_of_held :
    (name : Text) (fields : List FieldMessage) (o : Option Text)
    → is_held name fields ≡ true
    → or_else (message_of name fields) o ≡ message_of name fields
unfolding is_held message_of or_else
message_of_held name [] o h = clash false refl h
message_of_held name (f ∷ fs) o h = elim (Bool-cases (text_eq name (FieldMessage.name f))) [
  | inl e ↦ rw e refl
  | inr e ↦ rw e (message_of_held name fs o (rw e at h))
]

message_of-append :
    (name : Text) (fields more : List FieldMessage)
    → message_of name (fields ++ more) ≡ or_else (message_of name fields) (message_of name more)
unfolding message_of or_else
message_of-append name [] more = refl
message_of-append name (f ∷ fs) more = elim (Bool-cases (text_eq name (FieldMessage.name f))) [
  | inl e ↦ rw e refl
  | inr e ↦ rw e (message_of-append name fs more)
]

-- An error whose segment is taken adds nothing for any name.
held_elsewhere :
    (name : Text) (fields : List FieldMessage) (e : FieldError)
    → is_inherited name ≡ false
    → is_in (trailing_segment (FieldError.field e)) fields ≡ true
    → or_else (message_of name fields) (said name e) ≡ message_of name fields
unfolding is_in is_held
held_elsewhere name fields e own h =
    elim (Bool-cases (text_eq name (trailing_segment (FieldError.field e)))) [
      | inr other ↦ rw other (or_else-none (message_of name fields))
      | inl same ↦
          let held = subst (λ t. is_in t fields ≡ true) (sym (text_eq_sound name _ same)) h in
          message_of_held name fields (said name e) (rw own at held)
    ]

message_of-add_field :
    (name : Text) (fields : List FieldMessage) (e : FieldError)
    → is_inherited name ≡ false
    → message_of name (add_field fields e) ≡ or_else (message_of name fields) (said name e)
unfolding add_field message_of
message_of-add_field name fields e own =
    elim (Bool-cases (is_in (trailing_segment (FieldError.field e)) fields)) [
      | inl h ↦ rw h (sym (held_elsewhere name fields e own h))
      | inr h ↦ rw h (message_of-append name fields _)
    ]

message_of-add_fields :
    (name : Text) (fields : List FieldMessage) (errors : List FieldError)
    → is_inherited name ≡ false
    → message_of name (add_fields fields errors)
      ≡ or_else (message_of name fields) (first_said name errors)
unfolding add_fields
message_of-add_fields name fields [] own = sym (or_else-none (message_of name fields))
message_of-add_fields name fields (e ∷ errors) own =
    message_of-add_fields name (add_field fields e) errors own
    ∙ ap (λ o. or_else o (first_said name errors)) (message_of-add_field name fields e own)
    ∙ or_else_assoc (message_of name fields) (said name e) (first_said name errors)

summarize-fields :
    (message : Text) (fields : List FieldMessage)
    → FormFailure.fields (summarize message fields) ≡ fields
summarize-fields message [] = refl
summarize-fields message (f ∷ fs) = refl

-- The message at an input is that of the first field error whose path ends in the input's name,
-- and an input that no error names has none; the names of Object.prototype are no inputs.
pub map_failure-first :
    (failure : ApiFailure) (fallback name : Text)
    → is_inherited name ≡ false
    → message_of name (FormFailure.fields (map_failure failure fallback))
      ≡ first_said name (errors_of failure.envelope)
unfolding map_failure message_of
map_failure-first failure fallback name own =
    ap (message_of name) (summarize-fields _ _)
    ∙ message_of-add_fields name [] (errors_of failure.envelope) own
    ∙ or_else_missing _
