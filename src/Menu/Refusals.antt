-- ===== src/Menu/Refusals.antt =====
-- Which refusals of the backend reach an input of the item form.
use restaurant_engine.Prelude.{
  Bool, true, false, Option, none, some, List, [], ◌∷◌, ◌++◌, ◌≡◌, refl, sym, ◌∙◌, subst,
  Bool-cases, inl, inr, if◌then◌else◌,
}
use restaurant_engine.Prelude.Options.{clash}
use restaurant_engine.Prelude.Text.{Text, codes, text_eq, text_eq_sound, text_eq_refl}
use restaurant_engine.Api.{ApiFailure}
use restaurant_engine.Forms.{
  FieldMessage, FormFailure, Looked, own, inherited, find_entry, message_of, is_inherited,
  map_failure, errors_of, Entry,
}
use restaurant_engine.Forms.Failures.{map_failure-first, first_said}
use restaurant_engine.Menu.Defs.{
  InputError, input_error, server_field_errors, form_field_by_request_field,
}

abbrev pub is_field : Text → Looked → Bool
unfolding text_eq
is_field name (own field) = text_eq name field
is_field name (inherited field) = false

-- The first message that is set on an input.
unfoldable pub message_at : Text → List InputError → Option Text
message_at name [] = none
message_at name (e ∷ errors) =
    if is_field name (InputError.field e)
    then some (InputError.message e)
    else message_at name errors

abbrev pub price_field : Text
price_field = codes "price"

abbrev pub price_minor_field : Text
price_minor_field = codes "price_minor"

abbrev on_price : Option Looked → Bool
on_price none = false
on_price (some field) = is_field price_field field

on_price_field :
    (name : Text)
    → text_eq price_minor_field name ≡ true
    → find_entry name form_field_by_request_field ≡ some (own price_field)
unfolding find_entry text_eq
on_price_field name h =
    subst (λ n. find_entry n form_field_by_request_field ≡ some (own price_field))
      (text_eq_sound price_minor_field name h) refl

-- Entries that are not found, or whose input is another one, set nothing on the price.
skip_value :
    (key : Text) (e : Entry) (es : List Entry)
    → is_field price_field (own e.value) ≡ false
    → on_price (find_entry key es) ≡ false
    → on_price (find_entry key (e ∷ es)) ≡ false
unfolding find_entry
skip_value key e es other rest = elim (Bool-cases (text_eq key e.key)) [
  | inl h ↦ rw h other
  | inr h ↦ rw h rest
]

skip_key :
    (key : Text) (e : Entry) (es : List Entry)
    → text_eq key e.key ≡ false
    → on_price (find_entry key es) ≡ false
    → on_price (find_entry key (e ∷ es)) ≡ false
unfolding find_entry
skip_key key e es miss rest = rw miss rest

skip_all : (key : Text) → on_price (find_entry key []) ≡ false
unfolding find_entry
skip_all key = elim (Bool-cases (is_inherited key)) [ inl h ↦ rw h refl | inr h ↦ rw h refl ]

misses : (s t : Text) → text_eq s t ≡ false → text_eq t s ≡ false
misses s t h = elim (Bool-cases (text_eq t s)) [
  | inr miss ↦ miss
  | inl hit ↦
      clash (text_eq s t) h
        (subst (λ u. text_eq s u ≡ true) (sym (text_eq_sound t s hit)) (text_eq_refl s))
]

off_price_field :
    (name : Text)
    → text_eq price_minor_field name ≡ false
    → on_price (find_entry name form_field_by_request_field) ≡ false
unfolding text_eq
off_price_field name h = skip_value name _ _ refl (
    skip_value name _ _ refl (
      skip_key name _ _ (misses price_minor_field name h)
        (skip_value name _ _ refl (skip_value name _ _ refl (skip_all name)))))

message_at_unless :
    (o : Option Looked) (message : Text) (errors : List InputError)
    → on_price o ≡ false
    → message_at price_field (input_error o message ++ errors) ≡ message_at price_field errors
unfolding message_at
message_at_unless none message errors h = refl
message_at_unless (some field) message errors h = rw h refl

message_at_price :
    (fields : List FieldMessage)
    → message_at price_field (server_field_errors fields) ≡ message_of price_minor_field fields
unfolding message_at server_field_errors message_of
message_at_price [] = refl
message_at_price (f ∷ fields) =
    elim (Bool-cases (text_eq price_minor_field (FieldMessage.name f))) [
      | inl h ↦ rw (h, on_price_field (FieldMessage.name f) h) refl
      | inr h ↦ rw h (
          message_at_unless (find_entry (FieldMessage.name f) form_field_by_request_field) _ _
            (off_price_field (FieldMessage.name f) h)
          ∙ message_at_price fields)
    ]

-- The backend's first word on `price_minor` is what the price input shows.
pub server_field_errors-price :
    (failure : ApiFailure) (fallback : Text)
    → message_at price_field
        (server_field_errors (FormFailure.fields (map_failure failure fallback)))
      ≡ first_said price_minor_field (errors_of failure.envelope)
unfolding is_inherited text_eq
server_field_errors-price failure fallback =
    message_at_price (FormFailure.fields (map_failure failure fallback))
    ∙ map_failure-first failure fallback price_minor_field refl
