-- ===== src/Menu/Defs.antt =====
-- The item form (apps/control-center/src/menu/itemForm.ts): its values, the bodies that it sends,
-- and the inputs that a refusal names.
use restaurant_engine.Prelude.{
  ℕ, Bool, true, false, not, ◌&&◌, Option, none, some, List, [], ◌∷◌, ◌++◌, length, ◌==◌, String,
  if◌then◌else◌,
}
use restaurant_engine.Prelude.Int.{ℤ, pos, negsuc}
use restaurant_engine.Prelude.Text.{Text, codes, text_eq, text_le}
use restaurant_engine.Prelude.Splitting.{join}
use restaurant_engine.Prelude.Sorting.{sort}
use restaurant_engine.Money.{
  Intl, MoneyParseResult, ok, error, parse_major_to_minor, minor_to_major_input, trim,
}
use restaurant_engine.Forms.{FieldMessage, Looked, find_entry, Entry}

-- A dietary tag is its text.
pub record ItemFormValues : Type 0 where
  pub name : Text
  pub description : Text
  pub price : Text
  pub category_id : Text
  pub is_hidden : Bool
  pub is_featured : Bool
  pub dietary_tags : List Text

-- The fields of an item that the form reads. An amount in minor units is an integer.
pub record ItemSummary : Type 0 where
  pub name : Text
  pub description : Option Text
  pub price_minor : ℤ
  pub category_id : Text
  pub is_hidden : Bool
  pub is_featured : Bool
  pub dietary_tags : List Text

pub record ItemCreate : Type 0 where
  pub name : Text
  pub description : Option Text
  pub price_minor : ℕ
  pub dietary_tags : List Text

-- An absent field is `none`; the description may be sent as null.
pub record ItemUpdate : Type 0 where
  pub name : Option Text
  pub description : Option (Option Text)
  pub price_minor : Option ℕ
  pub category_id : Option Text
  pub is_hidden : Option Bool
  pub is_featured : Option Bool
  pub dietary_tags : Option (List Text)

-- `FORM_FIELD_BY_REQUEST_FIELD`
abbrev pub form_field_by_request_field : List Entry
form_field_by_request_field =
    record { key = codes "name"; value = codes "name" }
    ∷ record { key = codes "description"; value = codes "description" }
    ∷ record { key = codes "price_minor"; value = codes "price" }
    ∷ record { key = codes "category_id"; value = codes "categoryId" }
    ∷ record { key = codes "dietary_tags"; value = codes "dietaryTags" }
    ∷ []

pub record InputError : Type 0 where
  pub field : Looked
  pub message : Text

abbrev pub input_error : Option Looked → Text → List InputError
input_error none message = []
input_error (some field) message = record { field = field; message = message } ∷ []

unfoldable pub server_field_errors : List FieldMessage → List InputError
unfolding find_entry
server_field_errors [] = []
server_field_errors (f ∷ fields) =
    input_error (find_entry (FieldMessage.name f) form_field_by_request_field)
      (FieldMessage.message f)
    ++ server_field_errors fields

unfoldable pub empty_item_values : Text → ItemFormValues
empty_item_values category_id = record {
  name = [];
  description = [];
  price = [];
  category_id = category_id;
  is_hidden = false;
  is_featured = false;
  dietary_tags = [];
}

-- `item.description ?? ''`
abbrev pub text_or_empty : Option Text → Text
text_or_empty none = []
text_or_empty (some text) = text

unfoldable pub item_values : Intl → ItemSummary → String → ItemFormValues
unfolding minor_to_major_input
item_values intl item currency = record {
  name = item.name;
  description = text_or_empty item.description;
  price = minor_to_major_input intl item.price_minor currency;
  category_id = item.category_id;
  is_hidden = item.is_hidden;
  is_featured = item.is_featured;
  dietary_tags = item.dietary_tags;
}

abbrev pub unless_empty : Text → Option Text
unless_empty [] = none
unless_empty (c ∷ s) = some (c ∷ s)

-- `values.description.trim() === '' ? null : values.description.trim()`
unfoldable pub description_of : ItemFormValues → Option Text
unfolding trim
description_of values = unless_empty (trim values.description)

-- `parsed.ok ? parsed.minor : 0`
abbrev pub minor_or_zero : MoneyParseResult → ℕ
minor_or_zero (ok minor) = minor
minor_or_zero (error e) = 0

unfoldable pub to_item_create : Intl → ItemFormValues → String → ItemCreate
unfolding parse_major_to_minor trim description_of
to_item_create intl values currency = record {
  name = trim values.name;
  description = description_of values;
  price_minor = minor_or_zero (parse_major_to_minor intl values.price currency);
  dietary_tags = values.dietary_tags;
}

unfoldable pub same_tags : List Text → List Text → Bool
unfolding join sort text_eq text_le
same_tags a b =
    length a == length b && text_eq (join b',' (sort text_le a)) (join b',' (sort text_le b))

abbrev pub minor_of : MoneyParseResult → Option ℕ
minor_of (ok minor) = some minor
minor_of (error e) = none

-- `parsed.ok && parsed.minor !== original.price_minor`
abbrev pub differs_from : ℤ → ℕ → Bool
differs_from (pos n) minor = not (minor == n)
differs_from (negsuc n) minor = true

abbrev pub price_update : MoneyParseResult → ℤ → Option ℕ
price_update (ok minor) original = if differs_from original minor then some minor else none
price_update (error e) original = none

-- `a !== b` between optional texts
unfoldable pub same_text : Option Text → Option Text → Bool
unfolding text_eq
same_text none none = true
same_text (some s) (some t) = text_eq s t
same_text _ _ = false

abbrev pub same_bool : Bool → Bool → Bool
same_bool true b = b
same_bool false b = not b

-- A field of the body, which is set where the value is not the original's.
abbrev pub unless {ℓ} : {A : Type ℓ} → Bool → A → Option A
unless true a = none
unless false a = some a

unfoldable pub to_item_update : Intl → ItemFormValues → ItemSummary → String → ItemUpdate
unfolding parse_major_to_minor trim description_of same_tags text_eq same_text
to_item_update intl values original currency = record {
  name = unless (text_eq (trim values.name) original.name) (trim values.name);
  description =
      unless (same_text (description_of values) original.description) (description_of values);
  price_minor = price_update (parse_major_to_minor intl values.price currency) original.price_minor;
  category_id = unless (text_eq values.category_id original.category_id) values.category_id;
  is_hidden = unless (same_bool values.is_hidden original.is_hidden) values.is_hidden;
  is_featured = unless (same_bool values.is_featured original.is_featured) values.is_featured;
  dietary_tags = unless (same_tags values.dietary_tags original.dietary_tags) values.dietary_tags;
}
