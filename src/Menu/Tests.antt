-- ===== src/Menu/Tests.antt =====
-- The item form on concrete input, and the theorems at it.
use restaurant_engine.Prelude.{true, false, none, some, [], ◌∷◌, ◌≡◌, refl, arith}
use restaurant_engine.Prelude.Int.{pos}
use restaurant_engine.Prelude.Text.{Text, codes, text_eq}
use restaurant_engine.Prelude.Splitting.{split}
use restaurant_engine.Api.{ApiFailure}
use restaurant_engine.Forms.{
  FormFailure, map_failure, some_fields, add_fields, add_field, is_in, is_inherited,
  trailing_segment, find_entry,
}
use restaurant_engine.Js.{round_nat}
use restaurant_engine.Money.{Intl, ok, parse_major_to_minor, trim}
use restaurant_engine.Menu.Defs.{
  ItemFormValues, ItemSummary, ItemUpdate, to_item_update, server_field_errors,
}
use restaurant_engine.Menu.Updates.{IsStored, to_item_update-IsAsEntered, IsAsEntered, apply_update}
use restaurant_engine.Menu.Changes.{IsChange, IsPriceChange, IsTagsChange, to_item_update-IsChange}

abbrev cents : Intl
cents currency = some (some 2)

abbrev curry : ItemSummary
curry = record {
  name = codes "Curry";
  description = none;
  price_minor = pos 1250;
  category_id = codes "c1";
  is_hidden = false;
  is_featured = true;
  dietary_tags = codes "halal" ∷ codes "vegan" ∷ [];
}

curry-IsStored : IsStored curry
unfolding trim
curry-IsStored = record {
  amount = 1250;
  name_trimmed = refl;
  description_trimmed = refl;
  price_is = refl;
  price_safe = omega arith;
}

abbrev edited : ItemFormValues
edited = record {
  name = codes " Curry ";
  description = codes "Hot";
  price = codes "13";
  category_id = codes "c1";
  is_hidden = false;
  is_featured = true;
  dietary_tags = codes "vegan" ∷ codes "halal" ∷ [];
}

edited_price : parse_major_to_minor cents (codes "13") "BDT" ≡ ok 1300
unfolding parse_major_to_minor round_nat
edited_price = refl

to_item_update-IsAsEntered_example :
    IsAsEntered edited 1300 (apply_update (to_item_update cents edited curry "BDT") curry)
to_item_update-IsAsEntered_example =
    to_item_update-IsAsEntered cents edited curry "BDT" 1300 edited_price

to_item_update-IsChange_example :
    IsChange (codes "Curry") (ItemUpdate.name (to_item_update cents edited curry "BDT"))
    × IsChange none (ItemUpdate.description (to_item_update cents edited curry "BDT"))
    × IsPriceChange (pos 1250) (ItemUpdate.price_minor (to_item_update cents edited curry "BDT"))
    × IsChange (codes "c1") (ItemUpdate.category_id (to_item_update cents edited curry "BDT"))
    × IsChange false (ItemUpdate.is_hidden (to_item_update cents edited curry "BDT"))
    × IsChange true (ItemUpdate.is_featured (to_item_update cents edited curry "BDT"))
    × IsTagsChange
        (codes "halal" ∷ codes "vegan" ∷ [])
        (ItemUpdate.dietary_tags (to_item_update cents edited curry "BDT"))
to_item_update-IsChange_example = to_item_update-IsChange cents edited curry "BDT"

abbrev refused : Text → ApiFailure
refused field = record {
  status = some 422;
  envelope = some (record {
    code = codes "validation_error";
    message = codes "Invalid.";
    correlation_id = none;
    field_errors =
        record { field = field; code = codes "too_large"; message = codes "Too much." } ∷ [];
    details = none;
  });
}

-- A field error that names no input of the form is shown neither at an input nor in the summary.
unknown_field :
    (FormFailure.summary (map_failure (refused (codes "body.is_featured")) (codes "Failed."))
      ≡ some_fields)
    × (server_field_errors
          (FormFailure.fields (map_failure (refused (codes "body.is_featured")) (codes "Failed.")))
        ≡ [])
unfolding map_failure add_fields add_field is_in is_inherited trailing_segment split text_eq
    server_field_errors find_entry
unknown_field = (refl, refl)
