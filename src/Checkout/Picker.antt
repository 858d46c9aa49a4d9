-- ===== src/Checkout/Picker.antt =====
-- The modifier picker and the button that opens it
-- (apps/storefront/components/ordering/ModifierPickerDialog.tsx and AddToCartButton.tsx). A JavaScript
-- Set of ids is the list of its elements in the order of insertion.
use restaurant_engine.Prelude.{
  ℕ, suc, ◌+◌, ◌-◌, min, max, Bool, true, false, ◌&&◌, Option, none, some, List, [], ◌∷◌, ◌++◌,
  concat, map, ◌≡◌, ◌==◌, leb, all, keep_if, if◌then◌else◌, ◌⊎◌,
}
use restaurant_engine.Prelude.Int.{ℤ, pos}
use restaurant_engine.Prelude.Text.{Text, codes}
use restaurant_engine.Prelude.Sets.{has, delete, add}
use restaurant_engine.Prelude.Decimal.{decimal}
use restaurant_engine.Js.{js_add, js_mul}
use restaurant_engine.Money.{trim}
use restaurant_engine.Cart.{Cart, CartLine, CartOption, max_line_quantity, add_line}
use restaurant_engine.Cart.Totals.{options_total_from}
use restaurant_engine.Checkout.Submit.{text_or_none}

-- PublicModifierOption, PublicModifierGroup and PublicMenuItem, as far as the picker reads them.
pub record ModifierOption : Type 0 where
  pub id : Text
  pub name : Text
  pub price_delta_minor : ℤ

pub record ModifierGroup : Type 0 where
  pub id : Text
  pub name : Text
  pub min_select : ℕ
  pub max_select : Option ℕ
  pub options : List ModifierOption

pub record MenuItem : Type 0 where
  pub id : Text
  pub name : Text
  pub price_minor : ℤ
  pub modifier_groups : List ModifierGroup

abbrev at_least : ℕ → List Text
at_least n = if leb 1 n then (codes "at least " ++ decimal n) ∷ [] else []

abbrev up_to : Option ℕ → List Text
up_to none = []
up_to (some n) = (codes "up to " ++ decimal n) ∷ []

abbrev or_optional : List Text → Text
or_optional [] = codes "Optional"
or_optional (part ∷ []) = codes "Choose " ++ part
or_optional (part ∷ next ∷ parts) = codes "Choose " ++ part ++ codes ", " ++ next

abbrev pub is_one : Option ℕ → Bool
is_one none = false
is_one (some n) = n == 1

abbrev pub is_single : ModifierGroup → Bool
is_single group = group.min_select == 1 && is_one group.max_select

unfoldable pub group_rule : ModifierGroup → Text
group_rule group =
    if is_single group
    then codes "Choose one"
    else or_optional (at_least group.min_select ++ up_to group.max_select)

-- How many options are in the set: the loop of `groupSatisfied`, and `filter(…).length`.
unfoldable pub selected_count : List Text → List ModifierOption → ℕ
selected_count ids [] = 0
selected_count ids (option ∷ options) =
    let rest = selected_count ids options in if has option.id ids then suc rest else rest

abbrev pub is_within : ℕ → Option ℕ → Bool
is_within count none = true
is_within count (some limit) = leb count limit

unfoldable pub group_satisfied : List Text → ModifierGroup → Bool
group_satisfied ids group =
    let count = selected_count ids group.options in
    leb group.min_select count && is_within count group.max_select

abbrev pub is_full : ℕ → Option ℕ → Bool
is_full count none = false
is_full count (some limit) = leb limit count

abbrev pub delete_all : List ModifierOption → List Text → List Text
delete_all [] ids = ids
delete_all (option ∷ options) ids = delete_all options (delete option.id ids)

unfoldable pub toggle_option : ModifierGroup → Text → List Text → List Text
toggle_option group id ids =
    if is_single group
    then add id (delete_all group.options ids)
    else if has id ids
    then delete id ids
    else if is_full (selected_count ids group.options) group.max_select
    then ids
    else add id ids

pub record Picker : Type 0 where
  pub selected : List Text
  pub quantity : ℕ
  pub instructions : Text

abbrev pub picker_opened : Picker
picker_opened = record { selected = []; quantity = 1; instructions = [] }

abbrev pub less : ℕ → ℕ
less q = max 1 (q - 1)

abbrev pub more : ℕ → ℕ
more q = min max_line_quantity (q + 1)

abbrev pub chosen_in : List Text → ModifierGroup → List CartOption
chosen_in ids group = map (cart_option group) (keep_if (λ option. has option.id ids) group.options)
  where
    cart_option : ModifierGroup → ModifierOption → CartOption
    cart_option group option = record {
      group_id = group.id;
      group_name = group.name;
      option_id = option.id;
      option_name = option.name;
      price_delta_minor = option.price_delta_minor;
    }

unfoldable pub chosen_options : MenuItem → List Text → List CartOption
chosen_options item ids = concat (map (chosen_in ids) item.modifier_groups)

-- The price on the button.
unfoldable pub shown_total : MenuItem → Picker → ℤ
shown_total item p =
    let unit =
      js_add item.price_minor (options_total_from (pos 0) (chosen_options item p.selected)) in
    js_mul unit p.quantity

abbrev pub composed_line : MenuItem → Picker → CartLine
composed_line item p = record {
  item_id = item.id;
  name = item.name;
  base_price_minor = item.price_minor;
  quantity = p.quantity;
  item_instructions = text_or_none (trim p.instructions);
  options = chosen_options item p.selected;
}

-- The line that is handed to `onAdd`.
unfoldable pub confirm : MenuItem → Picker → Option CartLine
confirm item p =
    if all (group_satisfied p.selected) item.modifier_groups
    then some (composed_line item p)
    else none

-- `handleAdd`, on the stored cart: what is saved if the line was added, and the note.
unfoldable pub handle_add : CartLine → Cart → Option Cart × Text
handle_add line cart =
    let (next, ok) = add_line cart line in
    if ok
    then (some next, codes "Added")
    else (none, codes "Your order is full — review it before adding more.")

abbrev pub IsAmong : {A : Type 0} → A → List A → Type 0
IsAmong a [] = ⊥
IsAmong a (b ∷ bs) = (a ≡ b) ⊎ IsAmong a bs

-- What a visitor does between the opening of the picker and its confirmation.
pub data Composed (item : MenuItem) : Picker → Type 0 where
  fresh : Composed item picker_opened
  toggled :
      (p : Picker) (group : ModifierGroup) (option : ModifierOption)
      → Composed item p
      → IsAmong group item.modifier_groups
      → IsAmong option group.options
      → Composed item (record p { selected = toggle_option group option.id p.selected })
  decreased :
      (p : Picker) → Composed item p → Composed item (record p { quantity = less p.quantity })
  increased :
      (p : Picker) → Composed item p → Composed item (record p { quantity = more p.quantity })
  noted :
      (p : Picker) (text : Text)
      → Composed item p
      → Composed item (record p { instructions = text })
