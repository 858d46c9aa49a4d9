-- ===== src/Cart/Validate.antt =====
-- Reading a persisted cart back (`isCartOption`, `isCartLine`, `parseCart`, `serializeCart`).
-- JSON.parse and JSON.stringify are a parameter, a `Codec`; a cast (`as CartLine[]`) reads the
-- fields that the checks have established.
use restaurant_engine.Prelude.{
  ℕ, Bool, false, ◌&&◌, ◌||◌, not, Option, none, some, List, [], map, leb, ltb, ◌==◌, length, all,
  if◌then◌else◌,
}
use restaurant_engine.Prelude.Int.{ℤ, pos, abs, is_nonneg}
use restaurant_engine.Prelude.Text.{Text}
use restaurant_engine.Js.{
  int, is_safe_integer, Json, null, num, str, arr, obj, end, field, to_list, from_list, get,
  is_object, is_string, is_null, Codec,
}
use restaurant_engine.Cart.Defs.{
  CartOption, CartLine, Cart, empty_cart, schema_version, max_cart_lines, max_line_quantity,
}

-- `typeof v === 'number' && Number.isSafeInteger(v)`
abbrev is_safe_number : Option Json → Bool
is_safe_number (some (num n)) = is_safe_integer n
is_safe_number _ = false

-- `v >= 0`, of a safe integer
abbrev is_at_least_zero : Option Json → Bool
is_at_least_zero (some (num (int z))) = is_nonneg z
is_at_least_zero _ = false

-- `v >= 1 && v <= MAX_LINE_QUANTITY`, of a safe integer
abbrev is_quantity : Option Json → Bool
is_quantity (some (num (int (pos n)))) = leb 1 n && leb n max_line_quantity
is_quantity _ = false

unfoldable pub is_cart_option : Json → Bool
is_cart_option option =
    is_object option
    && is_string (get "group_id" option)
    && is_string (get "group_name" option)
    && is_string (get "option_id" option)
    && is_string (get "option_name" option)
    && is_safe_number (get "price_delta_minor" option)

-- `Array.isArray(v) && v.every(isCartOption)`
abbrev pub is_array_of : (Json → Bool) → Option Json → Bool
is_array_of p (some (arr vs)) = all p (to_list vs)
is_array_of p _ = false

unfoldable pub is_cart_line : Json → Bool
unfolding is_cart_option
is_cart_line line =
    is_object line
    && is_string (get "item_id" line)
    && is_string (get "name" line)
    && is_safe_number (get "base_price_minor" line)
    && is_at_least_zero (get "base_price_minor" line)
    && is_safe_number (get "quantity" line)
    && is_quantity (get "quantity" line)
    && (is_null (get "item_instructions" line) || is_string (get "item_instructions" line))
    && is_array_of is_cart_option (get "options" line)

-- What a checked field holds.
abbrev text_of : Option Json → Text
text_of (some (str s)) = s
text_of _ = []

abbrev pub nullable_text_of : Option Json → Option Text
nullable_text_of (some (str s)) = some s
nullable_text_of _ = none

abbrev int_of : Option Json → ℤ
int_of (some (num (int z))) = z
int_of _ = pos 0

abbrev nat_of : Option Json → ℕ
nat_of v = abs (int_of v)

abbrev pub list_of : Option Json → List Json
list_of (some (arr vs)) = to_list vs
list_of _ = []

unfoldable pub as_cart_option : Json → CartOption
as_cart_option v = record {
  group_id = text_of (get "group_id" v);
  group_name = text_of (get "group_name" v);
  option_id = text_of (get "option_id" v);
  option_name = text_of (get "option_name" v);
  price_delta_minor = int_of (get "price_delta_minor" v);
}

unfoldable pub as_cart_line : Json → CartLine
unfolding as_cart_option
as_cart_line v = record {
  item_id = text_of (get "item_id" v);
  name = text_of (get "name" v);
  base_price_minor = int_of (get "base_price_minor" v);
  quantity = nat_of (get "quantity" v);
  item_instructions = nullable_text_of (get "item_instructions" v);
  options = map as_cart_option (list_of (get "options" v));
}

-- `candidate['schema_version'] === CART_SCHEMA_VERSION`
abbrev pub is_current : Option Json → Bool
is_current (some (num (int (pos n)))) = n == schema_version
is_current _ = false

abbrev pub checked_lines : List Json → Cart
checked_lines lines =
    if not (all is_cart_line lines) || ltb max_cart_lines (length lines)
    then empty_cart
    else record { lines = map as_cart_line lines }

-- `parseCart` behind JSON.parse
unfoldable pub parse_value : Json → Cart
unfolding is_cart_line as_cart_line
parse_value candidate =
    if not (is_object candidate)
    then empty_cart
    else if not (is_current (get "schema_version" candidate))
    then empty_cart
    else elim (get "lines" candidate) [
      | some lines ↦ elim lines [ arr vs ↦ checked_lines (to_list vs) | _ ↦ empty_cart ]
      | none ↦ empty_cart
    ]

-- The value that `JSON.stringify(cart)` prints.
unfoldable pub option_value : CartOption → Json
option_value o = obj (
    field "group_id" (str o.group_id) (
      field "group_name" (str o.group_name) (
        field "option_id" (str o.option_id) (
          field "option_name" (str o.option_name)
            (field "price_delta_minor" (num (int o.price_delta_minor)) end)))))

abbrev pub instructions_value : Option Text → Json
instructions_value none = null
instructions_value (some s) = str s

unfoldable pub line_value : CartLine → Json
unfolding option_value
line_value l = obj (
    field "item_id" (str l.item_id) (
      field "name" (str l.name) (
        field "base_price_minor" (num (int l.base_price_minor)) (
          field "quantity" (num (int (pos l.quantity))) (
            field "item_instructions" (instructions_value l.item_instructions)
              (field "options" (arr (from_list (map option_value l.options))) end))))))

unfoldable pub cart_value : Cart → Json
unfolding line_value
cart_value cart = obj (
    field "schema_version" (num (int (pos schema_version)))
      (field "lines" (arr (from_list (map line_value cart.lines))) end))

module _ (json : Codec) where
  open json use {Raw, parse, stringify}

  unfoldable pub parse_cart : Option Raw → Cart
  unfolding parse_value
  parse_cart none = empty_cart
  parse_cart (some raw) = elim (parse raw) [ none ↦ empty_cart | some v ↦ parse_value v ]

  unfoldable pub serialize_cart : Cart → Raw
  unfolding cart_value
  serialize_cart cart = stringify (cart_value cart)
