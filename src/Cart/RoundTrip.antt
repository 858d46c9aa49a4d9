-- ===== src/Cart/RoundTrip.antt =====
-- A stored cart comes back unchanged.
use restaurant_engine.Prelude.{
  ℕ, ◌≤◌, true, false, ◌||◌, Option, none, some, List, map, ◌≡◌, refl, arith, length, length-map,
  all, All, ltb, le→leb,
}
use restaurant_engine.Prelude.Text.{Text}
use restaurant_engine.Js.{
  Codec, to_list, from_list, IsStorable, is_string, is_null, to_list-from_list, all-show, read-show,
  show-AreStorable,
}
use restaurant_engine.Cart.Defs.{CartOption, CartLine, Cart, max_cart_lines}
use restaurant_engine.Cart.Validate.{
  is_cart_option, is_cart_line, as_cart_option, as_cart_line, parse_value, option_value, line_value,
  cart_value, parse_cart, instructions_value, nullable_text_of, serialize_cart,
}
use restaurant_engine.Cart.Validity.{IsValidOption, IsValidLine, IsValid}

lt-false : (a b : ℕ) → b ≤ a → ltb a b ≡ false
lt-false a b h = ground arith

option_checked : (o : CartOption) → IsValidOption o → is_cart_option (option_value o) ≡ true
unfolding is_cart_option option_value
option_checked o h = le→leb _ _ h

option_read : (o : CartOption) → as_cart_option (option_value o) ≡ o
unfolding as_cart_option option_value
option_read o = refl

option_value-IsStorable : (o : CartOption) → IsValidOption o → IsStorable (option_value o)
unfolding option_value
option_value-IsStorable o h = ground (arith, le→leb _ _ h)

instructions_checked :
    (s : Option Text)
    → (is_null (some (instructions_value s)) || is_string (some (instructions_value s))) ≡ true
instructions_checked none = refl
instructions_checked (some s) = refl

instructions_read : (s : Option Text) → nullable_text_of (some (instructions_value s)) ≡ s
instructions_read none = refl
instructions_read (some s) = refl

instructions_value-IsStorable : (s : Option Text) → IsStorable (instructions_value s)
instructions_value-IsStorable none = tt
instructions_value-IsStorable (some s) = tt

options_checked :
    (os : List CartOption)
    → All IsValidOption os
    → all is_cart_option (to_list (from_list (map option_value os))) ≡ true
options_checked os h =
    rw (to_list-from_list (map option_value os))
      (all-show IsValidOption is_cart_option option_value as_cart_option option_checked os h)

options_read :
    (os : List CartOption) → map as_cart_option (to_list (from_list (map option_value os))) ≡ os
options_read os =
    rw (to_list-from_list (map option_value os))
      (read-show IsValidOption is_cart_option option_value as_cart_option option_read os)

line_checked : (l : CartLine) → IsValidLine l → is_cart_line (line_value l) ≡ true
unfolding is_cart_line line_value
line_checked l v =
    ground
      (arith, instructions_checked l.item_instructions, options_checked l.options v.deltas_safe)

line_read : (l : CartLine) → as_cart_line (line_value l) ≡ l
unfolding as_cart_line line_value
line_read l = cc (instructions_read l.item_instructions, options_read l.options)

line_value-IsStorable : (l : CartLine) → IsValidLine l → IsStorable (line_value l)
unfolding line_value
line_value-IsStorable l v = ground (
  arith,
  instructions_value-IsStorable l.item_instructions,
  show-AreStorable IsValidOption is_cart_option option_value as_cart_option option_value-IsStorable
      l.options v.deltas_safe,
)

lines_read : (ls : List CartLine) → map as_cart_line (map line_value ls) ≡ ls
lines_read ls = read-show IsValidLine is_cart_line line_value as_cart_line line_read ls

value_read : (cart : Cart) → IsValid cart → parse_value (cart_value cart) ≡ cart
unfolding parse_value cart_value
value_read cart v =
    let checked =
      all-show IsValidLine is_cart_line line_value as_cart_line line_checked cart.lines
        v.lines_valid in
    let short : ltb max_cart_lines (length (map line_value cart.lines)) ≡ false =
      rw (length-map line_value cart.lines) (lt-false _ _ v.lines_capped) in
    rw (to_list-from_list (map line_value cart.lines))
      (rw (checked, short) (cc (lines_read cart.lines)))

cart_value-IsStorable : (cart : Cart) → IsValid cart → IsStorable (cart_value cart)
unfolding cart_value
cart_value-IsStorable cart v = ground (
  arith,
  show-AreStorable IsValidLine is_cart_line line_value as_cart_line line_value-IsStorable cart.lines
      v.lines_valid,
)

-- A cart within the bounds is read back from its print unchanged: every line, option, price,
-- quantity and instruction.
pub parse_cart-serialize_cart :
    (json : Codec) (cart : Cart)
    → IsValid cart
    → parse_cart json (some (serialize_cart json cart)) ≡ cart
unfolding parse_cart serialize_cart
parse_cart-serialize_cart json cart v =
    rw (json.parse-stringify (cart_value cart) (cart_value-IsStorable cart v), parse_cart)
      (value_read cart v)
