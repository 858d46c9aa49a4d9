-- ===== src/Cart/Tests.antt =====
-- Runs of the cart on concrete input, and the theorems at concrete carts.
use mathlib.Core.List.{Perm}
use restaurant_engine.Prelude.{
  ℕ, ◌+◌, ◌≤◌, ◌<◌, min, true, false, Option, none, some, List, [], ◌∷◌, ◌≡◌, ◌↔◌, ◌⊎◌, refl, sym,
  arith, length, All, if◌then◌else◌,
}
use restaurant_engine.Prelude.Int.{ℤ, pos, negsuc, ◌+ℤ◌, ◌*ℤ◌}
use restaurant_engine.Prelude.Text.{Text, codes, text_eq, text_le}
use restaurant_engine.Prelude.Sorting.{sort}
use restaurant_engine.Prelude.Splitting.{join, IsPart}
use restaurant_engine.Js.{
  int, other, Json, num, str, arr, obj, nil, cons, end, field, plain_codec, round, js_add, js_mul,
}
use restaurant_engine.Cart.Defs.{
  CartOption, CartLine, Cart, empty_cart, max_cart_lines, max_line_quantity, option_ids, find_index,
  same_choice, same_instructions, sorted_option_ids, add_line, remove_line, set_line_quantity,
  cart_item_count,
}
use restaurant_engine.Cart.Totals.{cart_total_minor, cart_total_exact, line_total_minor, cart_sum}
use restaurant_engine.Cart.Validate.{parse_cart, serialize_cart}
use restaurant_engine.Cart.Validity.{IsValidLine, IsValid, empty-IsValid, parse_cart-IsValid}
use restaurant_engine.Cart.RoundTrip.{parse_cart-serialize_cart}
use restaurant_engine.Cart.Choice.{same_choice_iff}
use restaurant_engine.Cart.Quantities.{quantity_of, add_line-quantity_of}
use restaurant_engine.Cart.Sessions.{
  Reach, here, next, add, change, AreDistinct, Reach-IsValid, Reach-AreDistinct,
}
use restaurant_engine.Cart.Storage.{LocalStorage, Window}

cart_runs : Unit {0}
unfolding add_line same_choice same_instructions sorted_option_ids text_eq text_le sort join
    remove_line set_line_quantity cart_item_count cart_total_minor line_total_minor js_add js_mul
    parse_cart serialize_cart ◌+ℤ◌ ◌*ℤ◌ round
cart_runs = tt

abbrev option : Text → ℤ → CartOption
option id delta = record {
  group_id = codes "g";
  group_name = codes "Size";
  option_id = id;
  option_name = codes "Large";
  price_delta_minor = delta;
}

abbrev line : ℕ → List CartOption → CartLine
line quantity options = record {
  item_id = codes "i1";
  name = codes "Soup";
  base_price_minor = pos 700;
  quantity = quantity;
  item_instructions = none;
  options = options;
}

abbrev plain : CartLine
plain = line 2 []

abbrev large : CartLine
large = line 49 (option (codes "b") (pos 50) ∷ option (codes "a") (negsuc 9) ∷ [])

abbrev large_again : CartLine
large_again = line 3 (option (codes "a") (negsuc 9) ∷ option (codes "b") (pos 50) ∷ [])

abbrev two_lines : Cart
two_lines = record { lines = plain ∷ large ∷ [] }

-- The same options in another order are merged, and the quantity stops at 50.
merged :
    add_line two_lines large_again
    ≡ (record { lines = plain ∷ record large { quantity = 50 } ∷ [] }, true)
unfolding cart_runs
merged = refl

appended : add_line (record { lines = plain ∷ [] }) large ≡ (two_lines, true)
unfolding cart_runs
appended = refl

quantities :
    (set_line_quantity two_lines 0 (int (pos 51)) ≡ two_lines)
    × (set_line_quantity two_lines 0 (other 0) ≡ two_lines)
    × (cart_item_count (set_line_quantity two_lines 1 (int (pos 1))) ≡ 3)
    × (remove_line two_lines 1 ≡ record { lines = plain ∷ [] })
    × (remove_line two_lines 2 ≡ two_lines)
unfolding cart_runs
quantities = (refl, refl, refl, refl, refl)

-- 2 × 700 + 49 × (700 + 50 - 10)
total : cart_total_minor two_lines ≡ pos 37660
unfolding cart_runs
total = refl

stored : parse_cart plain_codec (some (serialize_cart plain_codec two_lines)) ≡ two_lines
unfolding cart_runs
stored = refl

-- Another version, a fraction of a line and a text that is no JSON are dropped.
dropped :
    (parse_cart plain_codec (
        some
          (some (obj (field "schema_version" (num (int (pos 2))) (field "lines" (arr nil) end)))))
      ≡ empty_cart)
    × (parse_cart plain_codec (
          some (
            some (
              obj (
                field "schema_version"
                  (num (int (pos 1)))
                  (field "lines" (arr (cons (str []) nil)) end)))))
        ≡ empty_cart)
    × (parse_cart plain_codec (some none) ≡ empty_cart)
unfolding cart_runs
dropped = (refl, refl, refl)

plain-IsValidLine : IsValidLine plain
plain-IsValidLine = record {
  price_safe = omega arith;
  price_nonneg = refl;
  some_quantity = omega arith;
  quantity_capped = omega arith;
  deltas_safe = tt;
}

large-IsValidLine : IsValidLine large
large-IsValidLine = record {
  price_safe = omega arith;
  price_nonneg = refl;
  some_quantity = omega arith;
  quantity_capped = omega arith;
  deltas_safe = omega arith;
}

two_lines-IsValid : IsValid two_lines
two_lines-IsValid = record {
  lines_capped = omega arith;
  lines_valid = (plain-IsValidLine, (large-IsValidLine, tt));
}

parse_cart-IsValid_example : IsValid (parse_cart plain_codec (some (some (str []))))
parse_cart-IsValid_example = parse_cart-IsValid plain_codec (some (some (str [])))

parse_cart-serialize_cart_example :
    parse_cart plain_codec (some (serialize_cart plain_codec two_lines)) ≡ two_lines
parse_cart-serialize_cart_example =
    parse_cart-serialize_cart plain_codec two_lines two_lines-IsValid

ids : All (IsPart b',') (option_ids large)
ids = (((λ e. cc), omega arith), (((λ e. cc), omega arith), tt))

same_choice_iff_example : (same_choice large large_again ≡ true) ↔ (
    (large.item_id ≡ large_again.item_id)
    × (large.item_instructions ≡ large_again.item_instructions)
    × Perm (option_ids large) (option_ids large_again))
same_choice_iff_example = same_choice_iff large large_again ids ((ids.1).0, (ids.0, tt))

add_line-quantity_of_example :
    (((add_line two_lines large_again).1 ≡ false)
      × (find_index (λ existing. same_choice existing large_again) two_lines.lines ≡ none)
      × (max_cart_lines ≤ length two_lines.lines)
      × ((add_line two_lines large_again).0 ≡ two_lines))
    ⊎ (((add_line two_lines large_again).1 ≡ true)
        × (((i : ℕ) × (find_index (λ existing. same_choice existing large_again) two_lines.lines
                ≡ some i))
            ⊎ (length two_lines.lines < max_cart_lines))
        × (quantity_of plain (add_line two_lines large_again).0.lines ≡ (
            if same_choice large_again plain
            then min (quantity_of large_again two_lines.lines + 3) max_line_quantity
            else quantity_of plain two_lines.lines)))
add_line-quantity_of_example = add_line-quantity_of two_lines large_again plain (omega arith)

abbrev session : Reach empty_cart (set_line_quantity (add_line empty_cart plain).0 0 (int (pos 7)))
session =
    next (next here (add empty_cart plain plain-IsValidLine))
      (change (add_line empty_cart plain).0 0 (int (pos 7)))

Reach-IsValid_example : IsValid (set_line_quantity (add_line empty_cart plain).0 0 (int (pos 7)))
Reach-IsValid_example = Reach-IsValid empty-IsValid session

Reach-AreDistinct_example :
    AreDistinct (set_line_quantity (add_line empty_cart plain).0 0 (int (pos 7))).lines
Reach-AreDistinct_example = Reach-AreDistinct {start = empty_cart} tt session

cart_total_exact_example : cart_total_minor two_lines ≡ cart_sum two_lines.lines
cart_total_exact_example = cart_total_exact two_lines (omega arith) (omega arith)

read_back :
    (t : Option (Option Json)) (raw : Option Json)
    → some (some raw) ≡ some t
    → some t ≡ some (some raw)
read_back t raw h = sym h

read_absent : (t : Option (Option Json)) → some none ≡ some t → some t ≡ some none
read_absent t h = sym h

-- A storage that keeps one text and refuses nothing.
abbrev one_cell : LocalStorage (Option Json)
one_cell = record {
  State = Option (Option Json);
  get_item = λ s. some s;
  set_item = λ s raw. some (some raw);
  remove_item = λ s. some none;
  get_item-set_item = λ s t raw h. read_back t raw h;
  get_item-remove_item = λ s t h. read_absent t h;
}

abbrev fresh : Window plain_codec one_cell
fresh = record { local_storage = none; cart_changed_events = 0 }
