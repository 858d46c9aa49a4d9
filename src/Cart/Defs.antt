-- ===== src/Cart/Defs.antt =====
-- The cart value and its operations. A quantity is a natural number and a price an integer; both
-- carry the bounds that the source checks. An array index is a natural number, and an index
-- behind the end selects nothing.
use restaurant_engine.Prelude.{
  ℕ, zero, suc, ◌+◌, min, Bool, true, false, ◌&&◌, ◌||◌, Option, none, some, List, [], ◌∷◌, ◌++◌,
  map, leb, ltb, length, if◌then◌else◌,
}
use restaurant_engine.Prelude.Int.{ℤ, pos}
use restaurant_engine.Prelude.Text.{Text, text_eq, text_le}
use restaurant_engine.Prelude.Sorting.{sort}
use restaurant_engine.Prelude.Splitting.{join}
use restaurant_engine.Js.{Number, int}

abbrev pub schema_version : ℕ
schema_version = 1

abbrev pub max_cart_lines : ℕ
max_cart_lines = 30

abbrev pub max_line_quantity : ℕ
max_line_quantity = 50

pub record CartOption : Type 0 where
  pub group_id : Text
  pub group_name : Text
  pub option_id : Text
  pub option_name : Text
  pub price_delta_minor : ℤ

pub record CartLine : Type 0 where
  pub item_id : Text
  pub name : Text
  pub base_price_minor : ℤ
  pub quantity : ℕ
  pub item_instructions : Option Text
  pub options : List CartOption

-- `schema_version` has a singleton type in the source, and is left out.
pub record Cart : Type 0 where
  pub lines : List CartLine

abbrev pub empty_cart : Cart
empty_cart = record { lines = [] }

abbrev pub option_ids : CartLine → List Text
option_ids line = map (λ o. o.option_id) line.options

unfoldable pub sorted_option_ids : CartLine → Text
sorted_option_ids line = join b',' (sort text_le (option_ids line))

-- `a === b` on `string | null`
unfoldable pub same_instructions : Option Text → Option Text → Bool
same_instructions none none = true
same_instructions none (some t) = false
same_instructions (some s) none = false
same_instructions (some s) (some t) = text_eq s t

unfoldable pub same_choice : CartLine → CartLine → Bool
same_choice a b =
    text_eq a.item_id b.item_id
    && same_instructions a.item_instructions b.item_instructions
    && text_eq (sorted_option_ids a) (sorted_option_ids b)

module _ {ℓ} {A : Type ℓ} where
  -- `findIndex`, with `none` for -1
  unfoldable pub find_index : (A → Bool) → List A → Option ℕ
  find_index p [] = none
  find_index p (x ∷ xs) =
      if p x then some 0 else elim (find_index p xs) [ none ↦ none | some i ↦ some (suc i) ]

  -- `xs.map((x, i) => (i === index ? f(x) : x))`
  unfoldable pub map_at : ℕ → (A → A) → List A → List A
  map_at i f [] = []
  map_at zero f (x ∷ xs) = f x ∷ xs
  map_at (suc i) f (x ∷ xs) = x ∷ map_at i f xs

  -- `xs.filter((_, i) => i !== index)`
  unfoldable pub filter_at : ℕ → List A → List A
  filter_at i [] = []
  filter_at zero (x ∷ xs) = xs
  filter_at (suc i) (x ∷ xs) = x ∷ filter_at i xs

abbrev pub merge : ℕ → CartLine → CartLine
merge q existing = record existing { quantity = min (existing.quantity + q) max_line_quantity }

unfoldable pub add_line : Cart → CartLine → Cart × Bool
unfolding find_index map_at
add_line cart line = elim (find_index (λ existing. same_choice existing line) cart.lines) [
  | some index ↦ (record { lines = map_at index (merge line.quantity) cart.lines }, true)
  | none ↦
      if leb max_cart_lines (length cart.lines)
      then (cart, false)
      else (record { lines = cart.lines ++ line ∷ [] }, true)
]

unfoldable pub remove_line : Cart → ℕ → Cart
unfolding filter_at
remove_line cart index = record { lines = filter_at index cart.lines }

-- The requested quantity is any JavaScript number.
unfoldable pub set_line_quantity : Cart → ℕ → Number → Cart
unfolding map_at
set_line_quantity cart index (int (pos quantity)) =
    if ltb quantity 1 || ltb max_line_quantity quantity
    then cart
    else record { lines = map_at index (λ line. record line { quantity = quantity }) cart.lines }
set_line_quantity cart index _ = cart

-- The loop of `cartItemCount`; the sum is of naturals below 2^53.
unfoldable pub item_count_from : ℕ → List CartLine → ℕ
item_count_from sum [] = sum
item_count_from sum (line ∷ lines) = item_count_from (sum + line.quantity) lines

unfoldable pub cart_item_count : Cart → ℕ
unfolding item_count_from
cart_item_count cart = item_count_from 0 cart.lines

pub record PlacementLine : Type 0 where
  pub item_id : Text
  pub quantity : ℕ
  pub option_ids : List Text
  pub item_instructions : Option Text

abbrev pub placement_line : CartLine → PlacementLine
placement_line line = record {
  item_id = line.item_id;
  quantity = line.quantity;
  option_ids = option_ids line;
  item_instructions = line.item_instructions;
}

unfoldable pub to_placement_lines : Cart → List PlacementLine
to_placement_lines cart = map placement_line cart.lines
