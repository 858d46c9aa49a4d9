-- ===== src/Cart/Validity.antt =====
-- The bounds that a cart keeps, and that a cart that was read back is within them.
use restaurant_engine.Prelude.{
  ◌≤◌, Bool, true, Option, none, some, List, [], ◌∷◌, map, ◌≡◌, arith, length, length-map, all, All,
  ltb, Bool-cases, Option-cases, &&-parts, inl, inr,
}
use restaurant_engine.Prelude.Int.{abs, is_nonneg}
use restaurant_engine.Js.{max_safe, Json, arr, Codec, to_list, get, is_object}
use restaurant_engine.Cart.Defs.{
  CartOption, CartLine, Cart, empty_cart, max_cart_lines, max_line_quantity,
}
use restaurant_engine.Cart.Validate.{
  is_cart_option, is_cart_line, is_array_of, list_of, is_current, checked_lines, as_cart_option,
  as_cart_line, parse_value, parse_cart,
}

abbrev pub IsValidOption : CartOption → Type 0
IsValidOption o = abs o.price_delta_minor ≤ max_safe

-- The bounds of the ordering contract, on one line and on the cart.
pub record IsValidLine (line : CartLine) : Type 0 where
  pub price_safe : abs line.base_price_minor ≤ max_safe
  pub price_nonneg : is_nonneg line.base_price_minor ≡ true
  pub some_quantity : 1 ≤ line.quantity
  pub quantity_capped : line.quantity ≤ max_line_quantity
  pub deltas_safe : All IsValidOption line.options

pub record IsValid (cart : Cart) : Type 0 where
  pub lines_capped : length cart.lines ≤ max_cart_lines
  pub lines_valid : All IsValidLine cart.lines

all-map {ℓ κ} :
    {A : Type ℓ} {B : Type κ} (P : B → Type 0) (p : A → Bool) (f : A → B)
    → ((a : A) → p a ≡ true → P (f a))
    → (xs : List A) → all p xs ≡ true
    → All P (map f xs)
all-map P p f h [] e = tt
all-map P p f h (x ∷ xs) e =
    let (here, later) = &&-parts (p x) (all p xs) e in (h x here, all-map P p f h xs later)

as_cart_option-IsValid : (v : Json) → is_cart_option v ≡ true → IsValidOption (as_cart_option v)
unfolding is_cart_option as_cart_option
as_cart_option-IsValid v h = ground arith

array_parts :
    (p : Json → Bool) (v : Option Json) → is_array_of p v ≡ true → all p (list_of v) ≡ true
array_parts p v h = ground arith

as_cart_line-IsValid : (v : Json) → is_cart_line v ≡ true → IsValidLine (as_cart_line v)
unfolding is_cart_line as_cart_line
as_cart_line-IsValid v h = record {
  price_safe = ground arith;
  price_nonneg = ground arith;
  some_quantity = ground arith;
  quantity_capped = ground arith;
  deltas_safe =
      all-map IsValidOption is_cart_option as_cart_option as_cart_option-IsValid _
        (array_parts is_cart_option (get "options" v) (ground arith));
}

checked_lines-IsValid : (vs : List Json) → IsValid (checked_lines vs)
checked_lines-IsValid vs = elim (Bool-cases (all is_cart_line vs)) [
  | inr bad ↦ rw bad (record { lines_capped = omega arith; lines_valid = tt })
  | inl good ↦ elim (Bool-cases (ltb max_cart_lines (length vs))) [
    | inl long ↦ rw (good, long) (record { lines_capped = omega arith; lines_valid = tt })
    | inr fits ↦
        rw (good, fits)
          (record {
            lines_capped = rw (length-map as_cart_line vs) (ground arith);
            lines_valid =
                all-map IsValidLine is_cart_line as_cart_line as_cart_line-IsValid vs good;
          })
  ]
]

pub empty-IsValid : IsValid empty_cart
empty-IsValid = record { lines_capped = omega arith; lines_valid = tt }

lines-IsValid :
    (lines : Option Json)
    → IsValid (elim lines [
      | some vs ↦ elim vs [ arr vs ↦ checked_lines (to_list vs) | _ ↦ empty_cart ]
      | none ↦ empty_cart
    ])
lines-IsValid none = empty-IsValid
lines-IsValid (some (arr vs)) = checked_lines-IsValid (to_list vs)
lines-IsValid (some _) = empty-IsValid

parse_value-IsValid : (v : Json) → IsValid (parse_value v)
unfolding parse_value
parse_value-IsValid v = elim (Bool-cases (is_object v)) [
  | inr bad ↦ rw bad empty-IsValid
  | inl good ↦ rw good (elim (Bool-cases (is_current (get "schema_version" v))) [
    | inr bad ↦ rw bad empty-IsValid
    | inl current ↦ rw current (lines-IsValid (get "lines" v))
  ])
]

-- Whatever stands in the storage, the cart read from it is within the bounds of the contract: at
-- most 30 lines, quantities from 1 to 50, safe prices, and no negative base price.
pub parse_cart-IsValid : (json : Codec) (raw : Option json.Raw) → IsValid (parse_cart json raw)
unfolding parse_cart
parse_cart-IsValid json none = empty-IsValid
parse_cart-IsValid json (some raw) = elim (Option-cases (json.parse raw)) [
  | inl failed ↦ rw (failed, parse_cart) empty-IsValid
  | inr (v, read) ↦ rw (read, parse_cart) (parse_value-IsValid v)
]
