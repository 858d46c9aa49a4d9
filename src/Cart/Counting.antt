-- ===== src/Cart/Counting.antt =====
-- What removing a line and changing a quantity do to the count and the sum of the cart.
use restaurant_engine.Prelude.{
  ℕ, zero, suc, ◌+◌, none, some, List, [], ◌∷◌, ◌≡◌, refl, ap, arith, get_elem?, Option-cases, ◌⊎◌,
  inl, inr,
}
use restaurant_engine.Prelude.Int.{◌+ℤ◌, +ℤ_parts, eq_of_parts}
use restaurant_engine.Cart.Defs.{
  CartLine, Cart, filter_at, remove_line, item_count_from, cart_item_count,
}
use restaurant_engine.Cart.Totals.{line_sum, cart_sum}

abbrev pub item_count : List CartLine → ℕ
item_count [] = 0
item_count (line ∷ lines) = line.quantity + item_count lines

item_count_from_lem :
    (sum : ℕ) (lines : List CartLine) → item_count_from sum lines ≡ sum + item_count lines
unfolding item_count_from
item_count_from_lem sum [] = omega arith
item_count_from_lem sum (line ∷ lines) =
    omega (arith, item_count_from_lem (sum + line.quantity) lines)

cart_item_count_lem : (cart : Cart) → cart_item_count cart ≡ item_count cart.lines
unfolding cart_item_count
cart_item_count_lem cart = omega (arith, item_count_from_lem 0 cart.lines)

item_count-filter_at :
    (i : ℕ) (lines : List CartLine) {line : CartLine}
    → get_elem? lines i ≡ some line
    → item_count (filter_at i lines) + line.quantity ≡ item_count lines
unfolding filter_at
item_count-filter_at i [] h = cc
item_count-filter_at zero (x ∷ lines) h = ground arith
item_count-filter_at (suc i) (x ∷ lines) h = omega (arith, item_count-filter_at i lines h)

cart_sum-filter_at :
    (i : ℕ) (lines : List CartLine) {line : CartLine}
    → get_elem? lines i ≡ some line
    → line_sum line +ℤ cart_sum (filter_at i lines) ≡ cart_sum lines
unfolding filter_at
cart_sum-filter_at i [] h = cc
cart_sum-filter_at zero (x ∷ lines) {line} h = cc
cart_sum-filter_at (suc i) (x ∷ lines) {line} h =
    let rest = cart_sum-filter_at i lines h in
    rw (← rest) (eq_of_parts _ _ (omega (arith, +ℤ_parts)))

filter_at_outside :
    (i : ℕ) (lines : List CartLine) → get_elem? lines i ≡ none → filter_at i lines ≡ lines
unfolding filter_at
filter_at_outside i [] h = refl
filter_at_outside zero (x ∷ lines) h = cc
filter_at_outside (suc i) (x ∷ lines) h = ap (λ ls. x ∷ ls) (filter_at_outside i lines h)

-- Removing the line at an index takes its quantity off the item count and its exact price off the
-- exact sum; an index behind the end changes nothing.
pub remove_line-counts :
    (cart : Cart) (i : ℕ)
    → ((get_elem? cart.lines i ≡ none) × (remove_line cart i ≡ cart))
      ⊎ ((line : CartLine) × (get_elem? cart.lines i ≡ some line)
          × (cart_item_count (remove_line cart i) + line.quantity ≡ cart_item_count cart)
          × (line_sum line +ℤ cart_sum (remove_line cart i).lines ≡ cart_sum cart.lines))
unfolding remove_line
remove_line-counts cart i = elim (Option-cases (get_elem? cart.lines i)) [
  | inl outside ↦
      inl (outside, ap (λ ls. record { lines = ls }) (filter_at_outside i cart.lines outside))
  | inr (line, inside) ↦ inr (
    line,
    inside,
    omega (
      arith,
      cart_item_count_lem cart,
      cart_item_count_lem (remove_line cart i),
      item_count-filter_at i cart.lines inside,
    ),
    cart_sum-filter_at i cart.lines inside,
  )
]
