-- ===== src/Cart/Totals.antt =====
-- The displayed totals (`lineTotalMinor`, `cartTotalMinor`).
use restaurant_engine.Prelude.{All, ℕ, ◌+◌, ◌*◌, ◌≤◌, List, [], ◌∷◌, ◌≡◌, sym, ◌∙◌, arith}
use restaurant_engine.Prelude.Int.{ℤ, pos, abs, ◌+ℤ◌, ◌*ℤ◌, abs-+ℤ-le, abs-*ℤ, +ℤ_assoc, +ℤ_comm}
use restaurant_engine.Js.{js_add, js_mul, js_add_exact, js_mul_exact, max_safe}
use restaurant_engine.Cart.Defs.{CartOption, CartLine, Cart}

-- `line.options.reduce((sum, option) => sum + option.price_delta_minor, sum)`
unfoldable pub options_total_from : ℤ → List CartOption → ℤ
options_total_from sum [] = sum
options_total_from sum (option ∷ options) =
    options_total_from (js_add sum option.price_delta_minor) options

unfoldable pub line_total_minor : CartLine → ℤ
unfolding options_total_from
line_total_minor line =
    let unit = js_add line.base_price_minor (options_total_from (pos 0) line.options) in
    js_mul unit line.quantity

unfoldable pub cart_total_from : ℤ → List CartLine → ℤ
cart_total_from sum [] = sum
cart_total_from sum (line ∷ lines) = cart_total_from (js_add sum (line_total_minor line)) lines

unfoldable pub cart_total_minor : Cart → ℤ
unfolding cart_total_from
cart_total_minor cart = cart_total_from (pos 0) cart.lines

-- The exact sums.
abbrev pub options_sum : List CartOption → ℤ
options_sum [] = pos 0
options_sum (o ∷ os) = o.price_delta_minor +ℤ options_sum os

abbrev pub line_sum : CartLine → ℤ
line_sum line = (line.base_price_minor +ℤ options_sum line.options) *ℤ line.quantity

abbrev pub cart_sum : List CartLine → ℤ
cart_sum [] = pos 0
cart_sum (line ∷ lines) = line_sum line +ℤ cart_sum lines

-- Bounds on every sum on the way.
abbrev pub options_size : List CartOption → ℕ
options_size [] = 0
options_size (o ∷ os) = abs o.price_delta_minor + options_size os

abbrev pub line_size : CartLine → ℕ
line_size line = (abs line.base_price_minor + options_size line.options) * line.quantity

abbrev pub cart_size : List CartLine → ℕ
cart_size [] = 0
cart_size (line ∷ lines) = line_size line + cart_size lines

+ℤ_zero : (z : ℤ) → z +ℤ pos 0 ≡ z
unfolding ◌+ℤ◌
+ℤ_zero (ℤ.pos n) = ground arith
+ℤ_zero (ℤ.negsuc n) = ground arith

zero_+ℤ : (z : ℤ) → pos 0 +ℤ z ≡ z
zero_+ℤ z = +ℤ_comm _ _ ∙ +ℤ_zero z

options_sum-le : (os : List CartOption) → abs (options_sum os) ≤ options_size os
options_sum-le [] = omega arith
options_sum-le (o ∷ os) =
    omega (arith, abs-+ℤ-le o.price_delta_minor (options_sum os), options_sum-le os)

options_total_exact :
    (sum : ℤ) (os : List CartOption)
    → abs sum + options_size os ≤ max_safe
    → options_total_from sum os ≡ sum +ℤ options_sum os
unfolding options_total_from
options_total_exact sum [] h = sym (+ℤ_zero sum)
options_total_exact sum (o ∷ os) h =
    let small : abs (sum +ℤ o.price_delta_minor) ≤ abs sum + abs o.price_delta_minor =
      abs-+ℤ-le sum o.price_delta_minor in
    rw (js_add_exact sum o.price_delta_minor (omega arith)) (
      options_total_exact (sum +ℤ o.price_delta_minor) os (omega arith)
      ∙ +ℤ_assoc sum o.price_delta_minor (options_sum os))

*ℤ-le : (a : ℤ) (n s : ℕ) → abs a ≤ s → abs (a *ℤ n) ≤ s * n
*ℤ-le a n s h = rw (abs-*ℤ a n) (grind arith)

line_sum-le : (line : CartLine) → abs (line_sum line) ≤ line_size line
line_sum-le line = *ℤ-le _ line.quantity _ (
    omega (
      arith,
      abs-+ℤ-le line.base_price_minor (options_sum line.options),
      options_sum-le line.options,
    ))

-- Where the unit price counts at all, its bound is below that of the line.
unit_small : (u q : ℕ) → 1 ≤ q → u * q ≤ max_safe → u ≤ max_safe
unit_small u q h k = grind arith

line_total_exact :
    (line : CartLine)
    → 1 ≤ line.quantity
    → line_size line ≤ max_safe
    → line_total_minor line ≡ line_sum line
unfolding line_total_minor
line_total_exact line h k =
    let small =
      unit_small (abs line.base_price_minor + options_size line.options) line.quantity h k in
    let unit = abs-+ℤ-le line.base_price_minor (options_sum line.options) in
    let fits = options_sum-le line.options in
    rw (options_total_exact (pos 0) line.options (omega arith), zero_+ℤ (options_sum line.options))
      (rw (js_add_exact line.base_price_minor (options_sum line.options) (omega arith))
        (js_mul_exact _ line.quantity (omega (arith, line_sum-le line))))

abbrev pub IsOrdered : CartLine → Type 0
IsOrdered line = 1 ≤ line.quantity

cart_total_from_exact :
    (sum : ℤ) (lines : List CartLine)
    → All IsOrdered lines
    → abs sum + cart_size lines ≤ max_safe
    → cart_total_from sum lines ≡ sum +ℤ cart_sum lines
unfolding cart_total_from
cart_total_from_exact sum [] o h = sym (+ℤ_zero sum)
cart_total_from_exact sum (line ∷ lines) (q, qs) h =
    let small = abs-+ℤ-le sum (line_sum line) in
    let fits = line_sum-le line in
    rw (line_total_exact line q (omega arith)) (
      rw (js_add_exact sum (line_sum line) (omega arith)) (
        cart_total_from_exact (sum +ℤ line_sum line) lines qs (omega arith)
        ∙ +ℤ_assoc sum (line_sum line) (cart_sum lines)))

-- The displayed cart total is the exact sum over the lines of (base + option deltas) × quantity,
-- when every quantity is at least 1 and the amounts' absolute values add up to a safe integer.
pub cart_total_exact :
    (cart : Cart)
    → All IsOrdered cart.lines
    → cart_size cart.lines ≤ max_safe
    → cart_total_minor cart ≡ cart_sum cart.lines
unfolding cart_total_minor
cart_total_exact cart o h =
    cart_total_from_exact (pos 0) cart.lines o (omega arith) ∙ zero_+ℤ (cart_sum cart.lines)
