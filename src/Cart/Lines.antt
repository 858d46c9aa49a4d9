-- ===== src/Cart/Lines.antt =====
-- What the operations on lines keep: the bounds of the contract, and the other lines.
use restaurant_engine.Prelude.{
  ℕ, zero, suc, ◌≤◌, false, ◌||◌, List, [], ◌∷◌, ◌≡◌, refl, ap, arith, length, length-append, All,
  All-append, leb, ltb, Bool-cases, Option-cases, inl, inr,
}
use restaurant_engine.Prelude.Int.{pos}
use restaurant_engine.Js.{Number, int}
use restaurant_engine.Cart.Defs.{
  CartLine, Cart, max_cart_lines, max_line_quantity, find_index, map_at, filter_at, merge,
  same_choice, add_line, remove_line, set_line_quantity,
}
use restaurant_engine.Cart.Adding.{add_line_merged, add_line_full, add_line_appended}
use restaurant_engine.Cart.Validity.{IsValidLine, IsValid}

module _ {ℓ} {A : Type ℓ} where
  length-map_at : (i : ℕ) (f : A → A) (xs : List A) → length (map_at i f xs) ≡ length xs
  unfolding map_at
  length-map_at i f [] = refl
  length-map_at zero f (x ∷ xs) = refl
  length-map_at (suc i) f (x ∷ xs) = ap suc (length-map_at i f xs)

  length-filter_at-le : (i : ℕ) (xs : List A) → length (filter_at i xs) ≤ length xs
  unfolding filter_at
  length-filter_at-le i [] = omega arith
  length-filter_at-le zero (x ∷ xs) = omega arith
  length-filter_at-le (suc i) (x ∷ xs) = omega (arith, length-filter_at-le i xs)

  pub All-map_at :
      (P : A → Type 0) (i : ℕ) (f : A → A) (xs : List A)
      → ((x : A) → P x → P (f x))
      → All P xs
      → All P (map_at i f xs)
  unfolding map_at
  All-map_at P i f [] h v = tt
  All-map_at P zero f (x ∷ xs) h (p, v) = (h x p, v)
  All-map_at P (suc i) f (x ∷ xs) h (p, v) = (p, All-map_at P i f xs h v)

  pub All-filter_at : (P : A → Type 0) (i : ℕ) (xs : List A) → All P xs → All P (filter_at i xs)
  unfolding filter_at
  All-filter_at P i [] v = tt
  All-filter_at P zero (x ∷ xs) (p, v) = v
  All-filter_at P (suc i) (x ∷ xs) (p, v) = (p, All-filter_at P i xs v)

merge-IsValidLine :
    (q : ℕ) → 1 ≤ q → (line : CartLine) → IsValidLine line → IsValidLine (merge q line)
merge-IsValidLine q h line v = record {
  price_safe = v.price_safe;
  price_nonneg = v.price_nonneg;
  some_quantity = omega arith;
  quantity_capped = omega arith;
  deltas_safe = v.deltas_safe;
}

-- Adding a line within the bounds keeps the cart within them, whether the line is merged into an
-- equal choice, appended, or refused.
pub add_line-IsValid :
    (cart : Cart) (line : CartLine)
    → IsValid cart
    → IsValidLine line
    → IsValid (add_line cart line).0
add_line-IsValid cart line v l =
    elim (Option-cases (find_index (λ existing. same_choice existing line) cart.lines)) [
      | inr (i, found) ↦ rw (add_line_merged cart line i found) (record {
        lines_capped = rw (length-map_at i (merge line.quantity) cart.lines) v.lines_capped;
        lines_valid =
            All-map_at IsValidLine i (merge line.quantity) cart.lines
              (merge-IsValidLine line.quantity l.some_quantity) v.lines_valid;
      })
      | inl new ↦ elim (Bool-cases (leb max_cart_lines (length cart.lines))) [
        | inl full ↦ rw (add_line_full cart line new full) v
        | inr room ↦ rw (add_line_appended cart line new room) (record {
          lines_capped = rw (length-append cart.lines (line ∷ [])) (ground arith);
          lines_valid = All-append IsValidLine cart.lines (line ∷ []) v.lines_valid (l, tt);
        })
      ]
    ]

-- Removing a line keeps the cart within the bounds.
pub remove_line-IsValid : (cart : Cart) (i : ℕ) → IsValid cart → IsValid (remove_line cart i)
unfolding remove_line
remove_line-IsValid cart i v = record {
  lines_capped = omega (arith, length-filter_at-le i cart.lines, v.lines_capped);
  lines_valid = All-filter_at IsValidLine i cart.lines v.lines_valid;
}

abbrev pub requantify : ℕ → CartLine → CartLine
requantify q line = record line { quantity = q }

requantify-IsValidLine :
    (q : ℕ)
    → (ltb q 1 || ltb max_line_quantity q) ≡ false
    → (line : CartLine) → IsValidLine line
    → IsValidLine (requantify q line)
requantify-IsValidLine q h line v = record {
  price_safe = v.price_safe;
  price_nonneg = v.price_nonneg;
  some_quantity = ground arith;
  quantity_capped = ground arith;
  deltas_safe = v.deltas_safe;
}

-- Whatever number is asked for, the cart stays within the bounds.
pub set_line_quantity-IsValid :
    (cart : Cart) (i : ℕ) (n : Number) → IsValid cart → IsValid (set_line_quantity cart i n)
unfolding set_line_quantity
set_line_quantity-IsValid cart i (int (pos q)) v =
    elim (Bool-cases (ltb q 1 || ltb max_line_quantity q)) [
      | inl out ↦ rw out v
      | inr within ↦ rw within (record {
        lines_capped = rw (length-map_at i (requantify q) cart.lines) v.lines_capped;
        lines_valid =
            All-map_at IsValidLine i (requantify q) cart.lines
              (λ l valid. requantify-IsValidLine q within l valid) v.lines_valid;
      })
    ]
set_line_quantity-IsValid cart i _ v = v
