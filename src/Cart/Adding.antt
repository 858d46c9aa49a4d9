-- ===== src/Cart/Adding.antt =====
-- The three ways in which `addLine` ends.
use restaurant_engine.Prelude.{ℕ, true, false, none, some, [], ◌∷◌, ◌++◌, ◌≡◌, leb, length}
use restaurant_engine.Cart.Defs.{
  CartLine, Cart, max_cart_lines, find_index, map_at, merge, same_choice, add_line,
}

module _ (cart : Cart) (line : CartLine) where
  pub add_line_merged :
      (i : ℕ)
      → find_index (λ existing. same_choice existing line) cart.lines ≡ some i
      → add_line cart line ≡ (record { lines = map_at i (merge line.quantity) cart.lines }, true)
  unfolding add_line
  add_line_merged i found = rw (found, add_line)

  pub add_line_full :
      find_index (λ existing. same_choice existing line) cart.lines ≡ none
      → leb max_cart_lines (length cart.lines) ≡ true
      → add_line cart line ≡ (cart, false)
  unfolding add_line
  add_line_full new full = rw (new, add_line) (rw full)

  pub add_line_appended :
      find_index (λ existing. same_choice existing line) cart.lines ≡ none
      → leb max_cart_lines (length cart.lines) ≡ false
      → add_line cart line ≡ (record { lines = cart.lines ++ line ∷ [] }, true)
  unfolding add_line
  add_line_appended new room = rw (new, add_line) (rw room)
