-- ===== src/Cart/Quantities.antt =====
-- The cart as a map from choices to quantities, and what adding a line does to it.
use restaurant_engine.Prelude.{
  ℕ, suc, ◌+◌, ◌≤◌, ◌<◌, min, Bool, true, false, none, some, List, [], ◌∷◌, ◌++◌, ◌≡◌, refl, arith,
  ◌⊎◌, leb→le, length, leb, Bool-cases, Option-cases, inl, inr, if◌then◌else◌,
}
use restaurant_engine.Cart.Defs.{
  CartLine, Cart, max_cart_lines, max_line_quantity, find_index, map_at, merge, same_choice,
  add_line,
}
use restaurant_engine.Cart.Adding.{add_line_merged, add_line_full, add_line_appended}
use restaurant_engine.Cart.Choice.{same_choice-subst, same_choice_symm, same_choice-merge}

-- The quantity of a choice: that of the first line with it, or 0.
abbrev pub quantity_of : CartLine → List CartLine → ℕ
quantity_of choice [] = 0
quantity_of choice (line ∷ lines) =
    if same_choice line choice then line.quantity else quantity_of choice lines

module _ {ℓ} {A : Type ℓ} (p : A → Bool) (x : A) (xs : List A) {i : ℕ} where
  find_index-here : p x ≡ true → find_index p (x ∷ xs) ≡ some i → i ≡ 0
  unfolding find_index
  find_index-here e h = ground arith

  find_index-there :
      p x ≡ false
      → find_index p (x ∷ xs) ≡ some i
      → (j : ℕ) × (i ≡ suc j) × (find_index p xs ≡ some j)
  unfolding find_index
  find_index-there e h = elim (Option-cases (find_index p xs)) [
    | inl absent ↦ absurd (ground arith)
    | inr (j, found) ↦ (j, ground arith, found)
  ]

quantity_of-merged :
    (line choice : CartLine) (lines : List CartLine) (i : ℕ)
    → find_index (λ existing. same_choice existing line) lines ≡ some i
    → quantity_of choice (map_at i (merge line.quantity) lines) ≡ (
        if same_choice line choice
        then min (quantity_of line lines + line.quantity) max_line_quantity
        else quantity_of choice lines)
unfolding map_at
quantity_of-merged line choice [] i h = absurd (unfold find_index in ground arith)
quantity_of-merged line choice (x ∷ lines) i h = elim (Bool-cases (same_choice x line)) [
  | inl same ↦ rw (find_index-here _ x lines same h) (
      ground (
        arith,
        same,
        same_choice-merge line.quantity x choice,
        same_choice-subst x line choice same,
      ))
  | inr differs ↦
      let (j, e, found) = find_index-there _ x lines differs h in
      rw e (
        ground (
          arith,
          differs,
          quantity_of-merged line choice lines j found,
          same_choice_symm line x,
          same_choice-subst line choice x,
          same_choice_symm x choice,
        ))
]

quantity_of-appended :
    (line choice : CartLine) (lines : List CartLine)
    → find_index (λ existing. same_choice existing line) lines ≡ none
    → (quantity_of line lines ≡ 0)
      × (quantity_of choice (lines ++ line ∷ [])
          ≡ (if same_choice line choice then line.quantity else quantity_of choice lines))
unfolding find_index
quantity_of-appended line choice [] h = ground arith
quantity_of-appended line choice (x ∷ lines) h = ground (
  arith,
  quantity_of-appended line choice lines,
  same_choice_symm line x,
  same_choice-subst line choice x,
  same_choice_symm x choice,
)

-- Adding a line of at most 50 either is refused, where the cart has no line of the same choice and
-- 30 lines or more, and leaves the cart as it was, or is accepted, where the cart has a line of the
-- same choice or fewer than 30 lines: then the quantity of the added choice grows by that of the
-- line, up to 50, and no other choice's quantity changes.
pub add_line-quantity_of :
    (cart : Cart) (line choice : CartLine)
    → line.quantity ≤ max_line_quantity
    → (((add_line cart line).1 ≡ false)
        × (find_index (λ existing. same_choice existing line) cart.lines ≡ none)
        × (max_cart_lines ≤ length cart.lines)
        × ((add_line cart line).0 ≡ cart))
      ⊎ (((add_line cart line).1 ≡ true)
          × (((i : ℕ) × (find_index (λ existing. same_choice existing line) cart.lines ≡ some i))
              ⊎ (length cart.lines < max_cart_lines))
          × (quantity_of choice (add_line cart line).0.lines ≡ (
              if same_choice line choice
              then min (quantity_of line cart.lines + line.quantity) max_line_quantity
              else quantity_of choice cart.lines)))
add_line-quantity_of cart line choice h =
    elim (Option-cases (find_index (λ existing. same_choice existing line) cart.lines)) [
      | inr (i, found) ↦
          rw (add_line_merged cart line i found)
            (inr (refl, inl (i, found), quantity_of-merged line choice cart.lines i found))
      | inl new ↦ elim (Bool-cases (leb max_cart_lines (length cart.lines))) [
        | inl full ↦ rw (add_line_full cart line new full) (inl (refl, new, leb→le _ _ full, refl))
        | inr room ↦
            let (absent, appended) = quantity_of-appended line choice cart.lines new in
            rw (add_line_appended cart line new room)
              (inr (refl, inr (ground arith), ground (arith, absent, appended)))
      ]
    ]
