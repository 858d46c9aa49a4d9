-- ===== src/Reorder.antt =====
-- The reorder controls of the menu workspace (apps/control-center/src/menu/reorder.ts).
pub mod Laws
mod Tests
use restaurant_engine.Prelude.{
  ℕ, suc, ◌+◌, ◌-◌, Bool, ◌&&◌, ◌||◌, Option, none, some, List, [], ◌∷◌, ◌++◌, length, take, drop,
  get_elem?, leb, ◌==◌, true, false, if◌then◌else◌,
}
use restaurant_engine.Prelude.Int.{ℤ, pos, negsuc, ◌+ℤ◌}
use restaurant_engine.Prelude.Text.{Text, text_eq}

module _ {ℓ} {A : Type ℓ} where
  -- What `next.splice(i, 1)` leaves, for an index in range.
  unfoldable pub splice_out : ℕ → List A → List A
  splice_out i next = take i next ++ drop (suc i) next

  -- `next.splice(i, 0, x)`
  unfoldable pub splice_in : ℕ → A → List A → List A
  splice_in i x next = take i next ++ (x ∷ drop i next)

  -- `moveTo` behind its range check. The element is undefined only out of range.
  unfoldable pub move_within : List A → ℕ → ℕ → List A
  unfolding splice_out splice_in
  move_within items from to = elim (get_elem? items from) [
    | none ↦ items
    | some moved ↦ splice_in to moved (splice_out from items)
  ]

  -- A negative index, or one behind the end, moves nothing.
  unfoldable pub move_to : List A → ℤ → ℤ → List A
  unfolding move_within
  move_to items (pos from) (pos to) =
      if leb (length items) from || leb (length items) to then items else move_within items from to
  move_to items _ _ = items

  unfoldable pub move_up : List A → ℤ → List A
  unfolding move_to
  move_up items index = move_to items index (index +ℤ negsuc 0)

  unfoldable pub move_down : List A → ℤ → List A
  unfolding move_to
  move_down items index = move_to items index (index +ℤ pos 1)

-- `a.every((value, index) => value === b[index])`
unfoldable pub agrees : List Text → List Text → Bool
agrees [] b = true
agrees (x ∷ a) [] = false
agrees (x ∷ a) (y ∷ b) = text_eq x y && agrees a b

unfoldable pub same_order : List Text → List Text → Bool
unfolding agrees
same_order a b = length a == length b && agrees a b
