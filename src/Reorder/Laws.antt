-- ===== src/Reorder/Laws.antt =====
-- Every move is a permutation, takes one element to its new place, and can be undone.
use mathlib.Core.List.{Perm}
use mathlib.Core.List.Perm
use restaurant_engine.Prelude.{
  ℕ, zero, suc, ◌+◌, ◌-◌, ◌≤◌, ◌<◌, true, false, ◌||◌, some, List, [], ◌∷◌, ◌≡◌, refl, sym, ap, ◌∙◌,
  ◌↔◌, inl, inr, arith, length, get_elem?, leb, Bool-cases, Option-cases,
}
use restaurant_engine.Prelude.Int.{ℤ, pos, negsuc, ◌+ℤ◌}
use restaurant_engine.Prelude.Text.{Text, text_eq_iff, text_eq_refl}
use restaurant_engine.Reorder.{
  splice_out, splice_in, move_within, move_to, move_up, move_down, agrees, same_order,
}

one_more : (i : ℕ) → pos i +ℤ pos 1 ≡ pos (i + 1)
unfolding ◌+ℤ◌
one_more i = ground arith

one_less : (i : ℕ) → pos (i + 1) +ℤ negsuc 0 ≡ pos i
unfolding ◌+ℤ◌
one_less i = ground arith

before_first : pos 0 +ℤ negsuc 0 ≡ negsuc 0
unfolding ◌+ℤ◌
before_first = refl

module _ {ℓ} {A : Type ℓ} where
  splice_in-perm : (i : ℕ) (x : A) (xs : List A) → Perm (splice_in i x xs) (x ∷ xs)
  unfolding splice_in
  splice_in-perm zero x xs = Perm.refl _
  splice_in-perm (suc i) x [] = Perm.refl _
  splice_in-perm (suc i) x (y ∷ xs) =
      Perm.trans (Perm.cons y (splice_in-perm i x xs)) (Perm.swap x y xs)

  -- Taking an element out and putting it back at its place.
  splice_in-splice_out :
      (i : ℕ) (x : A) (xs : List A) → get_elem? xs i ≡ some x → splice_in i x (splice_out i xs) ≡ xs
  unfolding splice_in splice_out
  splice_in-splice_out i x [] h = cc
  splice_in-splice_out zero x (y ∷ xs) h = cc
  splice_in-splice_out (suc i) x (y ∷ xs) h = ap (λ l. y ∷ l) (splice_in-splice_out i x xs h)

  splice_out-splice_in :
      (i : ℕ) (x : A) (xs : List A) → i ≤ length xs → splice_out i (splice_in i x xs) ≡ xs
  unfolding splice_in splice_out
  splice_out-splice_in zero x xs h = refl
  splice_out-splice_in (suc i) x [] h = absurd (omega arith)
  splice_out-splice_in (suc i) x (y ∷ xs) h =
      ap (λ l. y ∷ l) (splice_out-splice_in i x xs (omega arith))

  get_elem?-splice_in :
      (i : ℕ) (x : A) (xs : List A) → i ≤ length xs → get_elem? (splice_in i x xs) i ≡ some x
  unfolding splice_in
  get_elem?-splice_in zero x xs h = refl
  get_elem?-splice_in (suc i) x [] h = absurd (omega arith)
  get_elem?-splice_in (suc i) x (y ∷ xs) h = get_elem?-splice_in i x xs (omega arith)

  length-splice_out :
      (i : ℕ) (xs : List A) → i < length xs → length (splice_out i xs) + 1 ≡ length xs
  unfolding splice_out
  length-splice_out i [] h = absurd (omega arith)
  length-splice_out zero (y ∷ xs) h = omega arith
  length-splice_out (suc i) (y ∷ xs) h = omega (arith, length-splice_out i xs (omega arith))

  length-splice_in : (i : ℕ) (x : A) (xs : List A) → length (splice_in i x xs) ≡ length xs + 1
  unfolding splice_in
  length-splice_in zero x xs = omega arith
  length-splice_in (suc i) x [] = omega arith
  length-splice_in (suc i) x (y ∷ xs) = omega (arith, length-splice_in i x xs)

  elem_of_lt : (i : ℕ) (xs : List A) → i < length xs → (x : A) × (get_elem? xs i ≡ some x)
  elem_of_lt i [] h = absurd (omega arith)
  elem_of_lt zero (y ∷ xs) h = (y, refl)
  elem_of_lt (suc i) (y ∷ xs) h = elem_of_lt i xs (omega arith)

  move_within_lem :
      (xs : List A) (from to : ℕ) (x : A)
      → get_elem? xs from ≡ some x
      → move_within xs from to ≡ splice_in to x (splice_out from xs)
  unfolding move_within
  move_within_lem xs from to x h = rw (h, move_within)

  move_within-perm : (xs : List A) (from to : ℕ) → Perm (move_within xs from to) xs
  move_within-perm xs from to = elim (Option-cases (get_elem? xs from)) [
    | inl absent ↦ unfold move_within in rw (absent, move_within) (Perm.refl xs)
    | inr (x, found) ↦ rw (move_within_lem xs from to x found) (
        Perm.trans (splice_in-perm to x (splice_out from xs)) (
          Perm.trans (Perm.symm (splice_in-perm from x (splice_out from xs)))
            (rw (splice_in-splice_out from x xs found) (Perm.refl xs))))
  ]

  -- Every move gives a permutation of the items, whatever the two indices.
  pub move_to-perm : (items : List A) (from to : ℤ) → Perm (move_to items from to) items
  unfolding move_to
  move_to-perm items (pos from) (pos to) =
      elim (Bool-cases (leb (length items) from || leb (length items) to)) [
        | inl out ↦ rw out (Perm.refl items)
        | inr within ↦ rw within (move_within-perm items from to)
      ]
  move_to-perm items (negsuc from) to = Perm.refl items
  move_to-perm items (pos from) (negsuc to) = Perm.refl items

  move_to_within :
      (xs : List A) (from to : ℕ)
      → from < length xs
      → to < length xs
      → move_to xs (pos from) (pos to) ≡ move_within xs from to
  unfolding move_to
  move_to_within xs from to h k =
      let within : (leb (length xs) from || leb (length xs) to) ≡ false = ground arith in rw within

  -- Where the two indices are in range, the element at `from` comes to stand at `to`, the others
  -- keep their order, and the move back restores the list.
  pub move_to_places :
      (items : List A) (from to : ℕ)
      → from < length items
      → to < length items
      → (get_elem? (move_to items (pos from) (pos to)) to ≡ get_elem? items from)
        × (splice_out to (move_to items (pos from) (pos to)) ≡ splice_out from items)
        × (move_to (move_to items (pos from) (pos to)) (pos to) (pos from) ≡ items)
  move_to_places items from to h k =
      let (x, found) = elem_of_lt from items h in
      let others = splice_out from items in
      let moved : move_to items (pos from) (pos to) ≡ splice_in to x others =
        move_to_within items from to h k ∙ move_within_lem items from to x found in
      let others_length = length-splice_out from items h in
      let fits : to ≤ length others = omega arith in
      let there = get_elem?-splice_in to x others fits in
      let back : move_to (splice_in to x others) (pos to) (pos from) ≡ items =
        move_to_within (splice_in to x others) to from (omega (arith, length-splice_in to x others))
          (omega (arith, length-splice_in to x others))
        ∙ move_within_lem (splice_in to x others) to from x there
        ∙ ap (splice_in from x) (splice_out-splice_in to x others fits)
        ∙ splice_in-splice_out from x items found in
      rw moved (there ∙ sym found, splice_out-splice_in to x others fits, back)

  move_to_outside :
      (xs : List A) (from to : ℕ) → length xs ≤ to → move_to xs (pos from) (pos to) ≡ xs
  unfolding move_to
  move_to_outside xs from to h =
      let out : (leb (length xs) from || leb (length xs) to) ≡ true = ground arith in rw out

  move_to_negative : (xs : List A) (from to : ℕ) → move_to xs (pos from) (negsuc to) ≡ xs
  unfolding move_to
  move_to_negative xs from to = refl

  move_up_lem : (xs : List A) (z : ℤ) → move_up xs z ≡ move_to xs z (z +ℤ negsuc 0)
  unfolding move_up
  move_up_lem xs z = refl

  move_down_lem : (xs : List A) (z : ℤ) → move_down xs z ≡ move_to xs z (z +ℤ pos 1)
  unfolding move_down
  move_down_lem xs z = refl

  -- Moving a row down and then up again from its new place restores the list, for a row that is not
  -- the last; moving the first row up or the last row down changes nothing.
  pub move_down-move_up :
      (items : List A) (i : ℕ)
      → i + 1 < length items
      → (move_up (move_down items (pos i)) (pos (i + 1)) ≡ items)
        × (move_up items (pos 0) ≡ items)
        × (move_down items (pos (length items - 1)) ≡ items)
  move_down-move_up items i h =
      let last = length items - 1 in
      (
        move_up_lem _ (pos (i + 1))
            ∙ ap (move_to (move_down items (pos i)) (pos (i + 1))) (one_less i)
            ∙ ap (λ l. move_to l (pos (i + 1)) (pos i))
                (move_down_lem items (pos i) ∙ ap (move_to items (pos i)) (one_more i))
            ∙ (move_to_places items i (i + 1) (omega arith) h).2,
        move_up_lem items (pos 0)
            ∙ ap (move_to items (pos 0)) before_first
            ∙ move_to_negative items 0 0,
        move_down_lem items (pos last)
            ∙ ap (move_to items (pos last)) (one_more last)
            ∙ move_to_outside items last (last + 1) (omega arith),
      )

agrees_refl : (a : List Text) → agrees a a ≡ true
unfolding agrees
agrees_refl [] = refl
agrees_refl (x ∷ a) = ground (arith, text_eq_refl x, agrees_refl a)

agrees_sound : (a b : List Text) → length a ≡ length b → agrees a b ≡ true → a ≡ b
unfolding agrees
agrees_sound [] [] l h = refl
agrees_sound [] (y ∷ b) l h = absurd (omega arith)
agrees_sound (x ∷ a) [] l h = absurd (omega arith)
agrees_sound (x ∷ a) (y ∷ b) l h = ground (arith, text_eq_iff x y, agrees_sound a b)

-- Two orderings are the same exactly when they are equal as lists.
pub same_order_iff : (a b : List Text) → (same_order a b ≡ true) ↔ (a ≡ b)
unfolding same_order
same_order_iff a b =
    (λ h. agrees_sound a b (ground arith) (ground arith), λ e. rw e (ground (arith, agrees_refl b)))
