-- ===== src/Cart/Sessions.antt =====
-- A guest's session: the carts reached by any sequence of operations.
use restaurant_engine.Prelude.{
  ℕ, zero, suc, false, none, List, [], ◌∷◌, ◌++◌, ◌≡◌, refl, ◌∙◌, arith, length, All, All-append,
  All-weaken, leb, ltb, ◌||◌, Bool-cases, Option-cases, inl, inr,
}
use restaurant_engine.Prelude.Int.{pos}
use restaurant_engine.Js.{Number, int}
use restaurant_engine.Cart.Defs.{
  CartLine, Cart, max_cart_lines, max_line_quantity, find_index, map_at, filter_at, merge,
  same_choice, sorted_option_ids, add_line, remove_line, set_line_quantity,
}
use restaurant_engine.Cart.Validity.{IsValidLine, IsValid}
use restaurant_engine.Cart.Adding.{add_line_merged, add_line_full, add_line_appended}
use restaurant_engine.Cart.Choice.{same_choice_symm}
use restaurant_engine.Cart.Lines.{
  All-map_at, All-filter_at, requantify, add_line-IsValid, remove_line-IsValid,
  set_line_quantity-IsValid,
}

-- What the ordering surface does to a cart. A composed line is within the bounds.
pub data Step : Cart → Cart → Type 0 where
  add : (cart : Cart) (line : CartLine) → IsValidLine line → Step cart (add_line cart line).0
  remove : (cart : Cart) (i : ℕ) → Step cart (remove_line cart i)
  change : (cart : Cart) (i : ℕ) (n : Number) → Step cart (set_line_quantity cart i n)

pub data Reach (start : Cart) : Cart → Type 0 where
  here : Reach start start
  next : {cart cart' : Cart} → Reach start cart → Step cart cart' → Reach start cart'

Step-IsValid : {cart cart' : Cart} → Step cart cart' → IsValid cart → IsValid cart'
Step-IsValid (add cart line l) v = add_line-IsValid cart line v l
Step-IsValid (remove cart i) v = remove_line-IsValid cart i v
Step-IsValid (change cart i n) v = set_line_quantity-IsValid cart i n v

-- From a cart within the bounds (such as any cart that was loaded), every sequence of operations
-- leads to a cart within the bounds.
pub Reach-IsValid : {start cart : Cart} → IsValid start → Reach start cart → IsValid cart
Reach-IsValid v here = v
Reach-IsValid v (next r s) = Step-IsValid s (Reach-IsValid v r)

-- No two lines are the same choice.
abbrev pub AreDistinct : List CartLine → Type 0
AreDistinct [] = Unit
AreDistinct (x ∷ xs) = All (λ y. same_choice y x ≡ false) xs × AreDistinct xs

-- A change of a line that `same_choice` does not look at.
abbrev KeepsChoice : (CartLine → CartLine) → Type 0
KeepsChoice f =
    (a b : CartLine)
    → (same_choice (f a) b ≡ same_choice a b) × (same_choice a (f b) ≡ same_choice a b)

merge-KeepsChoice : (q : ℕ) → KeepsChoice (merge q)
unfolding same_choice sorted_option_ids
merge-KeepsChoice q a b = (refl, refl)

requantify-KeepsChoice : (q : ℕ) → KeepsChoice (requantify q)
unfolding same_choice sorted_option_ids
requantify-KeepsChoice q a b = (refl, refl)

map_at-AreDistinct :
    (i : ℕ) (f : CartLine → CartLine)
    → KeepsChoice f
    → (xs : List CartLine) → AreDistinct xs
    → AreDistinct (map_at i f xs)
unfolding map_at
map_at-AreDistinct i f keeps [] d = tt
map_at-AreDistinct zero f keeps (x ∷ xs) (h, d) = (All-weaken (λ y e. (keeps y x).1 ∙ e) xs h, d)
map_at-AreDistinct (suc i) f keeps (x ∷ xs) (h, d) = (
  All-map_at (λ y. same_choice y x ≡ false) i f xs (λ y e. (keeps y x).0 ∙ e) h,
  map_at-AreDistinct i f keeps xs d,
)

filter_at-AreDistinct : (i : ℕ) (xs : List CartLine) → AreDistinct xs → AreDistinct (filter_at i xs)
unfolding filter_at
filter_at-AreDistinct i [] d = tt
filter_at-AreDistinct zero (x ∷ xs) (h, d) = d
filter_at-AreDistinct (suc i) (x ∷ xs) (h, d) =
    (All-filter_at (λ y. same_choice y x ≡ false) i xs h, filter_at-AreDistinct i xs d)

append-AreDistinct :
    (line : CartLine) (xs : List CartLine)
    → find_index (λ existing. same_choice existing line) xs ≡ none
    → AreDistinct xs
    → AreDistinct (xs ++ line ∷ [])
unfolding find_index
append-AreDistinct line [] e d = (tt, tt)
append-AreDistinct line (x ∷ xs) e (h, d) = (
  All-append (λ y. same_choice y x ≡ false) xs (line ∷ []) h
      (ground (arith, same_choice_symm line x), tt),
  append-AreDistinct line xs (ground arith) d,
)

add_line-AreDistinct :
    (cart : Cart) (line : CartLine)
    → AreDistinct cart.lines
    → AreDistinct (add_line cart line).0.lines
add_line-AreDistinct cart line d =
    elim (Option-cases (find_index (λ existing. same_choice existing line) cart.lines)) [
      | inr (i, found) ↦ rw (add_line_merged cart line i found) (
          map_at-AreDistinct i (merge line.quantity) (merge-KeepsChoice line.quantity) cart.lines d)
      | inl new ↦ elim (Bool-cases (leb max_cart_lines (length cart.lines))) [
        | inl full ↦ rw (add_line_full cart line new full) d
        | inr room ↦
            rw (add_line_appended cart line new room) (append-AreDistinct line cart.lines new d)
      ]
    ]

set_line_quantity-AreDistinct :
    (cart : Cart) (i : ℕ) (n : Number)
    → AreDistinct cart.lines
    → AreDistinct (set_line_quantity cart i n).lines
unfolding set_line_quantity
set_line_quantity-AreDistinct cart i (int (pos q)) d =
    elim (Bool-cases (ltb q 1 || ltb max_line_quantity q)) [
      | inl out ↦ rw out d
      | inr within ↦
          rw within (map_at-AreDistinct i (requantify q) (requantify-KeepsChoice q) cart.lines d)
    ]
set_line_quantity-AreDistinct cart i _ d = d

Step-AreDistinct :
    {cart cart' : Cart} → Step cart cart' → AreDistinct cart.lines → AreDistinct cart'.lines
Step-AreDistinct (add cart line l) d = add_line-AreDistinct cart line d
Step-AreDistinct (remove cart i) d = unfold remove_line in filter_at-AreDistinct i cart.lines d
Step-AreDistinct (change cart i n) d = set_line_quantity-AreDistinct cart i n d

-- No sequence of operations on a cart without two lines of the same choice (such as the empty cart)
-- leads to a cart with two.
pub Reach-AreDistinct :
    {start cart : Cart} → AreDistinct start.lines → Reach start cart → AreDistinct cart.lines
Reach-AreDistinct d here = d
Reach-AreDistinct d (next r s) = Step-AreDistinct s (Reach-AreDistinct d r)
