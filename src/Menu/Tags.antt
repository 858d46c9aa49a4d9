-- ===== src/Menu/Tags.antt =====
-- Tags are compared as sets (`sameTags`).
use mathlib.Core.List.{Perm}
use restaurant_engine.Prelude.{
  suc, true, List, [], ◌∷◌, length, All, Bool-cases, ◌≡◌, ◌↔◌, refl, sym, ap, ◌∙◌, &&-parts,
  &&-true, ==_iff, inl, inr,
}
use restaurant_engine.Prelude.Text.{Text, text_le, text_eq_iff}
use restaurant_engine.Prelude.Sorting.{sort, insert}
use restaurant_engine.Prelude.Splitting.{IsPart}
use restaurant_engine.Prelude.Keys.{sort_of_perm, sorted_key-perm, sorted_key_of_perm}
use restaurant_engine.Menu.Defs.{same_tags}

length-insert : (t : Text) (l : List Text) → length (insert text_le t l) ≡ suc (length l)
unfolding insert
length-insert t [] = refl
length-insert t (x ∷ l) = elim (Bool-cases (text_le t x)) [
  | inl h ↦ rw h refl
  | inr h ↦ rw h (ap suc (length-insert t l))
]

length-sort : (l : List Text) → length (sort text_le l) ≡ length l
unfolding sort
length-sort [] = refl
length-sort (x ∷ l) = length-insert x (sort text_le l) ∙ ap suc (length-sort l)

length_of_perm : (a b : List Text) → Perm a b → length a ≡ length b
length_of_perm a b p = sym (length-sort a) ∙ ap length (sort_of_perm p) ∙ length-sort b

-- Tags that are not empty and hold no comma count as unchanged exactly when they are the same tags in
-- some order.
pub same_tags_iff :
    (a b : List Text)
    → All (IsPart b',') a
    → All (IsPart b',') b
    → (same_tags a b ≡ true) ↔ Perm a b
unfolding same_tags
same_tags_iff a b h k = (
  λ e. sorted_key-perm a b h k ((text_eq_iff _ _).0 (&&-parts _ _ e).1),
  λ p.
      &&-true _ _ ((==_iff (length a) (length b)).1 (length_of_perm a b p))
        ((text_eq_iff _ _).1 (sorted_key_of_perm p)),
)
