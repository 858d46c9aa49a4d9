-- ===== src/Cart/Choice.antt =====
-- When two lines are the same choice (`sameChoice`).
use mathlib.Core.List.{Perm}
use restaurant_engine.Prelude.{
  ℕ, true, Option, none, some, ◌≡◌, refl, sym, ap, ◌∙◌, ◌↔◌, arith, All, &&-true,
}
use restaurant_engine.Prelude.Text.{Text, text_eq_iff, text_eq_refl}
use restaurant_engine.Prelude.Keys.{sorted_key-perm, sorted_key_of_perm}
use restaurant_engine.Prelude.Splitting.{IsPart}
use restaurant_engine.Cart.Defs.{
  CartLine, option_ids, sorted_option_ids, same_instructions, same_choice, merge,
}

same_instructions_sound : (a b : Option Text) → same_instructions a b ≡ true → a ≡ b
unfolding same_instructions
same_instructions_sound none none h = refl
same_instructions_sound none (some t) h = cc
same_instructions_sound (some s) none h = cc
same_instructions_sound (some s) (some t) h = ap some ((text_eq_iff s t).0 h)

same_instructions_refl : (a : Option Text) → same_instructions a a ≡ true
unfolding same_instructions
same_instructions_refl none = refl
same_instructions_refl (some s) = text_eq_refl s

-- What `same_choice` compares.
abbrev SameKey : CartLine → CartLine → Type 0
SameKey a b =
    (a.item_id ≡ b.item_id)
    × (a.item_instructions ≡ b.item_instructions)
    × (sorted_option_ids a ≡ sorted_option_ids b)

same_choice-key : (a b : CartLine) → same_choice a b ≡ true → SameKey a b
unfolding same_choice
same_choice-key a b h = ground (
  arith,
  text_eq_iff a.item_id b.item_id,
  same_instructions_sound a.item_instructions b.item_instructions,
  text_eq_iff (sorted_option_ids a) (sorted_option_ids b),
)

same_choice_of_key : (a b : CartLine) → SameKey a b → same_choice a b ≡ true
unfolding same_choice
same_choice_of_key a b (e, f, g) =
    rw (g, e, f)
      (&&-true _ _
        (&&-true _ _ (text_eq_refl b.item_id) (same_instructions_refl b.item_instructions))
        (text_eq_refl (sorted_option_ids b)))

-- A line that is the same choice as another is the same choice as the same lines.
pub same_choice-subst :
    (a b c : CartLine) → same_choice a b ≡ true → same_choice a c ≡ same_choice b c
unfolding same_choice
same_choice-subst a b c h = let (e, f, g) = same_choice-key a b h in rw (g, e, f)

pub same_choice_refl : (a : CartLine) → same_choice a a ≡ true
same_choice_refl a = same_choice_of_key a a (refl, refl, refl)

pub same_choice_symm : (a b : CartLine) → same_choice a b ≡ true → same_choice b a ≡ true
same_choice_symm a b h = sym (same_choice-subst a b a h) ∙ same_choice_refl a

pub same_choice-merge : (q : ℕ) (a c : CartLine) → same_choice (merge q a) c ≡ same_choice a c
unfolding same_choice sorted_option_ids
same_choice-merge q a c = refl

-- An option id is not empty and holds no comma.
abbrev pub HasPlainIds : CartLine → Type 0
HasPlainIds line = All (IsPart b',') (option_ids line)

-- Two lines whose option ids are not empty and hold no comma are the same choice exactly when they
-- have the same item, the same instructions, and the same options in some order.
pub same_choice_iff :
    (a b : CartLine)
    → HasPlainIds a
    → HasPlainIds b
    → (same_choice a b ≡ true) ↔ (
        (a.item_id ≡ b.item_id)
        × (a.item_instructions ≡ b.item_instructions)
        × Perm (option_ids a) (option_ids b))
unfolding sorted_option_ids
same_choice_iff a b h k = (
  λ same.
      let (e, f, g) = same_choice-key a b same in
      (e, f, sorted_key-perm (option_ids a) (option_ids b) h k g),
  λ (e, f, p). same_choice_of_key a b (e, f, sorted_key_of_perm p),
)
