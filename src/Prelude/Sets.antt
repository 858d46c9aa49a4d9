-- ===== src/Prelude/Sets.antt =====
-- A JavaScript Set of texts: the list of its elements, in the order of insertion.
use mathlib.Core.Path.{◌≡◌, refl, subst, ◌∙◌}
use mathlib.Core.Bool.{Bool, true, false, not, ◌||◌}
use mathlib.Core.Logic.{inl, inr}
use mathlib.Core.List.{List, [], ◌∷◌, ◌++◌}
use native.Mathlib.Omega.{arith}
use restaurant_engine.Prelude.Tests.{if◌then◌else◌, Bool-cases}
use restaurant_engine.Prelude.Lists.{any, keep_if}
use restaurant_engine.Prelude.Options.{clash}
use restaurant_engine.Prelude.Text.{Text, text_eq, text_eq_sound, text_eq_refl}

-- `Set.prototype.has`, `delete` and `add`
abbrev pub has : Text → List Text → Bool
has id ids = any (text_eq id) ids

abbrev pub delete : Text → List Text → List Text
delete id ids = keep_if (λ other. not (text_eq other id)) ids

unfoldable pub add : Text → List Text → List Text
add id ids = if has id ids then ids else ids ++ id ∷ []

pub or_assoc : (a b c : Bool) → (a || (b || c)) ≡ ((a || b) || c)
or_assoc true b c = refl
or_assoc false b c = refl

pub or_false : (a b : Bool) → b ≡ false → (a || b) ≡ a
or_false true b h = refl
or_false false b h = h

pub has-append : (x o : Text) (ids : List Text) → has x (ids ++ o ∷ []) ≡ (has x ids || text_eq x o)
has-append x o [] = ground arith
has-append x o (i ∷ ids) =
    rw (has-append x o ids) (or_assoc (text_eq x i) (has x ids) (text_eq x o))

pub has-add : (x o : Text) (ids : List Text) → text_eq x o ≡ false → has x (add o ids) ≡ has x ids
unfolding add
has-add x o ids h = elim (Bool-cases (has o ids)) [
  | inl e ↦ rw (e, add) refl
  | inr e ↦ rw (e, add) (has-append x o ids ∙ or_false (has x ids) (text_eq x o) h)
]

pub has-delete : (x o : Text) (ids : List Text) → has x (delete o ids) ≡ true → has x ids ≡ true
has-delete x o [] h = h
has-delete x o (i ∷ ids) h = ground (arith, has-delete x o ids)

pub text_eq-flip : (s t : Text) → text_eq s t ≡ false → text_eq t s ≡ false
text_eq-flip s t h = elim (Bool-cases (text_eq t s)) [
  | inr e ↦ e
  | inl e ↦
      clash (text_eq s t) h (subst (λ u. text_eq u t ≡ true) (text_eq_sound t s e) (text_eq_refl t))
]

pub has-delete_same : (o : Text) (ids : List Text) → has o (delete o ids) ≡ false
has-delete_same o [] = refl
has-delete_same o (i ∷ ids) = elim (Bool-cases (text_eq i o)) [
  | inl e ↦ rw (e, keep_if) (has-delete_same o ids)
  | inr e ↦
      rw (e, keep_if)
        (rw (has-delete_same o ids) (or_false (text_eq o i) false refl ∙ text_eq-flip i o e))
]
