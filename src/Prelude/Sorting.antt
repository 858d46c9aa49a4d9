-- ===== src/Prelude/Sorting.antt =====
-- Insertion sort by a Boolean order: the result of `Array.prototype.sort`, which for a total order
-- on values does not depend on the algorithm.
use mathlib.Core.Path.{◌≡◌, refl, ◌∙◌}
use mathlib.Core.Logic.{◌⊎◌, inl, inr, ∥∥₁_elim}
use mathlib.Core.Bool.{Bool, true}
use mathlib.Core.List.{List, [], ◌∷◌, Perm, Permᴰ}
use mathlib.Core.List.Perm
use native.Mathlib.Omega.{arith}
use restaurant_engine.Prelude.Tests.{if◌then◌else◌, Bool-cases}
use restaurant_engine.Prelude.Lists.{All}

module _ {ℓ} {A : Type ℓ} (le : A → A → Bool) where
  unfoldable pub insert : A → List A → List A
  insert a [] = a ∷ []
  insert a (x ∷ xs) = if le a x then a ∷ x ∷ xs else x ∷ insert a xs

  unfoldable pub sort : List A → List A
  unfolding insert
  sort [] = []
  sort (x ∷ xs) = insert x (sort xs)

  insert-perm : (a : A) (xs : List A) → Perm (insert a xs) (a ∷ xs)
  unfolding insert
  insert-perm a [] = Perm.refl _
  insert-perm a (x ∷ xs) = elim (Bool-cases (le a x)) [
    | inl h ↦ rw h (Perm.refl _)
    | inr h ↦ rw h (Perm.trans (Perm.cons x (insert-perm a xs)) (Perm.swap a x xs))
  ]

  module _ (P : A → Type 0) where
    All-insert : (a : A) (xs : List A) → P a → All P xs → All P (insert a xs)
    unfolding insert
    All-insert a [] p h = (p, tt)
    All-insert a (x ∷ xs) p (q, h) = ground (arith, All-insert a xs p h)

    pub All-sort : (xs : List A) → All P xs → All P (sort xs)
    unfolding sort
    All-sort [] h = tt
    All-sort (x ∷ xs) (p, h) = All-insert x (sort xs) p (All-sort xs h)

  -- A sorted list holds what the list held.
  pub sort-perm : (xs : List A) → Perm (sort xs) xs
  unfolding sort
  sort-perm [] = Perm.refl _
  sort-perm (x ∷ xs) = Perm.trans (insert-perm x (sort xs)) (Perm.cons x (sort-perm xs))

  module _ (total : (a b : A) → (le a b ≡ true) ⊎ (le b a ≡ true))
      (antisymm : (a b : A) → le a b ≡ true → le b a ≡ true → a ≡ b)
      (le_trans : (a b c : A) → le a b ≡ true → le b c ≡ true → le a c ≡ true)
      (lists : IsSet (List A)) where
    insert_comm : (a b : A) (xs : List A) → insert a (insert b xs) ≡ insert b (insert a xs)
    unfolding insert
    insert_comm a b [] = ground (arith, total a b, antisymm a b)
    insert_comm a b (x ∷ xs) = ground (
      arith,
      insert_comm a b xs,
      total a b,
      antisymm a b,
      le_trans a b x,
      le_trans b a x,
      total a x,
      total b x,
      le_trans a x b,
      le_trans b x a,
    )

    sort-eq_of_permᴰ : {xs ys : List A} → Permᴰ xs ys → sort xs ≡ sort ys
    unfolding sort
    sort-eq_of_permᴰ Permᴰ.nil = refl
    sort-eq_of_permᴰ (Permᴰ.cons e p) = cc (sort-eq_of_permᴰ p)
    sort-eq_of_permᴰ (Permᴰ.swap {a = a} {b = b} {l = l} e f) =
        rw (← e, ← f) (insert_comm a b (sort l))
    sort-eq_of_permᴰ (Permᴰ.trans p q) = sort-eq_of_permᴰ p ∙ sort-eq_of_permᴰ q

    -- Sorting forgets the order: permutations sort alike.
    pub sort-eq_of_perm : {xs ys : List A} → Perm xs ys → sort xs ≡ sort ys
    sort-eq_of_perm p = ∥∥₁_elim p (lists _ _) sort-eq_of_permᴰ
