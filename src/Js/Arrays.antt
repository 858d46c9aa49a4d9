-- ===== src/Js/Arrays.antt =====
-- Arrays of printed values, and reading them back.
use restaurant_engine.Prelude.{Bool, true, List, [], ◌∷◌, map, ◌≡◌, refl, ap, all, All, &&-true}
use restaurant_engine.Js.Values.{Json, to_list, from_list}
use restaurant_engine.Js.Codecs.{IsStorable, AreStorable}

pub to_list-from_list : (vs : List Json) → to_list (from_list vs) ≡ vs
to_list-from_list [] = refl
to_list-from_list (v ∷ vs) = ap (λ l. v ∷ l) (to_list-from_list vs)

-- Reading back a list of printed values, each of which comes back.
module _ {A : Type 0} (P : A → Type 0) (p : Json → Bool) (show : A → Json) (read : Json → A) where
  pub all-show :
      ((a : A) → P a → p (show a) ≡ true) → (xs : List A) → All P xs → all p (map show xs) ≡ true
  all-show h [] v = refl
  all-show h (x ∷ xs) (v, vs) = &&-true _ _ (h x v) (all-show h xs vs)

  pub read-show : ((a : A) → read (show a) ≡ a) → (xs : List A) → map read (map show xs) ≡ xs
  read-show h [] = refl
  read-show h (x ∷ xs) = cc (h x, read-show h xs)

  pub show-AreStorable :
      ((a : A) → P a → IsStorable (show a))
      → (xs : List A) → All P xs
      → AreStorable (from_list (map show xs))
  show-AreStorable h [] v = tt
  show-AreStorable h (x ∷ xs) (v, vs) = (h x v, show-AreStorable h xs vs)
