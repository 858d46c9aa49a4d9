-- ===== src/Prelude/Splitting.antt =====
-- `String.prototype.split` by one code unit and `Array.prototype.join` with one.
use Prim.Native.Nat.{ℕ}
use mathlib.Core.Path.{◌≡◌, refl, sym, ap, ◌∙◌}
use mathlib.Core.Logic.{◌≢◌}
use mathlib.Core.List.{List, [], ◌∷◌, ◌++◌}
use native.Mathlib.Omega.{arith}
use restaurant_engine.Prelude.Tests.{◌==◌, if◌then◌else◌}
use restaurant_engine.Prelude.Lists.{All}
use restaurant_engine.Prelude.Text.{Text}

abbrev pub Lacks : ℕ → Text → Type 0
Lacks sep = All (λ c. c ≢ sep)

module _ (sep : ℕ) where
  unfoldable pub join : List Text → Text
  join [] = []
  join (s ∷ []) = s
  join (s ∷ t ∷ ss) = s ++ (sep ∷ join (t ∷ ss))

  abbrev on_head : ℕ → List Text → List Text
  on_head c [] = []
  on_head c (s ∷ ss) = (c ∷ s) ∷ ss

  unfoldable pub split : Text → List Text
  split [] = [] ∷ []
  split (c ∷ s) = let rest = split s in if c == sep then [] ∷ rest else on_head c rest

  pub split_of_Lacks : (s : Text) → Lacks sep s → split s ≡ s ∷ []
  unfolding split
  split_of_Lacks [] h = refl
  split_of_Lacks (c ∷ s) (n, h) = ground (arith, split_of_Lacks s h)

  pub split-append : (s t : Text) → Lacks sep s → split (s ++ (sep ∷ t)) ≡ s ∷ split t
  unfolding split
  split-append [] t h = ground arith
  split-append (c ∷ s) t (n, h) = ground (arith, split-append s t h)

  pub split-join :
      (s : Text) (ss : List Text) → All (Lacks sep) (s ∷ ss) → split (join (s ∷ ss)) ≡ s ∷ ss
  unfolding join
  split-join s [] (h, _) = split_of_Lacks s h
  split-join s (t ∷ ss) (h, hs) =
      split-append s (join (t ∷ ss)) h ∙ ap (λ l. s ∷ l) (split-join t ss hs)

  join_nil : join [] ≡ []
  unfolding join
  join_nil = refl

  join-ne-nil : (s : Text) (ss : List Text) → s ≢ [] → join (s ∷ ss) ≢ []
  unfolding join
  join-ne-nil s [] h = h
  join-ne-nil [] (t ∷ ss) h = absurd (h refl)
  join-ne-nil (c ∷ s) (t ∷ ss) h = cc

  -- A name is a text that is not empty and does not hold the separator.
  abbrev pub IsPart : Text → Type 0
  IsPart s = (s ≢ []) × Lacks sep s

  parts-Lacks : (ss : List Text) → All IsPart ss → All (Lacks sep) ss
  parts-Lacks [] h = tt
  parts-Lacks (s ∷ ss) (h, hs) = (h.1, parts-Lacks ss hs)

  -- Joined names determine the names.
  pub join-injective :
      (xs ys : List Text) → All IsPart xs → All IsPart ys → join xs ≡ join ys → xs ≡ ys
  join-injective [] [] h k e = refl
  join-injective [] (y ∷ ys) h k e = absurd (join-ne-nil y ys k.0.0 (sym e ∙ join_nil))
  join-injective (x ∷ xs) [] h k e = absurd (join-ne-nil x xs h.0.0 (e ∙ join_nil))
  join-injective (x ∷ xs) (y ∷ ys) h k e =
      sym (split-join x xs (parts-Lacks (x ∷ xs) h))
      ∙ ap split e
      ∙ split-join y ys (parts-Lacks (y ∷ ys) k)
