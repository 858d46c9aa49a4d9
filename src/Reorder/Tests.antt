-- ===== src/Reorder/Tests.antt =====
-- Runs of the reorder helpers, and the theorems at concrete lists.
use restaurant_engine.Prelude.{ℕ, List, [], ◌∷◌, ◌≡◌, refl}
use restaurant_engine.Prelude.Int.{pos, negsuc, ◌+ℤ◌}
use restaurant_engine.Reorder.{move_to, move_up, move_down}

abbrev rows : List ℕ
rows = 10 ∷ 11 ∷ 12 ∷ 13 ∷ []

moves :
    (move_to rows (pos 0) (pos 2) ≡ 11 ∷ 12 ∷ 10 ∷ 13 ∷ [])
    × (move_to rows (pos 3) (pos 1) ≡ 10 ∷ 13 ∷ 11 ∷ 12 ∷ [])
    × (move_to rows (pos 4) (pos 1) ≡ rows)
    × (move_to rows (negsuc 0) (pos 1) ≡ rows)
    × (move_up rows (pos 0) ≡ rows)
    × (move_down rows (pos 3) ≡ rows)
unfolding move_to move_up move_down ◌+ℤ◌
moves = (refl, refl, refl, refl, refl, refl)
