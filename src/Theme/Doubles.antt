-- ===== src/Theme/Doubles.antt =====
-- The arithmetic of doubles that the derivation of a colour uses. A double is opaque: an operation is
-- the language's, and the laws are facts of its rounding.
use restaurant_engine.Prelude.{ℕ, ◌≤◌, Bool, true, ◌≡◌}
use restaurant_engine.Prelude.Int.{ℤ}

-- `fraction m n` is the double of the literal m / n, or of the quotient of two small integers.
pub record Doubles (D : Type 0) : Type 0 where
  pub nat : ℕ → D
  pub fraction : ℕ → ℕ → D
  pub negative : D → D
  pub plus : D → D → D
  pub minus : D → D → D
  pub times : D → D → D
  pub over : D → D → D
  pub remainder : D → D → D
  pub power : D → D → D
  pub greatest : D → D → D
  pub least : D → D → D
  pub magnitude : D → D
  pub at_most : D → D → Bool
  pub less_than : D → D → Bool
  pub same : D → D → Bool
  pub rounded : D → ℤ

-- Between 0 and 1.
abbrev pub IsUnit : {D : Type 0} → Doubles D → D → Type 0
IsUnit d a =
    (Doubles.at_most d (Doubles.nat d 0) a ≡ true) × (Doubles.at_most d a (Doubles.nat d 1) ≡ true)

-- `direction * step * STEP`
abbrev pub step_by : {D : Type 0} → Doubles D → D → ℕ → D
step_by d direction step =
    Doubles.times d (Doubles.times d direction (Doubles.nat d step)) (Doubles.fraction d 1 256)

pub record AreRounded {D : Type 0} (d : Doubles D) : Type 0 where
  pub channel_unit :
      (n : ℕ) → n ≤ 255 → IsUnit d (Doubles.over d (Doubles.nat d n) (Doubles.nat d 255))
  pub greatest_unit : (a b : D) → IsUnit d a → IsUnit d b → IsUnit d (Doubles.greatest d a b)
  pub least_unit : (a b : D) → IsUnit d a → IsUnit d b → IsUnit d (Doubles.least d a b)
  pub middle_unit :
      (a b : D)
      → IsUnit d a
      → IsUnit d b
      → IsUnit d (Doubles.over d (Doubles.plus d a b) (Doubles.nat d 2))
  -- A whole step leads out of the interval.
  pub whole_up :
      (a : D)
      → IsUnit d a
      → Doubles.at_most d (Doubles.nat d 1) (Doubles.plus d a (step_by d (Doubles.nat d 1) 256))
        ≡ true
  pub whole_down :
      (a : D)
      → IsUnit d a
      → Doubles.at_most d
          (Doubles.plus d a (step_by d (Doubles.negative d (Doubles.nat d 1)) 256))
          (Doubles.nat d 0)
        ≡ true
