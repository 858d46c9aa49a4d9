-- ===== src/Theme/FixedPoint.antt =====
-- A concrete arithmetic for the tests: integers in units of 1 / 65280, with a square in place of a power.
use restaurant_engine.Prelude.{
  ℕ, zero, suc, ◌+◌, ◌*◌, ◌/◌, ◌%◌, Bool, true, false, not, ◌&&◌, leb, ◌≡◌, if◌then◌else◌, arith,
  le→leb,
}
use restaurant_engine.Prelude.Int.{ℤ, pos, negsuc, pos_part, neg_part, abs, ◌+ℤ◌, +ℤ_parts}
use restaurant_engine.Theme.Doubles.{Doubles, AreRounded, IsUnit}

abbrev opposite : ℤ → ℤ
opposite (pos zero) = pos zero
opposite (pos (suc n)) = negsuc n
opposite (negsuc n) = pos (suc n)

-- The sign of a product.
abbrev signed : ℤ → ℤ → ℕ → ℤ
signed (pos m) (pos n) size = pos size
signed (negsuc m) (negsuc n) size = pos size
signed _ _ size = opposite (pos size)

abbrev at_most_ℤ : ℤ → ℤ → Bool
at_most_ℤ a b = leb (pos_part a + neg_part b) (pos_part b + neg_part a)

abbrev product : ℤ → ℤ → ℤ
product a b = signed a b (abs a * abs b / 65280)

abbrev pub fixed_point : Doubles ℤ
fixed_point = record {
  nat = λ n. pos (n * 65280);
  fraction = λ m n. pos (m * 65280 / n);
  negative = opposite;
  plus = λ a b. a +ℤ b;
  minus = λ a b. a +ℤ opposite b;
  times = product;
  over = λ a b. signed a b (abs a * 65280 / abs b);
  remainder = λ a b. signed a a (abs a % abs b);
  power = λ a b. product a a;
  greatest = λ a b. if at_most_ℤ a b then b else a;
  least = λ a b. if at_most_ℤ a b then a else b;
  magnitude = λ a. pos (abs a);
  at_most = at_most_ℤ;
  less_than = λ a b. not (at_most_ℤ b a);
  same = λ a b. at_most_ℤ a b && at_most_ℤ b a;
  rounded = λ a. pos ((pos_part a + 32640) / 65280);
}

either-IsUnit :
    (b : Bool) (x y : ℤ)
    → IsUnit fixed_point x
    → IsUnit fixed_point y
    → IsUnit fixed_point (if b then x else y)
either-IsUnit true x y h k = h
either-IsUnit false x y h k = k

middle :
    (a b : ℤ)
    → IsUnit fixed_point a
    → IsUnit fixed_point b
    → IsUnit fixed_point
        (Doubles.over fixed_point (Doubles.plus fixed_point a b) (Doubles.nat fixed_point 2))
unfolding ◌+ℤ◌
middle (pos m) (pos n) h k = (ground arith, ground arith)
middle (negsuc m) b h k = absurd (ground arith)
middle a (negsuc n) h k = absurd (ground arith)

up :
    (a : ℤ)
    → IsUnit fixed_point a
    → leb (65280 + neg_part (a +ℤ pos 65280)) (pos_part (a +ℤ pos 65280) + 0) ≡ true
up (pos m) h = ground (arith, +ℤ_parts (pos m) (pos 65280))
up (negsuc m) h = absurd (ground arith)

down :
    (a : ℤ)
    → IsUnit fixed_point a
    → leb (pos_part (a +ℤ negsuc 65279) + 0) (0 + neg_part (a +ℤ negsuc 65279)) ≡ true
down (pos m) h = ground (arith, +ℤ_parts (pos m) (negsuc 65279))
down (negsuc m) h = absurd (ground arith)

pub fixed_point-AreRounded : AreRounded fixed_point
fixed_point-AreRounded = record {
  channel_unit = λ n h. (le→leb _ _ (omega arith), le→leb _ _ (omega arith));
  greatest_unit = λ a b h k. either-IsUnit (at_most_ℤ a b) b a k h;
  least_unit = λ a b h k. either-IsUnit (at_most_ℤ a b) a b h k;
  middle_unit = middle;
  whole_up = up;
  whole_down = down;
}
