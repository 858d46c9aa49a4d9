-- ===== src/Prelude/Options.antt =====
-- The first of two optional values, and a failed test.
use mathlib.Core.Path.{◌≡◌, refl}
use mathlib.Core.Bool.{Bool, true, false}
use mathlib.Core.Option.{Option, none, some}

unfoldable pub or_else {ℓ} : {A : Type ℓ} → Option A → Option A → Option A
or_else (some v) other = some v
or_else none other = other

pub or_else_assoc {ℓ} :
    {A : Type ℓ} (o p q : Option A) → or_else (or_else o p) q ≡ or_else o (or_else p q)
unfolding or_else
or_else_assoc none p q = refl
or_else_assoc (some v) p q = refl

pub or_else_found {ℓ} : {A : Type ℓ} (v : A) (q : Option A) → or_else (some v) q ≡ some v
unfolding or_else
or_else_found v q = refl

pub or_else_missing {ℓ} : {A : Type ℓ} (q : Option A) → or_else none q ≡ q
unfolding or_else
or_else_missing q = refl

pub or_else-none {ℓ} : {A : Type ℓ} (o : Option A) → or_else o none ≡ o
unfolding or_else
or_else-none none = refl
or_else-none (some v) = refl

-- A test does not fail and succeed.
pub clash {ℓ} : {C : Type ℓ} (b : Bool) → b ≡ false → b ≡ true → C
clash b f t = absurd (cc (f, t))
