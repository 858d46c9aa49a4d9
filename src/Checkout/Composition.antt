-- ===== src/Checkout/Composition.antt =====
-- The line that the modifier picker hands to the cart (`confirm` in
-- apps/storefront/components/ordering/ModifierPickerDialog.tsx).
use restaurant_engine.Prelude.{
  ℕ, ◌≤◌, Bool, true, false, none, some, List, [], ◌∷◌, concat, map, ◌≡◌, refl, subst, arith, all,
  keep_if, All, All-append, Bool-cases, inl, inr, if◌then◌else◌,
}
use restaurant_engine.Prelude.Int.{abs, is_nonneg}
use restaurant_engine.Prelude.Text.{Text}
use restaurant_engine.Prelude.Sets.{has}
use restaurant_engine.Js.{max_safe}
use restaurant_engine.Cart.{CartLine, max_line_quantity}
use restaurant_engine.Cart.Totals.{line_total_minor}
use restaurant_engine.Cart.Validity.{IsValidOption, IsValidLine}
use restaurant_engine.Checkout.Picker.{
  ModifierOption, ModifierGroup, MenuItem, Picker, chosen_in, chosen_options, shown_total,
  group_satisfied, confirm, composed_line, Composed, fresh, toggled, decreased, increased, noted,
}

abbrev pub IsSafeOption : ModifierOption → Type 0
IsSafeOption option = abs option.price_delta_minor ≤ max_safe

-- The prices that the server publishes.
pub record IsSafeItem (item : MenuItem) : Type 0 where
  pub price_safe : abs item.price_minor ≤ max_safe
  pub price_nonneg : is_nonneg item.price_minor ≡ true
  pub deltas_safe : All (λ group. All IsSafeOption group.options) item.modifier_groups

abbrev IsCountable : ℕ → Type 0
IsCountable q = (1 ≤ q) × (q ≤ max_line_quantity)

Composed-IsCountable : (item : MenuItem) (p : Picker) → Composed item p → IsCountable p.quantity
Composed-IsCountable item p fresh = (omega arith, omega arith)
Composed-IsCountable item p (toggled q group option c m n) = Composed-IsCountable item q c
Composed-IsCountable item p (noted q text c) = Composed-IsCountable item q c
Composed-IsCountable item p (decreased q c) =
    let (low, high) = Composed-IsCountable item q c in (omega arith, omega arith)
Composed-IsCountable item p (increased q c) =
    let (low, high) = Composed-IsCountable item q c in (omega arith, omega arith)

chosen_in-IsValidOption :
    (ids : List Text) (group : ModifierGroup)
    → All IsSafeOption group.options
    → All IsValidOption (chosen_in ids group)
chosen_in-IsValidOption ids group = go group.options
  where
    go :
        (options : List ModifierOption)
        → All IsSafeOption options
        → All IsValidOption (chosen_in ids (record group { options = options }))
    go [] h = tt
    go (o ∷ os) (h, hs) = elim (Bool-cases (has o.id ids)) [
      | inl e ↦ rw (e, keep_if) (h, go os hs)
      | inr e ↦ rw (e, keep_if) (go os hs)
    ]

all_chosen :
    (ids : List Text) (groups : List ModifierGroup)
    → All (λ group. All IsSafeOption group.options) groups
    → All IsValidOption (concat (map (chosen_in ids) groups))
all_chosen ids [] h = tt
all_chosen ids (g ∷ gs) (h, hs) =
    All-append _ (chosen_in ids g) (concat (map (chosen_in ids) gs))
      (chosen_in-IsValidOption ids g h) (all_chosen ids gs hs)

composed_line-IsValidLine :
    (item : MenuItem) (p : Picker)
    → IsSafeItem item
    → Composed item p
    → IsValidLine (composed_line item p)
unfolding chosen_options
composed_line-IsValidLine item p safe c = record {
  price_safe = safe.price_safe;
  price_nonneg = safe.price_nonneg;
  some_quantity = (Composed-IsCountable item p c).0;
  quantity_capped = (Composed-IsCountable item p c).1;
  deltas_safe = all_chosen p.selected item.modifier_groups safe.deltas_safe;
}

if_some : (b : Bool) (a x : CartLine) → (if b then some a else none) ≡ some x → (b ≡ true) × (a ≡ x)
if_some true a x e = (refl, some_injective e)
  where
    some_injective : {a b : CartLine} → some a ≡ some b → a ≡ b
    some_injective h = cc
if_some false a x e = cc

-- A line that a visitor composes of an item with safe prices is within the cart's bounds, satisfies
-- every modifier group of the item, and costs what the button of the picker showed.
pub confirm-IsValidLine :
    (item : MenuItem) (p : Picker) (line : CartLine)
    → IsSafeItem item
    → Composed item p
    → confirm item p ≡ some line
    → IsValidLine line
      × (line_total_minor line ≡ shown_total item p)
      × (all (group_satisfied p.selected) item.modifier_groups ≡ true)
unfolding confirm line_total_minor shown_total
confirm-IsValidLine item p line safe c e =
    let (satisfied, same) =
      if_some (all (group_satisfied p.selected) item.modifier_groups) (composed_line item p) line
        e in
    (
      subst IsValidLine same (composed_line-IsValidLine item p safe c),
      subst (λ l. line_total_minor l ≡ shown_total item p) same refl,
      satisfied,
    )
