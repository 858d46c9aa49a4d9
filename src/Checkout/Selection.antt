-- ===== src/Checkout/Selection.antt =====
-- The limits of the modifier groups while a visitor picks options (`toggleOption` in
-- apps/storefront/components/ordering/ModifierPickerDialog.tsx).
use restaurant_engine.Prelude.{
  ℕ, suc, ◌≤◌, true, false, Option, none, some, List, [], ◌∷◌, ◌≡◌, refl, sym, subst, ◌⊎◌, inl, inr,
  arith, All, Bool-cases, &&-parts,
}
use restaurant_engine.Prelude.Sets.{has, delete, add, has-add, has-delete, has-delete_same}
use restaurant_engine.Prelude.Text.{Text, text_eq, text_eq_sound}
use restaurant_engine.Checkout.Picker.{
  ModifierOption, ModifierGroup, MenuItem, is_one, is_single, selected_count, is_full, delete_all,
  toggle_option, Picker, IsAmong, Composed, fresh, toggled, decreased, increased, noted,
}

abbrev pub IsUpTo : ℕ → Option ℕ → Type 0
IsUpTo count none = Unit
IsUpTo count (some limit) = count ≤ limit

-- At most as many of the group's options are selected as it allows.
abbrev pub IsWithin : List Text → ModifierGroup → Type 0
IsWithin ids group = IsUpTo (selected_count ids group.options) group.max_select

-- The option's id is not among the options.
abbrev pub IsNew : Text → List ModifierOption → Type 0
IsNew id options = All (λ option. text_eq option.id id ≡ false) options

abbrev pub AreDistinctIds : List ModifierOption → Type 0
AreDistinctIds [] = Unit
AreDistinctIds (option ∷ options) = IsNew option.id options × AreDistinctIds options

-- Two groups share no option.
abbrev pub AreApart : ModifierGroup → ModifierGroup → Type 0
AreApart g h = All (λ option. IsNew option.id h.options) g.options

abbrev pub AreSeparate : List ModifierGroup → Type 0
AreSeparate groups =
    All (λ g. AreDistinctIds g.options × All (λ h. (g ≡ h) ⊎ AreApart g h) groups) groups

count-add_new :
    (o : Text) (ids : List Text) (options : List ModifierOption)
    → IsNew o options
    → selected_count (add o ids) options ≡ selected_count ids options
unfolding selected_count
count-add_new o ids [] h = refl
count-add_new o ids (p ∷ ps) (h, hs) = rw (has-add p.id o ids h, count-add_new o ids ps hs) refl

count-add :
    (o : Text) (ids : List Text) (options : List ModifierOption)
    → AreDistinctIds options
    → selected_count (add o ids) options ≤ suc (selected_count ids options)
unfolding selected_count
count-add o ids [] d = omega arith
count-add o ids (p ∷ ps) (n, d) = elim (Bool-cases (text_eq p.id o)) [
  | inr e ↦ rw (has-add p.id o ids e) (ground (arith, count-add o ids ps d))
  | inl e ↦
      let other : IsNew o ps = subst (λ id. IsNew id ps) (text_eq_sound p.id o e) n in
      rw (count-add_new o ids ps other) (ground arith)
]

count-delete :
    (o : Text) (ids : List Text) (options : List ModifierOption)
    → selected_count (delete o ids) options ≤ selected_count ids options
unfolding selected_count
count-delete o ids [] = omega arith
count-delete o ids (p ∷ ps) = ground (arith, count-delete o ids ps, has-delete p.id o ids)

-- What was deleted stays out under further deletions.
delete_all-out :
    (x : Text) (options : List ModifierOption) (ids : List Text)
    → has x ids ≡ false
    → has x (delete_all options ids) ≡ false
delete_all-out x [] ids h = h
delete_all-out x (p ∷ ps) ids h =
    delete_all-out x ps (delete p.id ids) (ground (arith, has-delete x p.id ids, h))

count-delete_all :
    (options : List ModifierOption) (ids : List Text)
    → selected_count (delete_all options ids) options ≡ 0
unfolding selected_count
count-delete_all [] ids = refl
count-delete_all (p ∷ ps) ids =
    rw
      (
        delete_all-out p.id ps (delete p.id ids) (has-delete_same p.id ids),
        count-delete_all ps (delete p.id ids),
      )
      refl

count-delete_all-le :
    (others options : List ModifierOption) (ids : List Text)
    → selected_count (delete_all others ids) options ≤ selected_count ids options
count-delete_all-le [] options ids = omega arith
count-delete_all-le (p ∷ ps) options ids =
    omega (arith, count-delete_all-le ps options (delete p.id ids), count-delete p.id ids options)

IsUpTo-le : (a b : ℕ) (limit : Option ℕ) → a ≤ b → IsUpTo b limit → IsUpTo a limit
IsUpTo-le a b none h w = tt
IsUpTo-le a b (some limit) h w = omega arith

IsUpTo-one : (a : ℕ) (limit : Option ℕ) → is_one limit ≡ true → a ≤ 1 → IsUpTo a limit
IsUpTo-one a none e h = tt
IsUpTo-one a (some limit) e h = ground arith

IsUpTo-room : (a b : ℕ) (limit : Option ℕ) → is_full b limit ≡ false → a ≤ suc b → IsUpTo a limit
IsUpTo-room a b none e h = tt
IsUpTo-room a b (some limit) e h = ground arith

-- A click in another group selects no more of this one.
toggle-le :
    (h : ModifierGroup) (o : Text) (ids : List Text) (options : List ModifierOption)
    → IsNew o options
    → selected_count (toggle_option h o ids) options ≤ selected_count ids options
unfolding toggle_option
toggle-le h o ids options new = elim (Bool-cases (is_single h)) [
  | inl e ↦ rw e (
      omega (
        arith,
        count-add_new o (delete_all h.options ids) options new,
        count-delete_all-le h.options options ids,
      ))
  | inr e ↦ elim (Bool-cases (has o ids)) [
    | inl k ↦ rw (e, k) (count-delete o ids options)
    | inr k ↦ elim (Bool-cases (is_full (selected_count ids h.options) h.max_select)) [
      | inl l ↦ rw (e, k, l) (omega arith)
      | inr l ↦ rw (e, k, l) (omega (arith, count-add_new o ids options new))
    ]
  ]
]

toggle-IsWithin :
    (h : ModifierGroup) (o : Text) (ids : List Text)
    → AreDistinctIds h.options
    → IsWithin ids h
    → IsWithin (toggle_option h o ids) h
unfolding toggle_option
toggle-IsWithin h o ids d w = elim (Bool-cases (is_single h)) [
  | inl e ↦
      let one : selected_count (add o (delete_all h.options ids)) h.options ≤ 1 = omega (
        arith,
        count-add o (delete_all h.options ids) h.options d,
        count-delete_all h.options ids,
      ) in
      rw e (IsUpTo-one _ h.max_select (&&-parts _ _ e).1 one)
  | inr e ↦ elim (Bool-cases (has o ids)) [
    | inl k ↦ rw (e, k) (IsUpTo-le _ _ h.max_select (count-delete o ids h.options) w)
    | inr k ↦ elim (Bool-cases (is_full (selected_count ids h.options) h.max_select)) [
      | inl l ↦ rw (e, k, l) w
      | inr l ↦ rw (e, k, l) (IsUpTo-room _ _ h.max_select l (count-add o ids h.options d))
    ]
  ]
]

All-IsAmong : {A : Type 0} (P : A → Type 0) (a : A) (as_ : List A) → All P as_ → IsAmong a as_ → P a
All-IsAmong P a (b ∷ bs) (p, ps) (inl e) = subst P (sym e) p
All-IsAmong P a (b ∷ bs) (p, ps) (inr m) = All-IsAmong P a bs ps m
All-IsAmong P a [] p m = absurd m

clicked-IsWithin :
    (h : ModifierGroup) (o : ModifierOption) (ids : List Text)
    → AreDistinctIds h.options
    → IsAmong o h.options
    → (g : ModifierGroup) → (h ≡ g) ⊎ AreApart h g
    → IsWithin ids g
    → IsWithin (toggle_option h o.id ids) g
clicked-IsWithin h o ids d m g (inl e) w =
    subst (IsWithin (toggle_option h o.id ids)) e
      (toggle-IsWithin h o.id ids d (subst (IsWithin ids) (sym e) w))
clicked-IsWithin h o ids d m g (inr apart) w =
    let new : IsNew o.id g.options = All-IsAmong (λ p. IsNew p.id g.options) o h.options apart m in
    IsUpTo-le _ _ g.max_select (toggle-le h o.id ids g.options new) w

all_clicked :
    (h : ModifierGroup) (o : ModifierOption) (ids : List Text)
    → AreDistinctIds h.options
    → IsAmong o h.options
    → (gs : List ModifierGroup) → All (λ g. (h ≡ g) ⊎ AreApart h g) gs
    → All (IsWithin ids) gs
    → All (IsWithin (toggle_option h o.id ids)) gs
all_clicked h o ids d m [] s w = tt
all_clicked h o ids d m (g ∷ gs) (s, ss) (w, ws) =
    (clicked-IsWithin h o ids d m g s w, all_clicked h o ids d m gs ss ws)

none_selected : (options : List ModifierOption) → selected_count [] options ≡ 0
unfolding selected_count
none_selected [] = refl
none_selected (p ∷ ps) = none_selected ps

all_unselected : (gs : List ModifierGroup) → All (IsWithin []) gs
all_unselected [] = tt
all_unselected (g ∷ gs) = (within g.max_select, all_unselected gs)
  where
    within : (limit : Option ℕ) → IsUpTo (selected_count [] g.options) limit
    within none = tt
    within (some limit) = omega (arith, none_selected g.options)

-- When the options of an item have distinct ids, no sequence of clicks selects more options of a
-- group than its limit, where it has one.
pub Composed-IsWithin :
    (item : MenuItem) (p : Picker)
    → AreSeparate item.modifier_groups
    → Composed item p
    → All (IsWithin p.selected) item.modifier_groups
Composed-IsWithin item p s fresh = all_unselected item.modifier_groups
Composed-IsWithin item p s (toggled q group option c m n) =
    let (d, apart) =
      All-IsAmong
        (λ g. AreDistinctIds g.options × All (λ h. (g ≡ h) ⊎ AreApart g h) item.modifier_groups)
        group item.modifier_groups s m in
    all_clicked group option q.selected d n item.modifier_groups apart
      (Composed-IsWithin item q s c)
Composed-IsWithin item p s (decreased q c) = Composed-IsWithin item q s c
Composed-IsWithin item p s (increased q c) = Composed-IsWithin item q s c
Composed-IsWithin item p s (noted q text c) = Composed-IsWithin item q s c
