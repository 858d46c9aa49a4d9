-- ===== src/Pages/Featured.antt =====
-- The featured items of the menu section.
use restaurant_engine.Prelude.{
  Bool, true, false, ◌||◌, Option, none, some, List, [], ◌∷◌, any, map, keep_if, concat, ◌≡◌, inl,
  inr, refl, Bool-cases, if◌then◌else◌,
}
use restaurant_engine.Prelude.Options.{or_else}
use restaurant_engine.Prelude.Text.{Text, text_eq, text_eq_sound}
use restaurant_engine.Pages.Defs.{
  PublicItem, PublicMenu, MenuSectionData, item_by_id, featured_of, keep_defined, menu_section_data,
}

unfoldable pub is_listed : List PublicItem → Text → Bool
unfolding text_eq
is_listed items id = any (λ item. text_eq (PublicItem.id item) id) items

-- What an id finds: nothing where no item has it, and else an item that has it.
abbrev IsFound : List PublicItem → Text → Option PublicItem → Type 0
IsFound items id none = is_listed items id ≡ false
IsFound items id (some item) = (is_listed items id ≡ true) × (item.id ≡ id)

either_true : (b : Bool) → (b || true) ≡ true
either_true true = refl
either_true false = refl

IsFound-with :
    (id : Text) (item : PublicItem) (items : List PublicItem) (later : Option PublicItem)
    → IsFound items id later
    → IsFound (item ∷ items) id (or_else later (if text_eq item.id id then some item else none))
unfolding or_else is_listed
IsFound-with id item items (some found) (listed, same) = (rw listed (either_true _), same)
IsFound-with id item items none missing = elim (Bool-cases (text_eq item.id id)) [
  | inl hit ↦ rw hit (rw hit refl, text_eq_sound item.id id hit)
  | inr miss ↦ rw miss (rw (miss, missing) refl)
]

item_by_id-IsFound : (id : Text) (items : List PublicItem) → IsFound items id (item_by_id id items)
unfolding item_by_id is_listed
item_by_id-IsFound id [] = refl
item_by_id-IsFound id (item ∷ items) =
    IsFound-with id item items (item_by_id id items) (item_by_id-IsFound id items)

abbrev pub ids_of : List PublicItem → List Text
ids_of items = map (λ item. PublicItem.id item) items

kept_ids :
    (items : List PublicItem) (id : Text) (ids : List Text) (o : Option PublicItem)
    → IsFound items id o
    → ids_of (featured_of items ids) ≡ keep_if (is_listed items) ids
    → ids_of (keep_defined o (featured_of items ids)) ≡ keep_if (is_listed items) (id ∷ ids)
kept_ids items id ids none missing h = rw missing h
kept_ids items id ids (some item) (listed, same) h = rw (listed, same, h) refl

featured_of-ids :
    (items : List PublicItem) (ids : List Text)
    → ids_of (featured_of items ids) ≡ keep_if (is_listed items) ids
unfolding featured_of
featured_of-ids items [] = refl
featured_of-ids items (id ∷ ids) =
    kept_ids items id ids (item_by_id id items) (item_by_id-IsFound id items)
      (featured_of-ids items ids)

-- The menu section shows the featured items in the featured order, those that the menu lists and
-- no others.
pub menu_section_data-featured :
    (menu : PublicMenu)
    → ids_of (MenuSectionData.featured (menu_section_data menu))
      ≡ keep_if (is_listed (concat menu.categories)) menu.featured_item_ids
unfolding menu_section_data
menu_section_data-featured menu = featured_of-ids (concat menu.categories) menu.featured_item_ids
