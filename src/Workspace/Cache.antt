-- ===== src/Workspace/Cache.antt =====
-- The query keys (apps/control-center/src/*/keys.ts) and the query client that holds data under them.
use restaurant_engine.Prelude.{Bool, true, false, ◌&&◌, Option, some, List, [], ◌∷◌, ◌≡◌}
use restaurant_engine.Prelude.Text.{Text, codes, text_eq}
use restaurant_engine.Js.{Json}

abbrev pub Key : Type 0
Key = List Text

unfoldable pub is_prefix : Key → Key → Bool
unfolding text_eq
is_prefix [] key = true
is_prefix (p ∷ prefix) [] = false
is_prefix (p ∷ prefix) (k ∷ key) = text_eq p k && is_prefix prefix key

unfoldable pub is_key : Key → Key → Bool
unfolding text_eq
is_key [] [] = true
is_key (a ∷ key) (b ∷ other) = text_eq a b && is_key key other
is_key _ _ = false

-- `getQueryData`, `setQueryData`, `invalidateQueries` and `removeQueries` of the query client, and
-- whether a key has no data, or data that is invalidated.
pub record QueryCache (C : Type 0) : Type 0 where
  pub get : Key → C → Option Json
  pub stale : Key → C → Bool
  pub set : Key → Json → C → C
  pub invalidate : Key → C → C
  pub remove : Key → C → C
  pub get-set : (k : Key) (v : Json) (c : C) → get k (set k v c) ≡ some v
  pub get-set_other :
      (k l : Key) (v : Json) (c : C) → is_key k l ≡ false → get l (set k v c) ≡ get l c
  pub stale-set_other :
      (k l : Key) (v : Json) (c : C) → is_key k l ≡ false → stale l (set k v c) ≡ stale l c
  pub get-invalidate : (p l : Key) (c : C) → get l (invalidate p c) ≡ get l c
  pub stale-invalidate :
      (p l : Key) (c : C) → is_prefix p l ≡ true → stale l (invalidate p c) ≡ true
  pub stale-invalidate_other :
      (p l : Key) (c : C) → is_prefix p l ≡ false → stale l (invalidate p c) ≡ stale l c
  pub stale-remove : (p l : Key) (c : C) → is_prefix p l ≡ true → stale l (remove p c) ≡ true
  pub get-remove_other : (p l : Key) (c : C) → is_prefix p l ≡ false → get l (remove p c) ≡ get l c
  pub stale-remove_other :
      (p l : Key) (c : C) → is_prefix p l ≡ false → stale l (remove p c) ≡ stale l c

-- `menuKeys`
abbrev pub menu_all : Text → Key
menu_all business_id = codes "business" ∷ business_id ∷ codes "menu" ∷ []

abbrev pub menu_tree : Text → Key
menu_tree business_id = codes "business" ∷ business_id ∷ codes "menu" ∷ codes "tree" ∷ []

abbrev pub menu_modifiers : Text → Text → Key
menu_modifiers business_id item_id =
    codes "business" ∷ business_id ∷ codes "menu" ∷ codes "modifiers" ∷ item_id ∷ []

-- `mediaKeys.all`
abbrev pub media_all : Text → Key
media_all business_id = codes "business" ∷ business_id ∷ codes "media" ∷ []

-- `hoursKeys.settings`
abbrev pub hours_settings : Text → Key
hours_settings business_id = codes "hours" ∷ business_id ∷ codes "settings" ∷ []

-- `ordersKeys`
abbrev pub orders_root : Text → Key
orders_root business_id = codes "orders" ∷ business_id ∷ []

abbrev pub orders_lists : Text → Key
orders_lists business_id = codes "orders" ∷ business_id ∷ codes "list" ∷ []

abbrev pub orders_incoming : Text → Key
orders_incoming business_id = codes "orders" ∷ business_id ∷ codes "incoming" ∷ []

abbrev pub orders_detail : Text → Text → Key
orders_detail business_id order_id = codes "orders" ∷ business_id ∷ codes "detail" ∷ order_id ∷ []

abbrev pub orders_metrics : Text → Key
orders_metrics business_id = codes "orders" ∷ business_id ∷ codes "metrics" ∷ []

-- `storefrontKeys`
abbrev pub storefront_overview : Text → Key
storefront_overview business_id =
    codes "business" ∷ business_id ∷ codes "storefront" ∷ codes "overview" ∷ []

abbrev pub storefront_preview_root : Text → Key
storefront_preview_root business_id =
    codes "business" ∷ business_id ∷ codes "storefront" ∷ codes "preview" ∷ []

abbrev pub storefront_versions : Text → Key
storefront_versions business_id =
    codes "business" ∷ business_id ∷ codes "storefront" ∷ codes "versions" ∷ []
