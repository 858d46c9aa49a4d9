-- ===== src/Workspace/Freshness.antt =====
-- What the cache holds after a mutation: the data that shows the change is the answer, or is marked
-- for a refetch.
use restaurant_engine.Prelude.{true, some, ◌≡◌, ◌⊎◌}
use restaurant_engine.Prelude.Text.{Text}
use restaurant_engine.Js.{Json}
use restaurant_engine.Workspace.Cache.{
  Key, QueryCache, menu_tree, menu_modifiers, media_all, hours_settings, orders_detail,
  storefront_overview,
}
use restaurant_engine.Workspace.Boards.{MediaMutation, with_draft}
use restaurant_engine.Workspace.Commands.{
  Mutation, on_menu, on_modifiers, on_hours, on_orders, on_storefront, on_media,
}

-- Where a mutation's change is seen.
abbrev pub view_of : Text → Mutation → Text → Key
view_of business_id (on_menu m) id = menu_tree business_id
view_of business_id (on_modifiers item_id m) id = menu_modifiers business_id item_id
view_of business_id (on_hours m) id = hours_settings business_id
view_of business_id (on_orders m) id = orders_detail business_id id
view_of business_id (on_storefront m) id = storefront_overview business_id
view_of business_id (on_media m) id = media_all business_id

module _ {C : Type 0} (cache : QueryCache C) where
  -- Invalidated or absent, or the answer, or the overview that was there with the answer as its draft.
  abbrev pub IsRefreshed : Key → Json → C → C → Type 0
  IsRefreshed k answer c next =
      (cache.stale k next ≡ true)
      ⊎ (cache.get k next ≡ some answer)
      ⊎ ((overview : Json) × (cache.get k c ≡ some overview)
          × (cache.get k next ≡ some (with_draft answer overview)))
