-- ===== src/Workspace/Outdated.antt =====
-- The data that a mutation makes outdated without answering it: invalidated or removed.
use restaurant_engine.Prelude.{true, List, [], ◌∷◌, ◌++◌, ◌≡◌, inl, inr, refl, ◌∙◌, Bool-cases, All}
use restaurant_engine.Prelude.Text.{Text, text_eq_refl}
use restaurant_engine.Js.{Json}
use restaurant_engine.Workspace.Cache.{
  Key, is_prefix, QueryCache, menu_all, menu_modifiers, media_all, hours_settings, orders_lists,
  orders_incoming, orders_metrics, storefront_versions, storefront_preview_root,
}
use restaurant_engine.Workspace.Mutations.{
  MenuMutation, ModifierMutation, HoursMutation, menu_success, modifier_success, hours_success,
}
use restaurant_engine.Workspace.Boards.{
  OrderMutation, StorefrontMutation, MediaMutation, order_success, storefront_success,
  media_success, merge_draft, remove_previews, with_draft, command, set_estimate, delete_asset,
}
use restaurant_engine.Workspace.Commands.{
  Mutation, on_menu, on_modifiers, on_hours, on_orders, on_storefront, on_media, success_of,
}

-- The other data that a mutation makes outdated, `rest` being what a key adds to the root of several:
-- the filters of a list of orders, the version of a preview, the page of a history, the tree or the
-- modifiers of a menu.
abbrev pub outdated_by : Text → Mutation → Key → List Key
outdated_by b (on_menu (restaurant_engine.Workspace.Mutations.reorder_categories ids)) rest = []
outdated_by b (on_menu (restaurant_engine.Workspace.Mutations.reorder_items category_id ids)) rest =
    []
outdated_by b (on_menu (restaurant_engine.Workspace.Mutations.set_item_image item_id body)) rest =
    (menu_all b ++ rest) ∷ (media_all b ++ rest) ∷ []
outdated_by b (on_menu _) rest = (menu_all b ++ rest) ∷ []
outdated_by b (on_modifiers item_id (restaurant_engine.Workspace.Mutations.reorder_groups ids))
      rest =
    []
outdated_by b (on_modifiers item_id _) rest = menu_modifiers b item_id ∷ []
outdated_by b (on_hours (restaurant_engine.Workspace.Mutations.delete_exception date)) rest =
    hours_settings b ∷ []
outdated_by b (on_hours _) rest = []
outdated_by b (on_orders (command name order_id)) rest =
    (orders_lists b ++ rest) ∷ orders_incoming b ∷ orders_metrics b ∷ []
outdated_by b (on_orders (set_estimate order_id body)) rest = (orders_lists b ++ rest) ∷ []
outdated_by b (on_storefront (restaurant_engine.Workspace.Boards.publish body)) rest =
    (storefront_versions b ++ rest) ∷ (storefront_preview_root b ++ rest) ∷ []
outdated_by b (on_storefront _) rest = (storefront_preview_root b ++ rest) ∷ []
outdated_by b (on_media (delete_asset asset_id)) rest = (media_all b ++ rest) ∷ []

is_prefix_append : (k rest : Key) → is_prefix k (k ++ rest) ≡ true
unfolding is_prefix
is_prefix_append [] rest = refl
is_prefix_append (a ∷ k) rest = rw (text_eq_refl a) (is_prefix_append k rest)

pub is_prefix_self : (k : Key) → is_prefix k k ≡ true
unfolding is_prefix
is_prefix_self [] = refl
is_prefix_self (a ∷ k) = rw (text_eq_refl a) (is_prefix_self k)

module _ {C : Type 0} (cache : QueryCache C) where
  stale-invalidate_again :
      (p l : Key) (c : C) → cache.stale l c ≡ true → cache.stale l (cache.invalidate p c) ≡ true
  stale-invalidate_again p l c was = elim (Bool-cases (is_prefix p l)) [
    | inl under ↦ cache.stale-invalidate p l c under
    | inr other ↦ cache.stale-invalidate_other p l c other ∙ was
  ]

  stale-remove_again :
      (p l : Key) (c : C) → cache.stale l c ≡ true → cache.stale l (cache.remove p c) ≡ true
  stale-remove_again p l c was = elim (Bool-cases (is_prefix p l)) [
    | inl under ↦ cache.stale-remove p l c under
    | inr other ↦ cache.stale-remove_other p l c other ∙ was
  ]

  stale-under : (p rest : Key) (c : C) → cache.stale (p ++ rest) (cache.invalidate p c) ≡ true
  stale-under p rest c = cache.stale-invalidate p (p ++ rest) c (is_prefix_append p rest)

  abbrev pub AreStale : List Key → C → Type 0
  AreStale keys next = All (λ k. cache.stale k next ≡ true) keys

  menu-AreStale :
      (b : Text) (m : MenuMutation) (rest : Key) (answer : Json) (c : C)
      → AreStale (outdated_by b (on_menu m) rest) (menu_success cache b m answer c)
  unfolding menu_success
  menu-AreStale b (restaurant_engine.Workspace.Mutations.reorder_categories ids) rest answer c = tt
  menu-AreStale b (restaurant_engine.Workspace.Mutations.reorder_items category_id ids) rest answer
        c =
      tt
  menu-AreStale b (restaurant_engine.Workspace.Mutations.set_item_image item_id body) rest answer
        c =
      (
        stale-invalidate_again _ _ _ (stale-under (menu_all b) rest c),
        (stale-under (media_all b) rest _, tt),
      )
  menu-AreStale b _ rest answer c = (stale-under (menu_all b) rest c, tt)

  orders-AreStale :
      (b : Text) (m : OrderMutation) (id : Text) (rest : Key) (answer : Json) (c : C)
      → AreStale (outdated_by b (on_orders m) rest) (order_success cache b m id answer c)
  unfolding order_success
  orders-AreStale b (command name order_id) id rest answer c = (
    stale-invalidate_again _ _ _
        (stale-invalidate_again _ _ _ (stale-under (orders_lists b) rest _)),
    (
      stale-invalidate_again _ _ _ (cache.stale-invalidate _ _ _ (is_prefix_self _)),
      (cache.stale-invalidate _ _ _ (is_prefix_self _), tt),
    ),
  )
  orders-AreStale b (set_estimate order_id body) id rest answer c =
      (stale-under (orders_lists b) rest _, tt)

  previews-stale :
      (b : Text) (rest : Key) (c : C)
      → cache.stale (storefront_preview_root b ++ rest) (remove_previews cache b c) ≡ true
  unfolding remove_previews
  previews-stale b rest c = cache.stale-remove _ _ c (is_prefix_append _ rest)

  storefront-AreStale :
      (b : Text) (m : StorefrontMutation) (rest : Key) (answer : Json) (c : C)
      → AreStale (outdated_by b (on_storefront m) rest) (storefront_success cache b m answer c)
  unfolding storefront_success remove_previews
  storefront-AreStale b (restaurant_engine.Workspace.Boards.publish body) rest answer c = (
    stale-remove_again _ _ _ (stale-under (storefront_versions b) rest _),
    (previews-stale b rest _, tt),
  )
  storefront-AreStale b (restaurant_engine.Workspace.Boards.save_draft body) rest answer c =
      (previews-stale b rest _, tt)
  storefront-AreStale b (restaurant_engine.Workspace.Boards.restore_version version_id body) rest
        answer c =
      (previews-stale b rest _, tt)

  pub success_of-AreStale :
      (b : Text) (m : Mutation) (id : Text) (rest : Key) (answer : Json) (c : C)
      → AreStale (outdated_by b m rest) (success_of cache b m id answer c)
  unfolding success_of media_success modifier_success hours_success
  success_of-AreStale b (on_menu m) id rest answer c = menu-AreStale b m rest answer c
  success_of-AreStale b
        (on_modifiers item_id (restaurant_engine.Workspace.Mutations.reorder_groups ids)) id rest
        answer c =
      tt
  success_of-AreStale b (on_modifiers item_id _) id rest answer c =
      (cache.stale-invalidate _ _ c (is_prefix_self _), tt)
  success_of-AreStale b (on_hours (restaurant_engine.Workspace.Mutations.delete_exception date)) id
        rest answer c =
      (cache.stale-invalidate _ _ c (is_prefix_self _), tt)
  success_of-AreStale b (on_hours _) id rest answer c = tt
  success_of-AreStale b (on_orders m) id rest answer c = orders-AreStale b m id rest answer c
  success_of-AreStale b (on_storefront m) id rest answer c = storefront-AreStale b m rest answer c
  success_of-AreStale b (on_media (delete_asset asset_id)) id rest answer c =
      (stale-under (media_all b) rest c, tt)
