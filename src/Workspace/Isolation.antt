-- ===== src/Workspace/Isolation.antt =====
-- A mutation changes nothing that is cached of another business.
use restaurant_engine.Prelude.{
  Bool, true, false, not, Option, none, some, [], ◌∷◌, ◌≡◌, refl, ◌∙◌, arith,
}
use restaurant_engine.Prelude.Text.{Text, text_eq}
use restaurant_engine.Js.{Json}
use restaurant_engine.Workspace.Cache.{Key, is_prefix, is_key, QueryCache}
use restaurant_engine.Workspace.Mutations.{
  MenuMutation, ModifierMutation, HoursMutation, menu_call, modifier_call, hours_call, menu_success,
  modifier_success, hours_success,
}
use restaurant_engine.Workspace.Boards.{
  OrderMutation, StorefrontMutation, MediaMutation, order_call, storefront_call, media_call,
  order_success, order_error, storefront_success, media_success, merge_draft, remove_previews,
  command, set_estimate, delete_asset,
}
use restaurant_engine.Workspace.Commands.{
  Mutation, on_menu, on_modifiers, on_hours, on_orders, on_storefront, on_media, success_of,
}

-- The names of another business: its second part is not this one.
abbrev pub is_foreign : Text → Key → Bool
unfolding text_eq
is_foreign business_id (domain ∷ other ∷ key) = not (text_eq business_id other)
is_foreign business_id _ = false

prefix_foreign :
    (x b : Text) (rest l : Key) → is_foreign b l ≡ true → is_prefix (x ∷ b ∷ rest) l ≡ false
unfolding is_prefix
prefix_foreign x b rest [] h = refl
prefix_foreign x b rest (d ∷ []) h = ground arith
prefix_foreign x b rest (d ∷ o ∷ key) h = ground arith

key_foreign : (x b : Text) (rest l : Key) → is_foreign b l ≡ true → is_key (x ∷ b ∷ rest) l ≡ false
unfolding is_key
key_foreign x b rest [] h = refl
key_foreign x b rest (d ∷ []) h = ground arith
key_foreign x b rest (d ∷ o ∷ key) h = ground arith

module _ {C : Type 0} (cache : QueryCache C) where
  -- What is under a key, and whether it is fresh, is as before.
  abbrev pub IsKept : Key → C → C → Type 0
  IsKept l c next = (cache.get l next ≡ cache.get l c) × (cache.stale l next ≡ cache.stale l c)

  module _ (business_id : Text) (l : Key) (foreign : is_foreign business_id l ≡ true) (c : C) where
    after_set :
        (x : Text) (rest : Key) (v : Json) (next : C)
        → IsKept l c next
        → IsKept l c (cache.set (x ∷ business_id ∷ rest) v next)
    after_set x rest v next (same, fresh) =
        let other = key_foreign x business_id rest l foreign in
        (
          cache.get-set_other _ l v next other ∙ same,
          cache.stale-set_other _ l v next other ∙ fresh,
        )

    after_invalidate :
        (x : Text) (rest : Key) (next : C)
        → IsKept l c next
        → IsKept l c (cache.invalidate (x ∷ business_id ∷ rest) next)
    after_invalidate x rest next (same, fresh) = (
      cache.get-invalidate _ l next ∙ same,
      cache.stale-invalidate_other _ l next (prefix_foreign x business_id rest l foreign) ∙ fresh,
    )

    after_remove :
        (x : Text) (rest : Key) (next : C)
        → IsKept l c next
        → IsKept l c (cache.remove (x ∷ business_id ∷ rest) next)
    after_remove x rest next (same, fresh) =
        let other = prefix_foreign x business_id rest l foreign in
        (
          cache.get-remove_other _ l next other ∙ same,
          cache.stale-remove_other _ l next other ∙ fresh,
        )

    menu_success-IsKept :
        (m : MenuMutation) (answer : Json) → IsKept l c (menu_success cache business_id m answer c)
    unfolding menu_success
    menu_success-IsKept (restaurant_engine.Workspace.Mutations.set_item_image item_id body) answer =
        after_invalidate _ _ _ (after_invalidate _ _ c (refl, refl))
    menu_success-IsKept (restaurant_engine.Workspace.Mutations.reorder_categories ids) answer =
        after_set _ _ answer c (refl, refl)
    menu_success-IsKept (restaurant_engine.Workspace.Mutations.reorder_items category_id ids)
          answer =
        after_set _ _ answer c (refl, refl)
    menu_success-IsKept _ answer = after_invalidate _ _ c (refl, refl)

    modifier_success-IsKept :
        (item_id : Text) (m : ModifierMutation) (answer : Json)
        → IsKept l c (modifier_success cache business_id item_id m answer c)
    unfolding modifier_success
    modifier_success-IsKept item_id (restaurant_engine.Workspace.Mutations.reorder_groups ids)
          answer =
        after_set _ _ answer c (refl, refl)
    modifier_success-IsKept item_id _ answer = after_invalidate _ _ c (refl, refl)

    hours_success-IsKept :
        (m : HoursMutation) (answer : Json)
        → IsKept l c (hours_success cache business_id m answer c)
    unfolding hours_success
    hours_success-IsKept (restaurant_engine.Workspace.Mutations.delete_exception date) answer =
        after_invalidate _ _ c (refl, refl)
    hours_success-IsKept _ answer = after_set _ _ answer c (refl, refl)

    order_success-IsKept :
        (m : OrderMutation) (id : Text) (answer : Json)
        → IsKept l c (order_success cache business_id m id answer c)
    unfolding order_success
    order_success-IsKept (command name order_id) id answer =
        after_invalidate _ _ _
          (after_invalidate _ _ _ (after_invalidate _ _ _ (after_set _ _ answer c (refl, refl))))
    order_success-IsKept (set_estimate order_id body) id answer =
        after_invalidate _ _ _ (after_set _ _ answer c (refl, refl))

    merge_draft-IsKept :
        (draft : Json) (existing : Option Json)
        → IsKept l c (merge_draft cache business_id draft existing c)
    merge_draft-IsKept draft none = after_invalidate _ _ c (refl, refl)
    merge_draft-IsKept draft (some overview) = after_set _ _ _ c (refl, refl)

    storefront_success-IsKept :
        (m : StorefrontMutation) (answer : Json)
        → IsKept l c (storefront_success cache business_id m answer c)
    unfolding storefront_success
    storefront_success-IsKept (restaurant_engine.Workspace.Boards.publish body) answer =
        after_remove _ _ _ (after_invalidate _ _ _ (after_set _ _ answer c (refl, refl)))
    storefront_success-IsKept (restaurant_engine.Workspace.Boards.save_draft body) answer =
        after_remove _ _ _ (merge_draft-IsKept answer _)
    storefront_success-IsKept (restaurant_engine.Workspace.Boards.restore_version version_id body)
          answer =
        after_remove _ _ _ (merge_draft-IsKept answer _)

  -- A successful mutation of one business leaves everything that is cached under a key of another
  -- as it was, its freshness included.
  pub success_of-IsKept :
      (business_id : Text) (m : Mutation) (id : Text) (answer : Json) (l : Key) (c : C)
      → is_foreign business_id l ≡ true
      → IsKept l c (success_of cache business_id m id answer c)
  unfolding success_of media_success
  success_of-IsKept b (on_menu m) id answer l c foreign = menu_success-IsKept b l foreign c m answer
  success_of-IsKept b (on_modifiers item_id m) id answer l c foreign =
      modifier_success-IsKept b l foreign c item_id m answer
  success_of-IsKept b (on_hours m) id answer l c foreign =
      hours_success-IsKept b l foreign c m answer
  success_of-IsKept b (on_orders m) id answer l c foreign =
      order_success-IsKept b l foreign c m id answer
  success_of-IsKept b (on_storefront m) id answer l c foreign =
      storefront_success-IsKept b l foreign c m answer
  success_of-IsKept b (on_media (delete_asset asset_id)) id answer l c foreign =
      after_invalidate b l foreign c _ _ c (refl, refl)
