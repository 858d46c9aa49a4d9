-- ===== src/Workspace/Mutations.antt =====
-- The mutations of the menu (apps/control-center/src/menu/{menuData,modifierData}.ts) and of the hours
-- (hours/hoursData.ts, and useSetOrderingPause of orders/ordersData.ts): the call that `mutationFn` makes
-- with the token of the session, and what `onSuccess` does to the cache with the answer.
use restaurant_engine.Prelude.{Bool, List, map, String}
use restaurant_engine.Prelude.Text.{Text}
use restaurant_engine.Js.{Json, str, arr, obj, bool, end, field, from_list}
use restaurant_engine.Client.Calls.{Call, catalog, modifiers, hours}
use restaurant_engine.Client.Catalog
use restaurant_engine.Client.Modifiers
use restaurant_engine.Client.Hours
use restaurant_engine.Workspace.Cache.{
  QueryCache, menu_all, menu_tree, menu_modifiers, media_all, hours_settings,
}

pub data MenuMutation : Type 0 where
  create_category : Json → MenuMutation
  update_category : Text → Json → MenuMutation
  delete_category : Text → MenuMutation
  reorder_categories : List Text → MenuMutation
  reorder_items : Text → List Text → MenuMutation
  create_item : Text → Json → MenuMutation
  update_item : Text → Json → MenuMutation
  delete_item : Text → MenuMutation
  set_item_availability : Text → Bool → MenuMutation
  set_item_image : Text → Json → MenuMutation

pub data ModifierMutation : Type 0 where
  create_group : Json → ModifierMutation
  update_group : Text → Json → ModifierMutation
  delete_group : Text → ModifierMutation
  reorder_groups : List Text → ModifierMutation
  create_option : Text → Json → ModifierMutation
  update_option : Text → Json → ModifierMutation
  delete_option : Text → ModifierMutation

pub data HoursMutation : Type 0 where
  set_weekly : Json → HoursMutation
  set_exception : Text → Json → HoursMutation
  delete_exception : Text → HoursMutation
  set_fulfillment : Json → HoursMutation
  set_ordering_pause : Json → HoursMutation

abbrev pub ids_body : String → List Text → Json
ids_body name ids = obj (field name (arr (from_list (map (λ id. str id) ids))) end)

abbrev pub items_body : Text → List Text → Json
items_body category_id ids = obj (
    field "category_id" (str category_id)
      (field "ordered_item_ids" (arr (from_list (map (λ id. str id) ids))) end))

abbrev pub availability_body : Bool → Json
availability_body is_available = obj (field "is_available" (bool is_available) end)

-- `csrf` is what `requireCsrf` returns when the mutation runs (`run_mutation`).
unfoldable pub menu_call : Text → MenuMutation → Text → Call
menu_call business_id (create_category body) csrf =
    catalog (restaurant_engine.Client.Catalog.create_category business_id body csrf)
menu_call business_id (update_category category_id body) csrf =
    catalog (restaurant_engine.Client.Catalog.update_category business_id category_id body csrf)
menu_call business_id (delete_category category_id) csrf =
    catalog (restaurant_engine.Client.Catalog.delete_category business_id category_id csrf)
menu_call business_id (reorder_categories ordered_ids) csrf = catalog (
    restaurant_engine.Client.Catalog.reorder_categories business_id
      (ids_body "ordered_category_ids" ordered_ids) csrf)
menu_call business_id (reorder_items category_id ordered_ids) csrf = catalog (
    restaurant_engine.Client.Catalog.reorder_items business_id (items_body category_id ordered_ids)
      csrf)
menu_call business_id (create_item category_id body) csrf =
    catalog (restaurant_engine.Client.Catalog.create_item business_id category_id body csrf)
menu_call business_id (update_item item_id body) csrf =
    catalog (restaurant_engine.Client.Catalog.update_item business_id item_id body csrf)
menu_call business_id (delete_item item_id) csrf =
    catalog (restaurant_engine.Client.Catalog.delete_item business_id item_id csrf)
menu_call business_id (set_item_availability item_id is_available) csrf = modifiers (
    restaurant_engine.Client.Modifiers.set_item_availability business_id item_id
      (availability_body is_available) csrf)
menu_call business_id (set_item_image item_id body) csrf =
    modifiers (restaurant_engine.Client.Modifiers.set_item_image business_id item_id body csrf)

unfoldable pub modifier_call : Text → Text → ModifierMutation → Text → Call
modifier_call business_id item_id (create_group body) csrf =
    modifiers
      (restaurant_engine.Client.Modifiers.create_modifier_group business_id item_id body csrf)
modifier_call business_id item_id (update_group group_id body) csrf =
    modifiers
      (restaurant_engine.Client.Modifiers.update_modifier_group business_id group_id body csrf)
modifier_call business_id item_id (delete_group group_id) csrf =
    modifiers (restaurant_engine.Client.Modifiers.delete_modifier_group business_id group_id csrf)
modifier_call business_id item_id (reorder_groups ordered_ids) csrf = modifiers (
    restaurant_engine.Client.Modifiers.reorder_modifier_groups business_id item_id
      (ids_body "ordered_group_ids" ordered_ids) csrf)
modifier_call business_id item_id (create_option group_id body) csrf =
    modifiers
      (restaurant_engine.Client.Modifiers.create_modifier_option business_id group_id body csrf)
modifier_call business_id item_id (update_option option_id body) csrf =
    modifiers
      (restaurant_engine.Client.Modifiers.update_modifier_option business_id option_id body csrf)
modifier_call business_id item_id (delete_option option_id) csrf =
    modifiers (restaurant_engine.Client.Modifiers.delete_modifier_option business_id option_id csrf)

unfoldable pub hours_call : Text → HoursMutation → Text → Call
hours_call business_id (set_weekly body) csrf =
    hours (restaurant_engine.Client.Hours.set_weekly business_id body csrf)
hours_call business_id (set_exception date body) csrf =
    hours (restaurant_engine.Client.Hours.set_exception business_id date body csrf)
hours_call business_id (delete_exception date) csrf =
    hours (restaurant_engine.Client.Hours.delete_exception business_id date csrf)
hours_call business_id (set_fulfillment body) csrf =
    hours (restaurant_engine.Client.Hours.set_fulfillment business_id body csrf)
hours_call business_id (set_ordering_pause body) csrf =
    hours (restaurant_engine.Client.Hours.set_ordering_pause business_id body csrf)

module _ {C : Type 0} (cache : QueryCache C) where
  unfoldable pub menu_success : Text → MenuMutation → Json → C → C
  menu_success business_id (reorder_categories ordered_ids) answer c =
      cache.set (menu_tree business_id) answer c
  menu_success business_id (reorder_items category_id ordered_ids) answer c =
      cache.set (menu_tree business_id) answer c
  menu_success business_id (set_item_image item_id body) answer c =
      cache.invalidate (media_all business_id) (cache.invalidate (menu_all business_id) c)
  menu_success business_id _ answer c = cache.invalidate (menu_all business_id) c

  unfoldable pub modifier_success : Text → Text → ModifierMutation → Json → C → C
  modifier_success business_id item_id (reorder_groups ordered_ids) answer c =
      cache.set (menu_modifiers business_id item_id) answer c
  modifier_success business_id item_id _ answer c =
      cache.invalidate (menu_modifiers business_id item_id) c

  unfoldable pub hours_success : Text → HoursMutation → Json → C → C
  hours_success business_id (delete_exception date) answer c =
      cache.invalidate (hours_settings business_id) c
  hours_success business_id _ answer c = cache.set (hours_settings business_id) answer c
