-- ===== src/Workspace/Boards.antt =====
-- The mutations of the order board (apps/control-center/src/orders/ordersData.ts), of the storefront
-- (storefront/storefrontData.ts) and of the media library (media/mediaData.ts).
use restaurant_engine.Prelude.{Option, none, some, if◌then◌else◌, String}
use restaurant_engine.Prelude.Text.{Text, codes, text_eq}
use restaurant_engine.Js.{Json, Fields, obj, end, field}
use restaurant_engine.Client.Calls.{Call, orders, storefront, media}
use restaurant_engine.Client.Orders.{OrderCommand}
use restaurant_engine.Client.Orders
use restaurant_engine.Client.Storefront
use restaurant_engine.Client.Media
use restaurant_engine.Workspace.Cache.{
  QueryCache, media_all, orders_root, orders_lists, orders_incoming, orders_detail, orders_metrics,
  storefront_overview, storefront_preview_root, storefront_versions,
}

-- `useOrderCommand` and `useSetEstimate`
pub data OrderMutation : Type 0 where
  command : OrderCommand → Text → OrderMutation
  set_estimate : Text → Json → OrderMutation

pub data StorefrontMutation : Type 0 where
  save_draft : Json → StorefrontMutation
  publish : Json → StorefrontMutation
  restore_version : Text → Json → StorefrontMutation

-- `useDeleteAsset`
pub data MediaMutation : Type 0 where
  delete_asset : Text → MediaMutation

unfoldable pub order_call : Text → OrderMutation → Text → Call
order_call business_id (command name order_id) csrf =
    orders (restaurant_engine.Client.Orders.transition name business_id order_id csrf)
order_call business_id (set_estimate order_id body) csrf =
    orders (restaurant_engine.Client.Orders.set_estimate business_id order_id body csrf)

unfoldable pub storefront_call : Text → StorefrontMutation → Text → Call
storefront_call business_id (save_draft body) csrf =
    storefront (restaurant_engine.Client.Storefront.put_draft business_id body csrf)
storefront_call business_id (publish body) csrf =
    storefront (restaurant_engine.Client.Storefront.publish business_id body csrf)
storefront_call business_id (restore_version version_id body) csrf =
    storefront
      (restaurant_engine.Client.Storefront.restore_version business_id version_id body csrf)

unfoldable pub media_call : Text → MediaMutation → Text → Call
media_call business_id (delete_asset asset_id) csrf =
    media (restaurant_engine.Client.Media.delete_asset business_id asset_id csrf)

-- `{ ...existing, draft }`
abbrev pub put_field : String → Json → Fields → Fields
put_field name v end = field name v end
put_field name v (field k w fs) =
    let rest = put_field name v fs in
    if text_eq (codes k) (codes name) then field k v fs else field k w rest

abbrev pub with_draft : Json → Json → Json
with_draft draft (obj fs) = obj (put_field "draft" draft fs)
with_draft draft _ = obj (field "draft" draft end)

module _ {C : Type 0} (cache : QueryCache C) where
  -- The detail is the answer, filed under the id that it carries.
  unfoldable pub order_success : Text → OrderMutation → Text → Json → C → C
  order_success business_id (command name order_id) id detail c =
      cache.invalidate (orders_metrics business_id) (
        cache.invalidate (orders_incoming business_id) (
          cache.invalidate (orders_lists business_id)
            (cache.set (orders_detail business_id id) detail c)))
  order_success business_id (set_estimate order_id body) id detail c =
      cache.invalidate (orders_lists business_id)
        (cache.set (orders_detail business_id id) detail c)

  -- `onError`, whatever the failure
  unfoldable pub order_error : Text → C → C
  order_error business_id c = cache.invalidate (orders_root business_id) c

  -- `mergeDraftIntoOverview`, by the cached overview
  abbrev pub merge_draft : Text → Json → Option Json → C → C
  merge_draft business_id draft none c = cache.invalidate (storefront_overview business_id) c
  merge_draft business_id draft (some existing) c =
      cache.set (storefront_overview business_id) (with_draft draft existing) c

  unfoldable pub remove_previews : Text → C → C
  remove_previews business_id c = cache.remove (storefront_preview_root business_id) c

  unfoldable pub storefront_success : Text → StorefrontMutation → Json → C → C
  unfolding remove_previews
  storefront_success business_id (publish body) overview c = remove_previews business_id (
      cache.invalidate (storefront_versions business_id)
        (cache.set (storefront_overview business_id) overview c))
  storefront_success business_id _ draft c =
      remove_previews business_id
        (merge_draft business_id draft (cache.get (storefront_overview business_id) c) c)

  unfoldable pub media_success : Text → MediaMutation → C → C
  media_success business_id (delete_asset asset_id) c = cache.invalidate (media_all business_id) c
