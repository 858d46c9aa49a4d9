-- ===== src/Workspace/Commands.antt =====
-- The mutations of a business's workspace in one type, and what their `mutationFn`s do. The upload of
-- an asset is not among them.
use restaurant_engine.Prelude.{Option, none, some}
use restaurant_engine.Prelude.Text.{Text}
use restaurant_engine.Js.{Json}
use restaurant_engine.Api.{ApiResult, Outcome, returned, thrown}
use restaurant_engine.Session.{SessionView, QueryClient, World, require_csrf, unwrap_privileged}
use restaurant_engine.Client.Calls.{Call}
use restaurant_engine.Workspace.Cache.{QueryCache}
use restaurant_engine.Workspace.Mutations.{
  MenuMutation, ModifierMutation, HoursMutation, menu_call, modifier_call, hours_call, menu_success,
  modifier_success, hours_success,
}
use restaurant_engine.Workspace.Boards.{
  OrderMutation, StorefrontMutation, MediaMutation, order_call, storefront_call, media_call,
  order_success, storefront_success, media_success,
}

-- A mutation of a business's workspace.
pub data Mutation : Type 0 where
  on_menu : MenuMutation → Mutation
  on_modifiers : Text → ModifierMutation → Mutation
  on_hours : HoursMutation → Mutation
  on_orders : OrderMutation → Mutation
  on_storefront : StorefrontMutation → Mutation
  on_media : MediaMutation → Mutation

-- The call of a mutation with the token that `requireCsrf` returns when it runs.
unfoldable pub call_of : Text → Mutation → Text → Call
unfolding menu_call modifier_call hours_call order_call storefront_call media_call
call_of business_id (on_menu m) csrf = menu_call business_id m csrf
call_of business_id (on_modifiers item_id m) csrf = modifier_call business_id item_id m csrf
call_of business_id (on_hours m) csrf = hours_call business_id m csrf
call_of business_id (on_orders m) csrf = order_call business_id m csrf
call_of business_id (on_storefront m) csrf = storefront_call business_id m csrf
call_of business_id (on_media m) csrf = media_call business_id m csrf

-- `mutationFn`: the token is read from the session of `w`, as it is when the mutation runs, and the
-- answer of `send` is dealt with in the world `later` that it arrives in. The call sent is the second
-- part, `none` where `requireCsrf` throws.
unfoldable pub run_mutation :
    (queries : QueryClient)
    → (Call → ApiResult Json)
    → Option (ApiResult SessionView)
    → Text
    → Mutation
    → World queries
    → World queries
    → World queries × Option Call × Outcome Json
unfolding require_csrf
run_mutation queries send refetch business_id m w later = elim (require_csrf queries w) [
  | thrown failure ↦ (w, none, thrown failure)
  | returned token ↦
      let call = call_of business_id m token in
      let (next, outcome) = unwrap_privileged queries refetch (send call) later in
      (next, some call, outcome)
]

module _ {C : Type 0} (cache : QueryCache C) where
  -- `onSuccess` with an answer, and the id that an order in it carries.
  unfoldable pub success_of : Text → Mutation → Text → Json → C → C
  unfolding menu_success modifier_success hours_success order_success storefront_success
      media_success
  success_of business_id (on_menu m) id answer c = menu_success cache business_id m answer c
  success_of business_id (on_modifiers item_id m) id answer c =
      modifier_success cache business_id item_id m answer c
  success_of business_id (on_hours m) id answer c = hours_success cache business_id m answer c
  success_of business_id (on_orders m) id answer c = order_success cache business_id m id answer c
  success_of business_id (on_storefront m) id answer c =
      storefront_success cache business_id m answer c
  success_of business_id (on_media m) id answer c = media_success cache business_id m c
