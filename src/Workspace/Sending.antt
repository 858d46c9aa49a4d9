-- ===== src/Workspace/Sending.antt =====
-- What a mutation sends, and when.
use restaurant_engine.Prelude.{Option, none, some, ◌≡◌, ◌⊎◌, inl, inr, refl}
use restaurant_engine.Prelude.Text.{Text}
use restaurant_engine.Js.{Json}
use restaurant_engine.Api.{ApiResult, thrown, unwrap}
use restaurant_engine.Session.{
  SessionView, SessionState, authenticated, anonymous, QueryClient, World, require_csrf,
  current_csrf_token, unwrap_privileged,
}
use restaurant_engine.Session
use restaurant_engine.Session.Races.{require_csrf_anonymous, require_csrf_authenticated}
use restaurant_engine.Client.Calls.{Call, business_of, token_of}
use restaurant_engine.Workspace.Mutations.{
  MenuMutation, ModifierMutation, HoursMutation, menu_call, modifier_call, hours_call, menu_success,
  modifier_success, hours_success,
}
use restaurant_engine.Workspace.Boards.{
  OrderMutation, StorefrontMutation, MediaMutation, order_call, storefront_call, media_call,
  order_success, order_error, storefront_success, media_success, merge_draft, remove_previews,
  command, set_estimate, delete_asset,
}
use restaurant_engine.Workspace.Commands.{
  Mutation, on_menu, on_modifiers, on_hours, on_orders, on_storefront, on_media, call_of,
  run_mutation,
}

abbrev pub IsSentFor : Text → Text → Call → Type 0
IsSentFor business_id csrf call =
    (business_of call ≡ some business_id) × (token_of call ≡ some csrf)

menu_call-business :
    (business_id : Text) (m : MenuMutation) (csrf : Text)
    → IsSentFor business_id csrf (menu_call business_id m csrf)
unfolding menu_call
menu_call-business business_id (restaurant_engine.Workspace.Mutations.create_category body) csrf =
    (refl, refl)
menu_call-business business_id _ csrf = (refl, refl)

modifier_call-business :
    (business_id : Text) (item_id : Text) (m : ModifierMutation) (csrf : Text)
    → IsSentFor business_id csrf (modifier_call business_id item_id m csrf)
unfolding modifier_call
modifier_call-business business_id item_id (restaurant_engine.Workspace.Mutations.create_group body)
      csrf =
    (refl, refl)
modifier_call-business business_id item_id _ csrf = (refl, refl)

hours_call-business :
    (business_id : Text) (m : HoursMutation) (csrf : Text)
    → IsSentFor business_id csrf (hours_call business_id m csrf)
unfolding hours_call
hours_call-business business_id (restaurant_engine.Workspace.Mutations.set_weekly body) csrf =
    (refl, refl)
hours_call-business business_id _ csrf = (refl, refl)

order_call-business :
    (business_id : Text) (m : OrderMutation) (csrf : Text)
    → IsSentFor business_id csrf (order_call business_id m csrf)
unfolding order_call
order_call-business business_id (command name order_id) csrf = (refl, refl)
order_call-business business_id (set_estimate order_id body) csrf = (refl, refl)

storefront_call-business :
    (business_id : Text) (m : StorefrontMutation) (csrf : Text)
    → IsSentFor business_id csrf (storefront_call business_id m csrf)
unfolding storefront_call
storefront_call-business business_id (restaurant_engine.Workspace.Boards.save_draft body) csrf =
    (refl, refl)
storefront_call-business business_id _ csrf = (refl, refl)

call_of-IsSentFor :
    (business_id : Text) (m : Mutation) (csrf : Text)
    → IsSentFor business_id csrf (call_of business_id m csrf)
unfolding call_of media_call
call_of-IsSentFor business_id (on_menu m) csrf = menu_call-business business_id m csrf
call_of-IsSentFor business_id (on_modifiers item_id m) csrf =
    modifier_call-business business_id item_id m csrf
call_of-IsSentFor business_id (on_hours m) csrf = hours_call-business business_id m csrf
call_of-IsSentFor business_id (on_orders m) csrf = order_call-business business_id m csrf
call_of-IsSentFor business_id (on_storefront m) csrf = storefront_call-business business_id m csrf
call_of-IsSentFor business_id (on_media (delete_asset asset_id)) csrf = (refl, refl)

module _ (queries : QueryClient) where
  open queries use {get_session}

  -- No session, or that of a guest.
  abbrev pub IsSignedOff : World queries → Type 0
  IsSignedOff w = (get_session w.cache ≡ none) ⊎ (get_session w.cache ≡ some anonymous)

  session_cases :
      (o : Option SessionState)
      → ((o ≡ none) ⊎ (o ≡ some anonymous))
        ⊎ ((view : SessionView) × (token : Text) × (o ≡ some (authenticated view token)))
  session_cases none = inl (inl refl)
  session_cases (some anonymous) = inl (inr refl)
  session_cases (some (authenticated view token)) = inr (view, token, refl)

  signed_off :
      (w : World queries)
      → IsSignedOff w
      → require_csrf queries w ≡ thrown (record { status = some 401; envelope = none })
  unfolding require_csrf current_csrf_token
  signed_off w (inl absent) =
      rw (absent, require_csrf, current_csrf_token, restaurant_engine.Session.token_of) refl
  signed_off w (inr guest) = require_csrf_anonymous queries w guest

  -- A mutation, whatever the client does with its call, is sent with the token of the session that is
  -- cached when it runs, for the business of its workspace, and ends as the answer does, which is
  -- dealt with as a privileged one in the world that it arrives in. Where no session or a guest's is
  -- cached, nothing is sent, the world stays as it was, and a 401 without an envelope is thrown.
  pub run_mutation-IsSentFor :
      (send : Call → ApiResult Json) (refetch : Option (ApiResult SessionView)) (business_id : Text)
      (m : Mutation) (w later : World queries)
      → ((view : SessionView) × (token : Text) × (call : Call) × (get_session w.cache
            ≡ some (authenticated view token))
          × IsSentFor business_id token call
          × ((run_mutation queries send refetch business_id m w later).1 ≡ some call)
          × ((run_mutation queries send refetch business_id m w later).2 ≡ unwrap (send call))
          × ((run_mutation queries send refetch business_id m w later).0
              ≡ (unwrap_privileged queries refetch (send call) later).0))
        ⊎ (IsSignedOff w
            × (run_mutation queries send refetch business_id m w later
                ≡ (w, none, thrown (record { status = some 401; envelope = none }))))
  unfolding run_mutation unwrap_privileged
  run_mutation-IsSentFor send refetch b m w later = elim (session_cases (get_session w.cache)) [
    | inl off ↦ inr (off, rw (signed_off w off, run_mutation) refl)
    | inr (view, token, found) ↦ inl (
      view,
      token,
      call_of b m token,
      found,
      call_of-IsSentFor b m token,
      rw (require_csrf_authenticated queries w view token found, run_mutation) refl,
      rw (require_csrf_authenticated queries w view token found, run_mutation) refl,
      rw (require_csrf_authenticated queries w view token found, run_mutation) refl,
    )
  ]
