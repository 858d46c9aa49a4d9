-- ===== src/Client/Modifiers.antt =====
-- Item commands, modifier groups and options (packages/api-client/src/catalog.ts).
use restaurant_engine.Prelude.{Option, none, some, [], ◌∷◌}
use restaurant_engine.Prelude.Text.{Text, codes}
use restaurant_engine.Js.{Json}
use restaurant_engine.Client.Defs.{get, post, patch, delete_, ApiRequest, path_param, csrf}

pub data ModifierCall : Type 0 where
  set_item_availability : Text → Text → Json → Text → ModifierCall
  set_item_image : Text → Text → Json → Text → ModifierCall
  get_modifier_groups : Text → Text → ModifierCall
  create_modifier_group : Text → Text → Json → Text → ModifierCall
  update_modifier_group : Text → Text → Json → Text → ModifierCall
  delete_modifier_group : Text → Text → Text → ModifierCall
  reorder_modifier_groups : Text → Text → Json → Text → ModifierCall
  create_modifier_option : Text → Text → Json → Text → ModifierCall
  update_modifier_option : Text → Text → Json → Text → ModifierCall
  delete_modifier_option : Text → Text → Text → ModifierCall
  reorder_modifier_options : Text → Text → Json → Text → ModifierCall

unfoldable pub modifier_request : ModifierCall → ApiRequest
modifier_request (set_item_availability business_id item_id body csrf_token) = record {
  method = post;
  template = codes "/api/v1/businesses/{business_id}/catalog/items/{item_id}/availability";
  path_params = path_param "business_id" business_id ∷ path_param "item_id" item_id ∷ [];
  query = [];
  body = some body;
  headers = csrf csrf_token;
}
modifier_request (set_item_image business_id item_id body csrf_token) = record {
  method = post;
  template = codes "/api/v1/businesses/{business_id}/catalog/items/{item_id}/image";
  path_params = path_param "business_id" business_id ∷ path_param "item_id" item_id ∷ [];
  query = [];
  body = some body;
  headers = csrf csrf_token;
}
modifier_request (get_modifier_groups business_id item_id) = record {
  method = get;
  template = codes "/api/v1/businesses/{business_id}/catalog/items/{item_id}/modifier-groups";
  path_params = path_param "business_id" business_id ∷ path_param "item_id" item_id ∷ [];
  query = [];
  body = none;
  headers = [];
}
modifier_request (create_modifier_group business_id item_id body csrf_token) = record {
  method = post;
  template = codes "/api/v1/businesses/{business_id}/catalog/items/{item_id}/modifier-groups";
  path_params = path_param "business_id" business_id ∷ path_param "item_id" item_id ∷ [];
  query = [];
  body = some body;
  headers = csrf csrf_token;
}
modifier_request (update_modifier_group business_id group_id body csrf_token) = record {
  method = patch;
  template = codes "/api/v1/businesses/{business_id}/catalog/modifier-groups/{group_id}";
  path_params = path_param "business_id" business_id ∷ path_param "group_id" group_id ∷ [];
  query = [];
  body = some body;
  headers = csrf csrf_token;
}
modifier_request (delete_modifier_group business_id group_id csrf_token) = record {
  method = delete_;
  template = codes "/api/v1/businesses/{business_id}/catalog/modifier-groups/{group_id}";
  path_params = path_param "business_id" business_id ∷ path_param "group_id" group_id ∷ [];
  query = [];
  body = none;
  headers = csrf csrf_token;
}
modifier_request (reorder_modifier_groups business_id item_id body csrf_token) = record {
  method = post;
  template =
      codes "/api/v1/businesses/{business_id}/catalog/items/{item_id}/modifier-groups/reorder";
  path_params = path_param "business_id" business_id ∷ path_param "item_id" item_id ∷ [];
  query = [];
  body = some body;
  headers = csrf csrf_token;
}
modifier_request (create_modifier_option business_id group_id body csrf_token) = record {
  method = post;
  template = codes "/api/v1/businesses/{business_id}/catalog/modifier-groups/{group_id}/options";
  path_params = path_param "business_id" business_id ∷ path_param "group_id" group_id ∷ [];
  query = [];
  body = some body;
  headers = csrf csrf_token;
}
modifier_request (update_modifier_option business_id option_id body csrf_token) = record {
  method = patch;
  template = codes "/api/v1/businesses/{business_id}/catalog/modifier-options/{option_id}";
  path_params = path_param "business_id" business_id ∷ path_param "option_id" option_id ∷ [];
  query = [];
  body = some body;
  headers = csrf csrf_token;
}
modifier_request (delete_modifier_option business_id option_id csrf_token) = record {
  method = delete_;
  template = codes "/api/v1/businesses/{business_id}/catalog/modifier-options/{option_id}";
  path_params = path_param "business_id" business_id ∷ path_param "option_id" option_id ∷ [];
  query = [];
  body = none;
  headers = csrf csrf_token;
}
modifier_request (reorder_modifier_options business_id group_id body csrf_token) = record {
  method = post;
  template =
      codes "/api/v1/businesses/{business_id}/catalog/modifier-groups/{group_id}/options/reorder";
  path_params = path_param "business_id" business_id ∷ path_param "group_id" group_id ∷ [];
  query = [];
  body = some body;
  headers = csrf csrf_token;
}

-- The token that the caller passes, and the business that the call names.
abbrev pub modifier_token : ModifierCall → Option Text
modifier_token (set_item_availability business_id item_id body csrf_token) = some csrf_token
modifier_token (set_item_image business_id item_id body csrf_token) = some csrf_token
modifier_token (create_modifier_group business_id item_id body csrf_token) = some csrf_token
modifier_token (update_modifier_group business_id group_id body csrf_token) = some csrf_token
modifier_token (delete_modifier_group business_id group_id csrf_token) = some csrf_token
modifier_token (reorder_modifier_groups business_id item_id body csrf_token) = some csrf_token
modifier_token (create_modifier_option business_id group_id body csrf_token) = some csrf_token
modifier_token (update_modifier_option business_id option_id body csrf_token) = some csrf_token
modifier_token (delete_modifier_option business_id option_id csrf_token) = some csrf_token
modifier_token (reorder_modifier_options business_id group_id body csrf_token) = some csrf_token
modifier_token _ = none

abbrev pub modifier_business : ModifierCall → Option Text
modifier_business (set_item_availability business_id item_id body csrf_token) = some business_id
modifier_business (set_item_image business_id item_id body csrf_token) = some business_id
modifier_business (get_modifier_groups business_id item_id) = some business_id
modifier_business (create_modifier_group business_id item_id body csrf_token) = some business_id
modifier_business (update_modifier_group business_id group_id body csrf_token) = some business_id
modifier_business (delete_modifier_group business_id group_id csrf_token) = some business_id
modifier_business (reorder_modifier_groups business_id item_id body csrf_token) = some business_id
modifier_business (create_modifier_option business_id group_id body csrf_token) = some business_id
modifier_business (update_modifier_option business_id option_id body csrf_token) = some business_id
modifier_business (delete_modifier_option business_id option_id csrf_token) = some business_id
modifier_business (reorder_modifier_options business_id group_id body csrf_token) = some business_id
