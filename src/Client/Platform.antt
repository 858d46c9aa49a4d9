-- ===== src/Client/Platform.antt =====
-- Businesses as the platform keeps them (packages/api-client/src/platform.ts).
use restaurant_engine.Prelude.{Option, none, some, [], ◌∷◌}
use restaurant_engine.Prelude.Text.{Text, codes}
use restaurant_engine.Js.{Json, obj, Fields, end}
use restaurant_engine.Client.Defs.{get, post, ApiRequest, path_param, query_param, csrf}

pub data PlatformCall : Type 0 where
  create_business : Json → Text → PlatformCall
  list_businesses : Option Fields → PlatformCall
  get_business : Text → PlatformCall
  activate : Text → Text → PlatformCall
  suspend : Text → Text → PlatformCall
  reactivate : Text → Text → PlatformCall
  close : Text → Text → PlatformCall

unfoldable pub platform_request : PlatformCall → ApiRequest
platform_request (create_business body csrf_token) = record {
  method = post;
  template = codes "/api/v1/platform/businesses";
  path_params = [];
  query = [];
  body = some body;
  headers = csrf csrf_token;
}
platform_request (list_businesses params) = record {
  method = get;
  template = codes "/api/v1/platform/businesses";
  path_params = [];
  query = query_param "limit" "limit" params ∷ query_param "offset" "offset" params ∷ [];
  body = none;
  headers = [];
}
platform_request (get_business business_id) = record {
  method = get;
  template = codes "/api/v1/platform/businesses/{business_id}";
  path_params = path_param "business_id" business_id ∷ [];
  query = [];
  body = none;
  headers = [];
}
platform_request (activate business_id csrf_token) = record {
  method = post;
  template = codes "/api/v1/platform/businesses/{business_id}/activate";
  path_params = path_param "business_id" business_id ∷ [];
  query = [];
  body = some (obj end);
  headers = csrf csrf_token;
}
platform_request (suspend business_id csrf_token) = record {
  method = post;
  template = codes "/api/v1/platform/businesses/{business_id}/suspend";
  path_params = path_param "business_id" business_id ∷ [];
  query = [];
  body = some (obj end);
  headers = csrf csrf_token;
}
platform_request (reactivate business_id csrf_token) = record {
  method = post;
  template = codes "/api/v1/platform/businesses/{business_id}/reactivate";
  path_params = path_param "business_id" business_id ∷ [];
  query = [];
  body = some (obj end);
  headers = csrf csrf_token;
}
platform_request (close business_id csrf_token) = record {
  method = post;
  template = codes "/api/v1/platform/businesses/{business_id}/close";
  path_params = path_param "business_id" business_id ∷ [];
  query = [];
  body = some (obj end);
  headers = csrf csrf_token;
}

-- The token that the caller passes, and the business that the call names.
abbrev pub platform_token : PlatformCall → Option Text
platform_token (create_business body csrf_token) = some csrf_token
platform_token (activate business_id csrf_token) = some csrf_token
platform_token (suspend business_id csrf_token) = some csrf_token
platform_token (reactivate business_id csrf_token) = some csrf_token
platform_token (close business_id csrf_token) = some csrf_token
platform_token _ = none

abbrev pub platform_business : PlatformCall → Option Text
platform_business (get_business business_id) = some business_id
platform_business (activate business_id csrf_token) = some business_id
platform_business (suspend business_id csrf_token) = some business_id
platform_business (reactivate business_id csrf_token) = some business_id
platform_business (close business_id csrf_token) = some business_id
platform_business _ = none
