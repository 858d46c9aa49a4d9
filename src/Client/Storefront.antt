-- ===== src/Client/Storefront.antt =====
-- Storefront drafts and versions (packages/api-client/src/storefront.ts).
use restaurant_engine.Prelude.{Option, none, some, [], ◌∷◌}
use restaurant_engine.Prelude.Text.{Text, codes}
use restaurant_engine.Js.{Json, Fields}
use restaurant_engine.Client.Defs.{get, post, put, ApiRequest, path_param, query_param, csrf}

pub data StorefrontCall : Type 0 where
  get_one : Text → StorefrontCall
  preview : Text → StorefrontCall
  put_draft : Text → Json → Text → StorefrontCall
  publish : Text → Json → Text → StorefrontCall
  list_versions : Text → Option Fields → StorefrontCall
  get_version : Text → Text → StorefrontCall
  restore_version : Text → Text → Json → Text → StorefrontCall

unfoldable pub storefront_request : StorefrontCall → ApiRequest
storefront_request (get_one business_id) = record {
  method = get;
  template = codes "/api/v1/businesses/{business_id}/storefront";
  path_params = path_param "business_id" business_id ∷ [];
  query = [];
  body = none;
  headers = [];
}
storefront_request (preview business_id) = record {
  method = get;
  template = codes "/api/v1/businesses/{business_id}/storefront/preview";
  path_params = path_param "business_id" business_id ∷ [];
  query = [];
  body = none;
  headers = [];
}
storefront_request (put_draft business_id body csrf_token) = record {
  method = put;
  template = codes "/api/v1/businesses/{business_id}/storefront/draft";
  path_params = path_param "business_id" business_id ∷ [];
  query = [];
  body = some body;
  headers = csrf csrf_token;
}
storefront_request (publish business_id body csrf_token) = record {
  method = post;
  template = codes "/api/v1/businesses/{business_id}/storefront/publish";
  path_params = path_param "business_id" business_id ∷ [];
  query = [];
  body = some body;
  headers = csrf csrf_token;
}
storefront_request (list_versions business_id params) = record {
  method = get;
  template = codes "/api/v1/businesses/{business_id}/storefront/versions";
  path_params = path_param "business_id" business_id ∷ [];
  query = query_param "limit" "limit" params ∷ query_param "offset" "offset" params ∷ [];
  body = none;
  headers = [];
}
storefront_request (get_version business_id version_id) = record {
  method = get;
  template = codes "/api/v1/businesses/{business_id}/storefront/versions/{version_id}";
  path_params = path_param "business_id" business_id ∷ path_param "version_id" version_id ∷ [];
  query = [];
  body = none;
  headers = [];
}
storefront_request (restore_version business_id version_id body csrf_token) = record {
  method = post;
  template = codes "/api/v1/businesses/{business_id}/storefront/versions/{version_id}/restore";
  path_params = path_param "business_id" business_id ∷ path_param "version_id" version_id ∷ [];
  query = [];
  body = some body;
  headers = csrf csrf_token;
}

-- The token that the caller passes, and the business that the call names.
abbrev pub storefront_token : StorefrontCall → Option Text
storefront_token (put_draft business_id body csrf_token) = some csrf_token
storefront_token (publish business_id body csrf_token) = some csrf_token
storefront_token (restore_version business_id version_id body csrf_token) = some csrf_token
storefront_token _ = none

abbrev pub storefront_business : StorefrontCall → Option Text
storefront_business (get_one business_id) = some business_id
storefront_business (preview business_id) = some business_id
storefront_business (put_draft business_id body csrf_token) = some business_id
storefront_business (publish business_id body csrf_token) = some business_id
storefront_business (list_versions business_id params) = some business_id
storefront_business (get_version business_id version_id) = some business_id
storefront_business (restore_version business_id version_id body csrf_token) = some business_id
