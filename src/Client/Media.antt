-- ===== src/Client/Media.antt =====
-- Media assets (packages/api-client/src/media.ts).
use restaurant_engine.Prelude.{Option, none, some, [], ◌∷◌}
use restaurant_engine.Prelude.Text.{Text, codes}
use restaurant_engine.Js.{Fields}
use restaurant_engine.Client.Defs.{get, delete_, ApiRequest, path_param, query_param, csrf}

pub data MediaCall : Type 0 where
  list_assets : Text → Option Fields → MediaCall
  get_asset : Text → Text → MediaCall
  delete_asset : Text → Text → Text → MediaCall

unfoldable pub media_request : MediaCall → ApiRequest
media_request (list_assets business_id params) = record {
  method = get;
  template = codes "/api/v1/businesses/{business_id}/media";
  path_params = path_param "business_id" business_id ∷ [];
  query =
      query_param "limit" "limit" params
      ∷ query_param "offset" "offset" params
      ∷ query_param "status" "status" params
      ∷ [];
  body = none;
  headers = [];
}
media_request (get_asset business_id asset_id) = record {
  method = get;
  template = codes "/api/v1/businesses/{business_id}/media/{asset_id}";
  path_params = path_param "business_id" business_id ∷ path_param "asset_id" asset_id ∷ [];
  query = [];
  body = none;
  headers = [];
}
media_request (delete_asset business_id asset_id csrf_token) = record {
  method = delete_;
  template = codes "/api/v1/businesses/{business_id}/media/{asset_id}";
  path_params = path_param "business_id" business_id ∷ path_param "asset_id" asset_id ∷ [];
  query = [];
  body = none;
  headers = csrf csrf_token;
}

-- The token that the caller passes, and the business that the call names.
abbrev pub media_token : MediaCall → Option Text
media_token (delete_asset business_id asset_id csrf_token) = some csrf_token
media_token _ = none

abbrev pub media_business : MediaCall → Option Text
media_business (list_assets business_id params) = some business_id
media_business (get_asset business_id asset_id) = some business_id
media_business (delete_asset business_id asset_id csrf_token) = some business_id
