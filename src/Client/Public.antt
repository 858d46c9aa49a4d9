-- ===== src/Client/Public.antt =====
-- The anonymous surface (packages/api-client/src/public.ts).
use restaurant_engine.Prelude.{Option, none, some, [], ◌∷◌}
use restaurant_engine.Prelude.Text.{Text, codes}
use restaurant_engine.Js.{Json}
use restaurant_engine.Client.Defs.{get, post, ApiRequest, path_param}

pub data PublicCall : Type 0 where
  get_site : PublicCall
  get_menu : PublicCall
  get_storefront : PublicCall
  get_availability : PublicCall
  place_order : Json → PublicCall
  get_order : Text → PublicCall
  cancel_order : Text → PublicCall
  get_pickup_slots : PublicCall

unfoldable pub public_request : PublicCall → ApiRequest
public_request get_site = record {
  method = get;
  template = codes "/api/v1/public/site";
  path_params = [];
  query = [];
  body = none;
  headers = [];
}
public_request get_menu = record {
  method = get;
  template = codes "/api/v1/public/menu";
  path_params = [];
  query = [];
  body = none;
  headers = [];
}
public_request get_storefront = record {
  method = get;
  template = codes "/api/v1/public/storefront";
  path_params = [];
  query = [];
  body = none;
  headers = [];
}
public_request get_availability = record {
  method = get;
  template = codes "/api/v1/public/availability";
  path_params = [];
  query = [];
  body = none;
  headers = [];
}
public_request (place_order payload) = record {
  method = post;
  template = codes "/api/v1/public/orders";
  path_params = [];
  query = [];
  body = some payload;
  headers = [];
}
public_request (get_order tracking_token) = record {
  method = get;
  template = codes "/api/v1/public/orders/{tracking_token}";
  path_params = path_param "tracking_token" tracking_token ∷ [];
  query = [];
  body = none;
  headers = [];
}
public_request (cancel_order tracking_token) = record {
  method = post;
  template = codes "/api/v1/public/orders/{tracking_token}/cancel";
  path_params = path_param "tracking_token" tracking_token ∷ [];
  query = [];
  body = none;
  headers = [];
}
public_request get_pickup_slots = record {
  method = get;
  template = codes "/api/v1/public/pickup-slots";
  path_params = [];
  query = [];
  body = none;
  headers = [];
}

-- The token that the caller passes, and the business that the call names.
abbrev pub public_token : PublicCall → Option Text
public_token _ = none

abbrev pub public_business : PublicCall → Option Text
public_business _ = none
