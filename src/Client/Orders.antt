-- ===== src/Client/Orders.antt =====
-- The order board (packages/api-client/src/orders.ts).
use restaurant_engine.Prelude.{Option, none, some, [], ◌∷◌}
use restaurant_engine.Prelude.Text.{Text, codes}
use restaurant_engine.Js.{Json, Fields}
use restaurant_engine.Client.Defs.{get, post, put, ApiRequest, path_param, query_of, csrf}

pub data OrderCommand : Type 0 where
  accept reject start_preparing mark_ready complete cancel : OrderCommand

pub data OrderCall : Type 0 where
  list_page : Text → Option Fields → OrderCall
  get_one : Text → Text → OrderCall
  metrics : Text → OrderCall
  set_estimate : Text → Text → Json → Text → OrderCall
  transition : OrderCommand → Text → Text → Text → OrderCall

-- `TransitionPath`
abbrev pub transition_path : OrderCommand → Text
transition_path accept = codes "/api/v1/businesses/{business_id}/orders/{order_id}/accept"
transition_path reject = codes "/api/v1/businesses/{business_id}/orders/{order_id}/reject"
transition_path start_preparing =
    codes "/api/v1/businesses/{business_id}/orders/{order_id}/start-preparing"
transition_path mark_ready = codes "/api/v1/businesses/{business_id}/orders/{order_id}/mark-ready"
transition_path complete = codes "/api/v1/businesses/{business_id}/orders/{order_id}/complete"
transition_path cancel = codes "/api/v1/businesses/{business_id}/orders/{order_id}/cancel"

unfoldable pub order_request : OrderCall → ApiRequest
order_request (list_page business_id params) = record {
  method = get;
  template = codes "/api/v1/businesses/{business_id}/orders";
  path_params = path_param "business_id" business_id ∷ [];
  query = query_of params;
  body = none;
  headers = [];
}
order_request (get_one business_id order_id) = record {
  method = get;
  template = codes "/api/v1/businesses/{business_id}/orders/{order_id}";
  path_params = path_param "business_id" business_id ∷ path_param "order_id" order_id ∷ [];
  query = [];
  body = none;
  headers = [];
}
order_request (metrics business_id) = record {
  method = get;
  template = codes "/api/v1/businesses/{business_id}/orders/metrics";
  path_params = path_param "business_id" business_id ∷ [];
  query = [];
  body = none;
  headers = [];
}
order_request (set_estimate business_id order_id body csrf_token) = record {
  method = put;
  template = codes "/api/v1/businesses/{business_id}/orders/{order_id}/estimate";
  path_params = path_param "business_id" business_id ∷ path_param "order_id" order_id ∷ [];
  query = [];
  body = some body;
  headers = csrf csrf_token;
}
order_request (transition command business_id order_id csrf_token) = record {
  method = post;
  template = transition_path command;
  path_params = path_param "business_id" business_id ∷ path_param "order_id" order_id ∷ [];
  query = [];
  body = none;
  headers = csrf csrf_token;
}

-- The token that the caller passes, and the business that the call names.
abbrev pub order_token : OrderCall → Option Text
order_token (set_estimate business_id order_id body csrf_token) = some csrf_token
order_token (transition command business_id order_id csrf_token) = some csrf_token
order_token _ = none

abbrev pub order_business : OrderCall → Option Text
order_business (list_page business_id params) = some business_id
order_business (get_one business_id order_id) = some business_id
order_business (metrics business_id) = some business_id
order_business (set_estimate business_id order_id body csrf_token) = some business_id
order_business (transition command business_id order_id csrf_token) = some business_id
