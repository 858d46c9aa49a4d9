-- ===== src/Client/Hours.antt =====
-- Opening hours (packages/api-client/src/hours.ts).
use restaurant_engine.Prelude.{Option, none, some, [], ◌∷◌}
use restaurant_engine.Prelude.Text.{Text, codes}
use restaurant_engine.Js.{Json, Fields}
use restaurant_engine.Client.Defs.{get, put, delete_, ApiRequest, path_param, query_param, csrf}

pub data HoursCall : Type 0 where
  get_one : Text → HoursCall
  preview : Text → Option Fields → HoursCall
  set_weekly : Text → Json → Text → HoursCall
  set_exception : Text → Text → Json → Text → HoursCall
  delete_exception : Text → Text → Text → HoursCall
  set_fulfillment : Text → Json → Text → HoursCall
  set_ordering_pause : Text → Json → Text → HoursCall

unfoldable pub hours_request : HoursCall → ApiRequest
hours_request (get_one business_id) = record {
  method = get;
  template = codes "/api/v1/businesses/{business_id}/hours";
  path_params = path_param "business_id" business_id ∷ [];
  query = [];
  body = none;
  headers = [];
}
hours_request (preview business_id params) = record {
  method = get;
  template = codes "/api/v1/businesses/{business_id}/hours/preview";
  path_params = path_param "business_id" business_id ∷ [];
  query = query_param "at" "at" params ∷ [];
  body = none;
  headers = [];
}
hours_request (set_weekly business_id body csrf_token) = record {
  method = put;
  template = codes "/api/v1/businesses/{business_id}/hours/weekly";
  path_params = path_param "business_id" business_id ∷ [];
  query = [];
  body = some body;
  headers = csrf csrf_token;
}
hours_request (set_exception business_id exception_date body csrf_token) = record {
  method = put;
  template = codes "/api/v1/businesses/{business_id}/hours/exceptions/{exception_date}";
  path_params =
      path_param "business_id" business_id ∷ path_param "exception_date" exception_date ∷ [];
  query = [];
  body = some body;
  headers = csrf csrf_token;
}
hours_request (delete_exception business_id exception_date csrf_token) = record {
  method = delete_;
  template = codes "/api/v1/businesses/{business_id}/hours/exceptions/{exception_date}";
  path_params =
      path_param "business_id" business_id ∷ path_param "exception_date" exception_date ∷ [];
  query = [];
  body = none;
  headers = csrf csrf_token;
}
hours_request (set_fulfillment business_id body csrf_token) = record {
  method = put;
  template = codes "/api/v1/businesses/{business_id}/hours/fulfillment";
  path_params = path_param "business_id" business_id ∷ [];
  query = [];
  body = some body;
  headers = csrf csrf_token;
}
hours_request (set_ordering_pause business_id body csrf_token) = record {
  method = put;
  template = codes "/api/v1/businesses/{business_id}/hours/pause";
  path_params = path_param "business_id" business_id ∷ [];
  query = [];
  body = some body;
  headers = csrf csrf_token;
}

-- The token that the caller passes, and the business that the call names.
abbrev pub hours_token : HoursCall → Option Text
hours_token (set_weekly business_id body csrf_token) = some csrf_token
hours_token (set_exception business_id exception_date body csrf_token) = some csrf_token
hours_token (delete_exception business_id exception_date csrf_token) = some csrf_token
hours_token (set_fulfillment business_id body csrf_token) = some csrf_token
hours_token (set_ordering_pause business_id body csrf_token) = some csrf_token
hours_token _ = none

abbrev pub hours_business : HoursCall → Option Text
hours_business (get_one business_id) = some business_id
hours_business (preview business_id params) = some business_id
hours_business (set_weekly business_id body csrf_token) = some business_id
hours_business (set_exception business_id exception_date body csrf_token) = some business_id
hours_business (delete_exception business_id exception_date csrf_token) = some business_id
hours_business (set_fulfillment business_id body csrf_token) = some business_id
hours_business (set_ordering_pause business_id body csrf_token) = some business_id
