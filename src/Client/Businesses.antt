-- ===== src/Client/Businesses.antt =====
-- A member's own business (packages/api-client/src/businesses.ts).
use restaurant_engine.Prelude.{Option, none, some, [], ◌∷◌}
use restaurant_engine.Prelude.Text.{Text, codes}
use restaurant_engine.Js.{Json, obj, Fields, end}
use restaurant_engine.Client.Defs.{get, post, ApiRequest, path_param, query_param, csrf}

pub data BusinessCall : Type 0 where
  get_one : Text → BusinessCall
  create_invitation : Text → Json → Text → BusinessCall
  list_invitations : Text → Option Fields → BusinessCall
  revoke_invitation : Text → Text → Text → BusinessCall
  get_entitlements : Text → BusinessCall
  list_audit_events : Text → Option Fields → BusinessCall

unfoldable pub business_request : BusinessCall → ApiRequest
business_request (get_one business_id) = record {
  method = get;
  template = codes "/api/v1/businesses/{business_id}";
  path_params = path_param "business_id" business_id ∷ [];
  query = [];
  body = none;
  headers = [];
}
business_request (create_invitation business_id body csrf_token) = record {
  method = post;
  template = codes "/api/v1/businesses/{business_id}/invitations";
  path_params = path_param "business_id" business_id ∷ [];
  query = [];
  body = some body;
  headers = csrf csrf_token;
}
business_request (list_invitations business_id params) = record {
  method = get;
  template = codes "/api/v1/businesses/{business_id}/invitations";
  path_params = path_param "business_id" business_id ∷ [];
  query = query_param "limit" "limit" params ∷ query_param "offset" "offset" params ∷ [];
  body = none;
  headers = [];
}
business_request (revoke_invitation business_id invitation_id csrf_token) = record {
  method = post;
  template = codes "/api/v1/businesses/{business_id}/invitations/{invitation_id}/revoke";
  path_params =
      path_param "business_id" business_id ∷ path_param "invitation_id" invitation_id ∷ [];
  query = [];
  body = some (obj end);
  headers = csrf csrf_token;
}
business_request (get_entitlements business_id) = record {
  method = get;
  template = codes "/api/v1/businesses/{business_id}/entitlements";
  path_params = path_param "business_id" business_id ∷ [];
  query = [];
  body = none;
  headers = [];
}
business_request (list_audit_events business_id params) = record {
  method = get;
  template = codes "/api/v1/businesses/{business_id}/audit-events";
  path_params = path_param "business_id" business_id ∷ [];
  query =
      query_param "limit" "limit" params
      ∷ query_param "before_id" "beforeId" params
      ∷ query_param "action" "action" params
      ∷ query_param "occurred_after" "occurredAfter" params
      ∷ query_param "occurred_before" "occurredBefore" params
      ∷ [];
  body = none;
  headers = [];
}

-- The token that the caller passes, and the business that the call names.
abbrev pub business_token : BusinessCall → Option Text
business_token (create_invitation business_id body csrf_token) = some csrf_token
business_token (revoke_invitation business_id invitation_id csrf_token) = some csrf_token
business_token _ = none

abbrev pub business_business : BusinessCall → Option Text
business_business (get_one business_id) = some business_id
business_business (create_invitation business_id body csrf_token) = some business_id
business_business (list_invitations business_id params) = some business_id
business_business (revoke_invitation business_id invitation_id csrf_token) = some business_id
business_business (get_entitlements business_id) = some business_id
business_business (list_audit_events business_id params) = some business_id
