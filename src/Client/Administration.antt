-- ===== src/Client/Administration.antt =====
-- The platform's commands on invitations, entitlements, designs and accounts
-- (packages/api-client/src/platform.ts).
use restaurant_engine.Prelude.{Option, none, some, [], ◌∷◌}
use restaurant_engine.Prelude.Text.{Text, codes}
use restaurant_engine.Js.{Json, obj, Fields, end}
use restaurant_engine.Client.Defs.{get, post, put, ApiRequest, path_param, query_param, csrf}

pub data AdministrationCall : Type 0 where
  create_invitation : Text → Json → Text → AdministrationCall
  list_invitations : Text → Option Fields → AdministrationCall
  revoke_invitation : Text → Text → Text → AdministrationCall
  set_entitlements : Text → Json → Text → AdministrationCall
  issue_password_reset : Json → Text → AdministrationCall
  list_audit_events : Option Fields → AdministrationCall
  set_design : Text → Json → Text → AdministrationCall
  set_timezone : Text → Json → Text → AdministrationCall

unfoldable pub administration_request : AdministrationCall → ApiRequest
administration_request (create_invitation business_id body csrf_token) = record {
  method = post;
  template = codes "/api/v1/platform/businesses/{business_id}/invitations";
  path_params = path_param "business_id" business_id ∷ [];
  query = [];
  body = some body;
  headers = csrf csrf_token;
}
administration_request (list_invitations business_id params) = record {
  method = get;
  template = codes "/api/v1/platform/businesses/{business_id}/invitations";
  path_params = path_param "business_id" business_id ∷ [];
  query = query_param "limit" "limit" params ∷ query_param "offset" "offset" params ∷ [];
  body = none;
  headers = [];
}
administration_request (revoke_invitation business_id invitation_id csrf_token) = record {
  method = post;
  template = codes "/api/v1/platform/businesses/{business_id}/invitations/{invitation_id}/revoke";
  path_params =
      path_param "business_id" business_id ∷ path_param "invitation_id" invitation_id ∷ [];
  query = [];
  body = some (obj end);
  headers = csrf csrf_token;
}
administration_request (set_entitlements business_id body csrf_token) = record {
  method = put;
  template = codes "/api/v1/platform/businesses/{business_id}/entitlements";
  path_params = path_param "business_id" business_id ∷ [];
  query = [];
  body = some body;
  headers = csrf csrf_token;
}
administration_request (issue_password_reset body csrf_token) = record {
  method = post;
  template = codes "/api/v1/platform/password-resets";
  path_params = [];
  query = [];
  body = some body;
  headers = csrf csrf_token;
}
administration_request (list_audit_events params) = record {
  method = get;
  template = codes "/api/v1/platform/audit-events";
  path_params = [];
  query =
      query_param "limit" "limit" params
      ∷ query_param "before_id" "beforeId" params
      ∷ query_param "action" "action" params
      ∷ query_param "occurred_after" "occurredAfter" params
      ∷ query_param "occurred_before" "occurredBefore" params
      ∷ query_param "actor_user_id" "actorUserId" params
      ∷ query_param "business_id" "businessId" params
      ∷ [];
  body = none;
  headers = [];
}
administration_request (set_design business_id body csrf_token) = record {
  method = put;
  template = codes "/api/v1/platform/businesses/{business_id}/design";
  path_params = path_param "business_id" business_id ∷ [];
  query = [];
  body = some body;
  headers = csrf csrf_token;
}
administration_request (set_timezone business_id body csrf_token) = record {
  method = put;
  template = codes "/api/v1/platform/businesses/{business_id}/timezone";
  path_params = path_param "business_id" business_id ∷ [];
  query = [];
  body = some body;
  headers = csrf csrf_token;
}

-- The token that the caller passes, and the business that the call names.
abbrev pub administration_token : AdministrationCall → Option Text
administration_token (create_invitation business_id body csrf_token) = some csrf_token
administration_token (revoke_invitation business_id invitation_id csrf_token) = some csrf_token
administration_token (set_entitlements business_id body csrf_token) = some csrf_token
administration_token (issue_password_reset body csrf_token) = some csrf_token
administration_token (set_design business_id body csrf_token) = some csrf_token
administration_token (set_timezone business_id body csrf_token) = some csrf_token
administration_token _ = none

abbrev pub administration_business : AdministrationCall → Option Text
administration_business (create_invitation business_id body csrf_token) = some business_id
administration_business (list_invitations business_id params) = some business_id
administration_business (revoke_invitation business_id invitation_id csrf_token) = some business_id
administration_business (set_entitlements business_id body csrf_token) = some business_id
administration_business (set_design business_id body csrf_token) = some business_id
administration_business (set_timezone business_id body csrf_token) = some business_id
administration_business _ = none
