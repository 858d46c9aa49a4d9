-- ===== src/Client/Accounts.antt =====
-- Health, sign-in, invitations and password resets
-- (packages/api-client/src/{health,auth,invitations,passwordResets}.ts).
use restaurant_engine.Prelude.{Option, none, some, []}
use restaurant_engine.Prelude.Text.{Text, codes}
use restaurant_engine.Js.{Json}
use restaurant_engine.Client.Defs.{get, post, ApiRequest, csrf}

pub data HealthCall : Type 0 where
  get_liveness : HealthCall
  get_readiness : HealthCall

unfoldable pub health_request : HealthCall → ApiRequest
health_request get_liveness = record {
  method = get;
  template = codes "/health/live";
  path_params = [];
  query = [];
  body = none;
  headers = [];
}
health_request get_readiness = record {
  method = get;
  template = codes "/health/ready";
  path_params = [];
  query = [];
  body = none;
  headers = [];
}

pub data AuthCall : Type 0 where
  login : Json → AuthCall
  logout : Text → AuthCall
  get_session : AuthCall

unfoldable pub auth_request : AuthCall → ApiRequest
auth_request (login body) = record {
  method = post;
  template = codes "/api/v1/auth/login";
  path_params = [];
  query = [];
  body = some body;
  headers = [];
}
auth_request (logout csrf_token) = record {
  method = post;
  template = codes "/api/v1/auth/logout";
  path_params = [];
  query = [];
  body = none;
  headers = csrf csrf_token;
}
auth_request get_session = record {
  method = get;
  template = codes "/api/v1/auth/session";
  path_params = [];
  query = [];
  body = none;
  headers = [];
}

-- The token that the caller passes.
abbrev pub auth_token : AuthCall → Option Text
auth_token (logout csrf_token) = some csrf_token
auth_token _ = none

pub data InvitationCall : Type 0 where
  preview : Json → InvitationCall
  accept : Json → InvitationCall
  accept_existing : Json → Text → InvitationCall

unfoldable pub invitation_request : InvitationCall → ApiRequest
invitation_request (preview body) = record {
  method = post;
  template = codes "/api/v1/invitations/preview";
  path_params = [];
  query = [];
  body = some body;
  headers = [];
}
invitation_request (accept body) = record {
  method = post;
  template = codes "/api/v1/invitations/accept";
  path_params = [];
  query = [];
  body = some body;
  headers = [];
}
invitation_request (accept_existing body csrf_token) = record {
  method = post;
  template = codes "/api/v1/invitations/accept-existing";
  path_params = [];
  query = [];
  body = some body;
  headers = csrf csrf_token;
}

-- The token that the caller passes.
abbrev pub invitation_token : InvitationCall → Option Text
invitation_token (accept_existing body csrf_token) = some csrf_token
invitation_token _ = none

pub data ResetCall : Type 0 where
  redeem : Json → ResetCall

unfoldable pub reset_request : ResetCall → ApiRequest
reset_request (redeem body) = record {
  method = post;
  template = codes "/api/v1/password-resets/redeem";
  path_params = [];
  query = [];
  body = some body;
  headers = [];
}
