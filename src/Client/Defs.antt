-- ===== src/Client/Defs.antt =====
-- The requests that the facade hands to openapi-fetch, and what it makes of the answer
-- (packages/api-client/src/{client,result}.ts and the try blocks of every method).
use restaurant_engine.Prelude.{Option, none, some, List, [], ◌∷◌, ℕ, String}
use restaurant_engine.Prelude.Text.{Text, codes}
use restaurant_engine.Js.{Json, Fields, end, field, lookup}
use restaurant_engine.Api.{ApiResult, failed, to_result}

pub data Method : Type 0 where
  get post put patch delete_ : Method

pub record PathParam : Type 0 where
  pub name : Text
  pub value : Text

-- `none` is `undefined`, which openapi-fetch leaves out.
pub record QueryParam : Type 0 where
  pub name : Text
  pub value : Option Json

pub record HeaderField : Type 0 where
  pub name : Text
  pub value : Text

-- The arguments of `client.GET`, `client.POST` and the others.
pub record ApiRequest : Type 0 where
  pub method : Method
  pub template : Text
  pub path_params : List PathParam
  pub query : List QueryParam
  pub body : Option Json
  pub headers : List HeaderField

abbrev pub path_param : String → Text → PathParam
path_param name value = record { name = codes name; value = value }

abbrev pub field_of : String → Option Fields → Option Json
field_of name none = none
field_of name (some params) = lookup name params

-- `key: params?.name`
abbrev pub query_param : String → String → Option Fields → QueryParam
query_param key name params = record { name = codes key; value = field_of name params }

-- `query: params`
abbrev pub fields_query : Fields → List QueryParam
fields_query end = []
fields_query (field k v fs) = record { name = codes k; value = some v } ∷ fields_query fs

abbrev pub query_of : Option Fields → List QueryParam
query_of none = []
query_of (some params) = fields_query params

abbrev pub csrf_header : Text
csrf_header = codes "X-CSRF-Token"

abbrev pub csrf : Text → List HeaderField
csrf csrf_token = record { name = csrf_header; value = csrf_token } ∷ []

-- What openapi-fetch does with a request: it throws, or returns data, an error and a status.
pub data Reply {ℓ} (T : Type ℓ) : Type ℓ where
  threw : Reply T
  answered : Option T → Option Json → ℕ → Reply T

-- `try { … return toResult(data, error, response); } catch { … }`
unfoldable pub result_of {ℓ} : {T : Type ℓ} → Reply T → ApiResult T
unfolding to_result
result_of threw = failed none none
result_of (answered result error status) = to_result result error status
