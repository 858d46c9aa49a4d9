-- ===== src/Transport/Defs.antt =====
-- The storefront's requests to the backend: which headers travel, which requests are refused, and
-- how the events of one exchange settle its promise. The events come from `node:http`, the timer and
-- the socket; their order is not assumed.
use restaurant_engine.Prelude.{
  ℕ, Bool, true, false, ◌&&◌, ◌||◌, not, Option, none, some, List, [], ◌∷◌, ◌++◌, any, ltb, ◌==◌,
  if◌then◌else◌,
}
use restaurant_engine.Prelude.Text.{Text, codes, text_eq, starts_with}

pub record Header : Type 0 where
  pub name : Text
  pub value : Text

abbrev pub is_one_of : List Text → Text → Bool
is_one_of names name = any (λ t. text_eq t name) names

abbrev pub stripped_request_headers : List Text
stripped_request_headers =
    codes "host"
    ∷ codes "cookie"
    ∷ codes "authorization"
    ∷ codes "forwarded"
    ∷ codes "x-business-id"
    ∷ codes "x-real-ip"
    ∷ []

abbrev pub stripped_response_headers : List Text
stripped_response_headers =
    codes "connection"
    ∷ codes "keep-alive"
    ∷ codes "transfer-encoding"
    ∷ codes "te"
    ∷ codes "trailer"
    ∷ codes "upgrade"
    ∷ codes "proxy-authenticate"
    ∷ codes "proxy-authorization"
    ∷ codes "content-length"
    ∷ codes "set-cookie"
    ∷ []

-- `isStrippedRequestHeader` of a name in lower case
unfoldable pub is_stripped : Text → Bool
is_stripped lower =
    is_one_of stripped_request_headers lower || starts_with lower (codes "x-forwarded-")

-- `headers[k] = v`
unfoldable pub set_header : Text → Text → List Header → List Header
set_header k v [] = record { name = k; value = v } ∷ []
set_header k v (h ∷ hs) =
    let rest = set_header k v hs in
    if text_eq h.name k then record { name = k; value = v } ∷ hs else h ∷ rest

-- `headers[k]`
unfoldable pub get_header : Text → List Header → Option Text
get_header k [] = none
get_header k (h ∷ hs) =
    let rest = get_header k hs in if text_eq h.name k then some h.value else rest

-- A request behind `normalizeTenantRequest`, and the parts of it that are looked at.
pub record Request : Type 0 where
  pub method : Text
  pub has_body : Bool
  pub protocol : Text
  pub headers : List Header

pub data Refusal : Type 0 where
  not_read_only carries_body unsupported_protocol : Refusal

pub data Started : Type 0 where
  refused : Refusal → Started
  sent : Text → List Header → Started

pub record Response : Type 0 where
  pub status : ℕ
  pub headers : List Header
  pub body : Option Text

pub data FailReason : Type 0 where
  unsupported_status : ℕ → FailReason
  stream_error timeout connection_error : FailReason

pub data Settlement : Type 0 where
  resolved : Response → Settlement
  rejected : FailReason → Settlement

-- What `node:http` and the timer report.
pub data Event : Type 0 where
  response_starts : ℕ → List Header → Event
  chunk : Text → Event
  response_ends response_fails timer_fires request_fails : Event

-- The response callback's variables.
pub record Incoming : Type 0 where
  pub status : ℕ
  pub raw_headers : List Header
  pub chunks : Text

pub record Exchange : Type 0 where
  pub settled : Option Settlement
  pub incoming : Option Incoming
  pub timer_active : Bool
  pub destroyed : Bool

abbrev pub fresh : Exchange
fresh = record { settled = none; incoming = none; timer_active = true; destroyed = false }

abbrev pub fail : FailReason → Exchange → Exchange
fail reason x = elim x.settled [
  | some s ↦ x
  | none ↦ record x { settled = some (rejected reason); timer_active = false; destroyed = true }
]

-- `lower_case` and `upper_case` are the platform's.
module _ (lower_case : Text → Text) where
  unfoldable pub copy_headers : List Header → List Header → List Header
  unfolding set_header is_stripped
  copy_headers [] out = out
  copy_headers (h ∷ hs) out =
      copy_headers hs (
        if is_stripped (lower_case h.name) then out else set_header (lower_case h.name) h.value out)

  unfoldable pub wire_headers : List Header → Text → List Header
  unfolding copy_headers set_header
  wire_headers request_headers tenant_host =
      set_header (codes "host") tenant_host (copy_headers request_headers [])

  -- The loop over `rawHeaders`
  unfoldable pub response_headers : List Header → List Header
  response_headers [] = []
  response_headers (h ∷ hs) =
      let rest = response_headers hs in
      if is_one_of stripped_response_headers (lower_case h.name) then rest else h ∷ rest

  abbrev pub is_bodyless : Text → ℕ → Bool
  is_bodyless method status =
      text_eq method (codes "HEAD") || status == 204 || status == 205 || status == 304

  abbrev pub response_of : Text → Incoming → Response
  response_of method incoming = record {
    status = incoming.status;
    headers = response_headers incoming.raw_headers;
    body = if is_bodyless method incoming.status then none else some incoming.chunks;
  }

  abbrev pub finish : Text → Exchange → Option Incoming → Option Settlement → Exchange
  finish method x none s = x
  finish method x (some incoming) (some s) = x
  finish method x (some incoming) none = record x {
    settled = some (resolved (response_of method incoming));
    timer_active = false;
  }

  abbrev pub collect : Text → Exchange → Option Incoming → Exchange
  collect bytes x none = x
  collect bytes x (some incoming) = record x {
    incoming = some (record incoming { chunks = incoming.chunks ++ bytes });
  }

  abbrev pub break_off : Exchange → Option Incoming → Exchange
  break_off x none = x
  break_off x (some incoming) = fail stream_error x

  -- One event; `method` is the request's.
  unfoldable pub step : Text → Event → Exchange → Exchange
  step method (response_starts status raw_headers) x =
      if ltb status 200 || ltb 599 status then fail (unsupported_status status) x else record x {
        incoming = some (record { status = status; raw_headers = raw_headers; chunks = [] });
      }
  step method (chunk bytes) x = collect bytes x x.incoming
  step method response_ends x = finish method x x.incoming x.settled
  step method response_fails x = break_off x x.incoming
  step method timer_fires x = if x.timer_active then fail timeout x else x
  step method request_fails x = fail connection_error x

  unfoldable pub run : Text → List Event → Exchange → Exchange
  unfolding step
  run method [] x = x
  run method (e ∷ es) x = run method es (step method e x)

module _ (lower_case upper_case : Text → Text) where
  unfoldable pub tenant_fetch : Text → Request → Started
  unfolding wire_headers
  tenant_fetch tenant_host request =
      let method = upper_case request.method in
      if not (text_eq method (codes "GET")) && not (text_eq method (codes "HEAD"))
      then refused not_read_only
      else if request.has_body
      then refused carries_body
      else if not (text_eq request.protocol (codes "http:"))
          && not (text_eq request.protocol (codes "https:"))
      then refused unsupported_protocol
      else sent method (wire_headers lower_case request.headers tenant_host)
