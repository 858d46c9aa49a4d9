-- ===== src/Transport/Tests.antt =====
-- Requests and exchanges on concrete input, and the theorems at them.
use restaurant_engine.Prelude.{
  true, false, none, some, List, [], ◌∷◌, ◌++◌, map, ◌≡◌, refl, arith, concat, if◌then◌else◌,
}
use restaurant_engine.Prelude.Text.{Text, codes, text_eq, starts_with}
use restaurant_engine.Transport.Defs.{
  Header, Request, not_read_only, carries_body, refused, sent, tenant_fetch, is_stripped,
  set_header, get_header, copy_headers, wire_headers, response_headers, is_bodyless, resolved,
  rejected, timeout, unsupported_status, response_starts, chunk, response_ends, timer_fires,
  request_fails, step, run, fresh,
}
use restaurant_engine.Transport.Headers.{last_value, get_header-wire_headers}
use restaurant_engine.Transport.Origin.{
  ApiUrl, origin_is, unset_in_production, not_absolute, not_bare, ends_with, is_http,
  is_bare_origin, default_origin, parsed_origin, resolve_api_origin,
}
use restaurant_engine.Transport.Exchanges.{IsOver, run-response}

transport_runs : Unit {0}
unfolding tenant_fetch is_stripped set_header get_header copy_headers wire_headers response_headers
    step run text_eq starts_with
transport_runs = tt

-- The platform's case mappings, at texts that are in that case already.
same_case : Text → Text
same_case s = s

abbrev header : Text → Text → Header
header n v = record { name = n; value = v }

abbrev asked : List Header
asked =
    header (codes "accept") (codes "a")
    ∷ header (codes "host") (codes "evil")
    ∷ header (codes "x-forwarded-for") (codes "1")
    ∷ header (codes "cookie") (codes "s")
    ∷ []

abbrev get_page : Request
get_page = record {
  method = codes "GET";
  has_body = false;
  protocol = codes "https:";
  headers = asked;
}

requests :
    (tenant_fetch (λ s. s) (λ s. s) (codes "t") get_page
      ≡ sent
          (codes "GET")
          (header (codes "accept") (codes "a") ∷ header (codes "host") (codes "t") ∷ []))
    × (tenant_fetch (λ s. s) (λ s. s) (codes "t") (record get_page { method = codes "POST" })
        ≡ refused not_read_only)
    × (tenant_fetch (λ s. s) (λ s. s) (codes "t") (record get_page { has_body = true })
        ≡ refused carries_body)
unfolding transport_runs
requests = (refl, refl, refl)

exchanges :
    ((run
        (λ s. s)
        (codes "GET")
        (timer_fires ∷ response_starts 200 [] ∷ response_ends ∷ [])
        fresh).settled
      ≡ some (rejected timeout))
    × ((run (λ s. s) (codes "GET") (response_starts 101 [] ∷ request_fails ∷ []) fresh).settled
        ≡ some (rejected (unsupported_status 101)))
unfolding transport_runs
exchanges = (refl, refl)

get_header-wire_headers_example :
    get_header (codes "cookie") (wire_headers same_case asked (codes "t")) ≡ (
      if text_eq (codes "host") (codes "cookie")
      then some (codes "t")
      else if is_stripped (codes "cookie")
      then none
      else last_value same_case (codes "cookie") asked)
get_header-wire_headers_example =
    get_header-wire_headers same_case (codes "cookie") asked (codes "t")

timed_out :
    IsOver same_case
      (codes "GET")
      (rejected timeout)
      (run same_case (codes "GET") (timer_fires ∷ []) fresh)
unfolding transport_runs
timed_out = (refl, refl)

abbrev answered : List Header
answered = header (codes "set-cookie") (codes "s") ∷ header (codes "etag") (codes "e") ∷ []

abbrev parts : List Text
parts = codes "ab" ∷ codes "c" ∷ []

run-response_example :
    (run same_case
      (codes "GET")
      (response_starts 200 answered ∷ (map chunk parts ++ (response_ends ∷ timer_fires ∷ [])))
      fresh).settled
    ≡ some (
        resolved (record {
          status = 200;
          headers = response_headers same_case answered;
          body = if is_bodyless same_case (codes "GET") 200 then none else some (concat parts);
        }))
run-response_example =
    run-response same_case (codes "GET") 200 answered parts (timer_fires ∷ []) (omega arith)
      (omega arith)

abbrev local_api : Text
local_api = codes "https://api.example"

abbrev api_url : ApiUrl
api_url = record {
  origin = local_api;
  protocol = codes "https:";
  pathname = codes "/";
  search = [];
  hash = [];
  username = [];
  password = [];
}

origins :
    (resolve_api_origin (λ raw. some api_url) (some local_api) none ≡ origin_is local_api)
    × (resolve_api_origin (λ raw. some api_url) none (some (codes "production"))
        ≡ unset_in_production)
    × (resolve_api_origin (λ raw. some api_url) (some (codes "https://api.example?")) none
        ≡ not_bare)
    × (resolve_api_origin (λ raw. none) (some (codes "x")) none ≡ not_absolute)
unfolding resolve_api_origin parsed_origin default_origin is_bare_origin is_http ends_with text_eq
origins = (refl, refl, refl, refl)
