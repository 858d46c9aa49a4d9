-- ===== src/Proxy/Defs.antt =====
-- What the development forwarder does with a request, up to the exchange with the backend.
use restaurant_engine.Prelude.{
  ℕ, Bool, true, not, ◌||◌, Option, none, some, List, [], ◌∷◌, length, if◌then◌else◌,
}
use restaurant_engine.Prelude.Decimal.{decimal}
use restaurant_engine.Prelude.Text.{Text, codes, text_eq, starts_with}
use restaurant_engine.Transport.{Header, get_header, set_header, wire_headers}

abbrev pub forwarded_request_headers : List Text
forwarded_request_headers = codes "accept" ∷ codes "if-none-match" ∷ []

abbrev pub forwarded_post_headers : List Text
forwarded_post_headers =
    codes "accept"
    ∷ codes "content-type"
    ∷ codes "origin"
    ∷ codes "referer"
    ∷ codes "sec-fetch-site"
    ∷ codes "sec-fetch-mode"
    ∷ codes "sec-fetch-dest"
    ∷ []

abbrev pub api_prefix : Text
api_prefix = codes "/api/"

abbrev pub post_path_prefix : Text
post_path_prefix = codes "/api/v1/public/"

-- A `Request`: the names of its headers are in lower case, as `Headers` keeps them, and its body is
-- a list of bytes.
pub record ProxyRequest : Type 0 where
  pub method : Text
  pub url : Text
  pub headers : List Header
  pub body : List ℕ

-- `neutral` is an answer without an exchange and `broken` a configuration that throws; `read` and
-- `write` go on to the backend with a host, a path and the headers picked, `read` through the tenant
-- transport, which refuses every method but GET and HEAD before the exchange: that is caught as a 502.
pub data Forwarding : Type 0 where
  neutral : ℕ → Forwarding
  broken : Forwarding
  read : Text → Text → Text → List Header → Forwarding
  write : Text → Text → List Header → List ℕ → Forwarding

unfoldable pub development_proxy_enabled : Option Text → Bool
unfolding text_eq
development_proxy_enabled none = true
development_proxy_enabled (some node_env) = not (text_eq node_env (codes "production"))

-- `const value = request.headers.get(name); if (value !== null) headers.set(name, value);`
unfoldable pub pick_one : Text → Option Text → List Header → List Header
unfolding set_header
pick_one name none picked = picked
pick_one name (some value) picked = set_header name value picked

-- The loop over the names.
unfoldable pub pick : List Text → List Header → List Header → List Header
unfolding pick_one get_header
pick [] headers picked = picked
pick (name ∷ names) headers picked =
    pick names headers (pick_one name (get_header name headers) picked)

-- `path_of` is the pathname of the request's path on the backend's origin, as `URL` normalizes it, and
-- `upper_case` the platform's. `origin` is absent where `resolveApiOrigin` throws.
module _ (path_of : Text → Text) (upper_case : Text → Text) where
  -- The test of `tenantFetch`.
  abbrev pub is_read_method : Text → Bool
  is_read_method method =
      text_eq (upper_case method) (codes "GET") || text_eq (upper_case method) (codes "HEAD")

  unfoldable pub forward_to : ProxyRequest → Text → Text → Forwarding
  unfolding pick starts_with text_eq
  forward_to request host path =
      if not (starts_with path api_prefix)
      then neutral 404
      else if text_eq (upper_case request.method) (codes "POST")
      then (if not (starts_with path post_path_prefix)
          then neutral 404
          else write host path (pick forwarded_post_headers request.headers []) request.body)
      else if is_read_method request.method
      then read host path request.method (pick forwarded_request_headers request.headers [])
      else neutral 502

  -- Behind the test of the host.
  unfoldable pub forward_for : ProxyRequest → Option Text → Option Text → Forwarding
  unfolding forward_to
  forward_for request none origin = neutral 404
  forward_for request (some []) origin = neutral 404
  forward_for request (some (c ∷ host)) none = broken
  forward_for request (some (c ∷ host)) (some origin) =
      forward_to request (c ∷ host) (path_of request.url)

  unfoldable pub forward_dev_api_request : Option Text → Option Text → ProxyRequest → Forwarding
  unfolding development_proxy_enabled forward_for get_header
  forward_dev_api_request node_env origin request =
      if not (development_proxy_enabled node_env)
      then neutral 404
      else forward_for request (get_header (codes "host") request.headers) origin

-- The headers of the POST leg.
unfoldable pub post_headers : (Text → Text) → List Header → Text → List ℕ → List Header
unfolding set_header wire_headers decimal
post_headers lower_case forwarded host body =
    set_header (codes "content-length") (decimal (length body))
      (wire_headers lower_case forwarded host)
