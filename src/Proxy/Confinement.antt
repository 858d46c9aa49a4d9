-- ===== src/Proxy/Confinement.antt =====
-- What the forwarder lets through.
use restaurant_engine.Prelude.{true, false, any, Option, none, some, List, [], All, ◌≡◌, ◌⊎◌}
use restaurant_engine.Prelude.Text.{Text, codes, text_eq, starts_with}
use restaurant_engine.Transport.{Header, get_header}
use restaurant_engine.Proxy.Defs.{
  ProxyRequest, Forwarding, neutral, broken, read, write, development_proxy_enabled, is_read_method,
  forwarded_request_headers, forwarded_post_headers, api_prefix, post_path_prefix,
}

abbrev pub IsListed : List Text → Header → Type 0
IsListed names h = any (λ n. text_eq n (Header.name h)) names ≡ true

module _ (path_of : Text → Text) (upper_case : Text → Text) (node_env : Option Text) where
  -- Why a request gets a 404: production, no host, a path outside the API, or a POST outside its
  -- public part.
  abbrev pub IsRefused : ProxyRequest → Type 0
  IsRefused request =
      (development_proxy_enabled node_env ≡ false)
      ⊎ (get_header (codes "host") request.headers ≡ none)
      ⊎ (get_header (codes "host") request.headers ≡ some [])
      ⊎ (starts_with (path_of request.url) api_prefix ≡ false)
      ⊎ ((text_eq (upper_case request.method) (codes "POST") ≡ true)
          × (starts_with (path_of request.url) post_path_prefix ≡ false))

  -- Outside production, with the host that the request names.
  abbrev pub IsAdmitted : ProxyRequest → Text → Type 0
  IsAdmitted request host =
      (development_proxy_enabled node_env ≡ true)
      × (get_header (codes "host") request.headers ≡ some host)

  abbrev pub IsConfined : Option Text → ProxyRequest → Forwarding → Type 0
  IsConfined origin request (neutral status) =
      ((status ≡ 404) × IsRefused request)
      ⊎ ((status ≡ 502)
          × (text_eq (upper_case request.method) (codes "POST") ≡ false)
          × (is_read_method path_of upper_case request.method ≡ false))
  IsConfined origin request broken = (development_proxy_enabled node_env ≡ true) × (origin ≡ none)
  IsConfined origin request (read host path method headers) =
      IsAdmitted request host
      × (path ≡ path_of request.url)
      × (starts_with path api_prefix ≡ true)
      × (method ≡ request.method)
      × (is_read_method path_of upper_case method ≡ true)
      × All (IsListed forwarded_request_headers) headers
  IsConfined origin request (write host path headers body) =
      IsAdmitted request host
      × (text_eq (upper_case request.method) (codes "POST") ≡ true)
      × (path ≡ path_of request.url)
      × (starts_with path post_path_prefix ≡ true)
      × (body ≡ request.body)
      × All (IsListed forwarded_post_headers) headers
