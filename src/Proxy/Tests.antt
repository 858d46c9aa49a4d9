-- ===== src/Proxy/Tests.antt =====
-- The forwarder on concrete requests, and the theorem at one.
use restaurant_engine.Prelude.{none, some, [], ◌∷◌, List, Option, String, ◌≡◌, refl}
use restaurant_engine.Prelude.Text.{Text, codes, text_eq, starts_with}
use restaurant_engine.Transport.{Header, get_header, set_header}
use restaurant_engine.Proxy.Defs.{
  ProxyRequest, neutral, broken, read, write, forward_dev_api_request, forward_for, forward_to,
  pick, pick_one, development_proxy_enabled,
}

abbrev unchanged_text : Text → Text
unchanged_text s = s

abbrev headers : List Header
headers =
    record { name = codes "host"; value = codes "a.localhost" }
    ∷ record { name = codes "accept"; value = codes "*/*" }
    ∷ record { name = codes "cookie"; value = codes "s=1" }
    ∷ []

abbrev request : String → String → ProxyRequest
request method url = record {
  method = codes method;
  url = codes url;
  headers = headers;
  body = 123 ∷ 125 ∷ [];
}

abbrev origin : Option Text
origin = some (codes "http://127.0.0.1:8000")

abbrev picked : List Header
picked = record { name = codes "accept"; value = codes "*/*" } ∷ []

forwardings :
    (forward_dev_api_request unchanged_text unchanged_text none origin (request "GET" "/api/v1/x")
      ≡ read (codes "a.localhost") (codes "/api/v1/x") (codes "GET") picked)
    × (forward_dev_api_request unchanged_text unchanged_text none origin
          (request "POST" "/api/v1/public/orders")
        ≡ write (codes "a.localhost") (codes "/api/v1/public/orders") picked (123 ∷ 125 ∷ []))
    × (forward_dev_api_request unchanged_text unchanged_text none origin
          (request "POST" "/api/v1/auth/login")
        ≡ neutral 404)
    × (forward_dev_api_request unchanged_text unchanged_text none none (request "GET" "/api/v1/x")
        ≡ broken)
    × (forward_dev_api_request unchanged_text unchanged_text
          (some (codes "production"))
          origin
          (request "GET" "/api/v1/x")
        ≡ neutral 404)
    × (forward_dev_api_request unchanged_text unchanged_text none origin (request "PUT" "/api/v1/x")
        ≡ neutral 502)
unfolding forward_dev_api_request forward_for forward_to pick pick_one get_header set_header
    development_proxy_enabled text_eq starts_with
forwardings = (refl, refl, refl, refl, refl, refl)
