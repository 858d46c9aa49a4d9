-- ===== src/Transport/Origin.antt =====
-- The backend's origin from the environment (`resolveApiOrigin` in
-- apps/storefront/lib/server/api-origin.ts). The URL parser is a parameter.
use restaurant_engine.Prelude.{
  ℕ, Bool, true, false, ◌&&◌, ◌||◌, not, Option, none, some, [], ◌∷◌, ◌≡◌, ◌⊎◌, refl, sym, ap, inl,
  inr, arith, ◌==◌, if◌then◌else◌,
}
use restaurant_engine.Prelude.Text.{Text, codes, text_eq, text_eq_sound}

pub record ApiUrl : Type 0 where
  pub origin : Text
  pub protocol : Text
  pub pathname : Text
  pub search : Text
  pub hash : Text
  pub username : Text
  pub password : Text

-- The origin, or which of the configuration errors is thrown.
pub data Resolution : Type 0 where
  origin_is : Text → Resolution
  unset_in_production not_absolute not_bare : Resolution

abbrev pub development_default_origin : Text
development_default_origin = codes "http://127.0.0.1:8000"

-- `endsWith`, of one code unit
unfoldable pub ends_with : ℕ → Text → Bool
ends_with c [] = false
ends_with c (x ∷ []) = x == c
ends_with c (x ∷ y ∷ s) = ends_with c (y ∷ s)

unfoldable pub is_http : Text → Bool
is_http protocol = text_eq protocol (codes "http:") || text_eq protocol (codes "https:")

unfoldable pub is_bare_origin : Text → ApiUrl → Bool
is_bare_origin raw url =
    is_http url.protocol
    && text_eq url.pathname (codes "/")
    && text_eq url.search []
    && text_eq url.hash []
    && text_eq url.username []
    && text_eq url.password []
    && not (ends_with b'?' raw)
    && not (ends_with b'#' raw)

abbrev pub is_production : Option Text → Bool
is_production none = false
is_production (some env) = text_eq env (codes "production")

unfoldable pub default_origin : Option Text → Resolution
default_origin node_env =
    if is_production node_env then unset_in_production else origin_is development_default_origin

origin_in : Resolution → Text → Text
origin_in (origin_is o) d = o
origin_in _ d = d

same_origin : (a b : Text) → origin_is a ≡ origin_is b → b ≡ a
unfolding origin_in
same_origin a b e = sym (ap (λ r. origin_in r []) e)

module _ (parse_url : Text → Option ApiUrl) where
  unfoldable pub parsed_origin : Text → Option ApiUrl → Resolution
  parsed_origin raw none = not_absolute
  parsed_origin raw (some url) = if is_bare_origin raw url then origin_is url.origin else not_bare

  -- The values of `STOREFRONT_API_ORIGIN` and `NODE_ENV`.
  unfoldable pub resolve_api_origin : Option Text → Option Text → Resolution
  unfolding default_origin parsed_origin
  resolve_api_origin none node_env = default_origin node_env
  resolve_api_origin (some []) node_env = default_origin node_env
  resolve_api_origin (some (c ∷ s)) node_env = parsed_origin (c ∷ s) (parse_url (c ∷ s))

  abbrev pub IsBareOrigin : Text → ApiUrl → Type 0
  IsBareOrigin raw url =
      (is_http url.protocol ≡ true)
      × (url.pathname ≡ codes "/")
      × (url.search ≡ [])
      × (url.hash ≡ [])
      × (url.username ≡ [])
      × (url.password ≡ [])
      × (ends_with b'?' raw ≡ false)
      × (ends_with b'#' raw ≡ false)

  -- The default, outside production, for an unset variable; or the origin of the bare URL that it holds.
  abbrev pub IsConfigured : Option Text → Option Text → Text → Type 0
  IsConfigured raw node_env origin =
      (((raw ≡ none) ⊎ (raw ≡ some []))
        × (is_production node_env ≡ false)
        × (origin ≡ development_default_origin))
      ⊎ ((value : Text) × (url : ApiUrl) × (raw ≡ some value)
          × (parse_url value ≡ some url)
          × IsBareOrigin value url
          × (origin ≡ url.origin))

  bare_parts : (raw : Text) (url : ApiUrl) → is_bare_origin raw url ≡ true → IsBareOrigin raw url
  unfolding is_bare_origin
  bare_parts raw url h = (
    ground arith,
    text_eq_sound url.pathname (codes "/") (ground arith),
    text_eq_sound url.search [] (ground arith),
    text_eq_sound url.hash [] (ground arith),
    text_eq_sound url.username [] (ground arith),
    text_eq_sound url.password [] (ground arith),
    ground arith,
    ground arith,
  )

  accepted_default :
      (b : Bool) (p o : Text)
      → (if b then unset_in_production else origin_is p) ≡ origin_is o
      → (b ≡ false) × (o ≡ p)
  accepted_default true p o h = cc
  accepted_default false p o h = (refl, same_origin p o h)

  accepted_url :
      (b : Bool) (p o : Text)
      → (if b then origin_is p else not_bare) ≡ origin_is o
      → (b ≡ true) × (o ≡ p)
  accepted_url true p o h = (refl, same_origin p o h)
  accepted_url false p o h = cc

  parsed_origin-IsConfigured :
      (value : Text) (node_env : Option Text) (parsed : Option ApiUrl) (o : Text)
      → parse_url value ≡ parsed
      → parsed_origin value parsed ≡ origin_is o
      → IsConfigured (some value) node_env o
  unfolding parsed_origin
  parsed_origin-IsConfigured value node_env none o e h = cc
  parsed_origin-IsConfigured value node_env (some url) o e h =
      let (bare, same) = accepted_url (is_bare_origin value url) url.origin o h in
      inr (value, url, refl, e, bare_parts value url bare, same)

  -- Every origin that is used was configured: it is the origin of an http or https URL without path,
  -- query, hash or user, or the local default where the variable is unset outside production. An unset
  -- variable in production, and any other text, is an error.
  pub resolve_api_origin-IsConfigured :
      (raw node_env : Option Text) (o : Text)
      → resolve_api_origin raw node_env ≡ origin_is o
      → IsConfigured raw node_env o
  unfolding resolve_api_origin default_origin
  resolve_api_origin-IsConfigured none node_env o h =
      let (outside, same) =
        accepted_default (is_production node_env) development_default_origin o h in
      inl (inl refl, outside, same)
  resolve_api_origin-IsConfigured (some []) node_env o h =
      let (outside, same) =
        accepted_default (is_production node_env) development_default_origin o h in
      inl (inr refl, outside, same)
  resolve_api_origin-IsConfigured (some (c ∷ s)) node_env o h =
      parsed_origin-IsConfigured (c ∷ s) node_env (parse_url (c ∷ s)) o refl h
