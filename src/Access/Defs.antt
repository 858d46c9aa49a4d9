-- ===== src/Access/Defs.antt =====
-- What a member is offered, and where a sign-in leads. `business_status` and `role` are open
-- strings of the contract.
use restaurant_engine.Prelude.{
  ℕ, Bool, true, false, ◌&&◌, ◌||◌, not, Option, none, some, List, [], ◌∷◌, ◌++◌, any, drop, ◌≡◌,
  ltb, leb, ◌==◌, length, if◌then◌else◌,
}
use restaurant_engine.Prelude.Text.{Text, codes, text_eq, starts_with}
use restaurant_engine.Prelude.Splitting.{split}
use restaurant_engine.Session.{MembershipSummary, SessionView}

abbrev pub is_closed : MembershipSummary → Bool
is_closed m = text_eq m.business_status (codes "closed")

abbrev pub owns : MembershipSummary → Bool
owns m = text_eq m.role (codes "owner")

abbrev pub manages : MembershipSummary → Bool
manages m = owns m || text_eq m.role (codes "manager")

pub record MenuPermissions : Type 0 where
  pub can_write_catalog : Bool
  pub can_set_availability : Bool
  pub can_write_media : Bool
  pub is_read_only : Bool

unfoldable pub menu_permissions : MembershipSummary → MenuPermissions
menu_permissions m = record {
  can_write_catalog = manages m && not (is_closed m);
  can_set_availability = not (is_closed m);
  can_write_media = manages m && not (is_closed m);
  is_read_only = is_closed m;
}

pub data ReadOnlyReason : Type 0 where
  closed role : ReadOnlyReason

pub record HoursPermissions : Type 0 where
  pub can_edit : Bool
  pub read_only_reason : Option ReadOnlyReason

unfoldable pub hours_permissions : MembershipSummary → HoursPermissions
hours_permissions m =
    if is_closed m
    then record { can_edit = false; read_only_reason = some closed }
    else if not (manages m)
    then record { can_edit = false; read_only_reason = some role }
    else record { can_edit = true; read_only_reason = none }

pub record OrdersPermissions : Type 0 where
  pub can_pause : Bool

unfoldable pub orders_permissions : MembershipSummary → OrdersPermissions
orders_permissions m = record { can_pause = manages m && not (is_closed m) }

pub record StorefrontPermissions : Type 0 where
  pub can_read : Bool
  pub can_edit : Bool
  pub can_publish : Bool
  pub can_restore : Bool
  pub is_read_only : Bool

unfoldable pub storefront_permissions : MembershipSummary → StorefrontPermissions
storefront_permissions m = record {
  can_read = manages m;
  can_edit = manages m && not (is_closed m);
  can_publish = owns m && not (is_closed m);
  can_restore = owns m && not (is_closed m);
  is_read_only = is_closed m;
}

abbrev pub fallback : Text
fallback = codes "/"

abbrev pub max_length : ℕ
max_length = 2048

-- `/[\u0000-\u001f\u007f\\]/`
unfoldable pub is_forbidden : ℕ → Bool
is_forbidden c = leb c 31 || c == 127 || c == b'\\'

-- `/%2f|%5c/i`, somewhere in the text
unfoldable pub has_encoded_separator : Text → Bool
has_encoded_separator (a ∷ b ∷ c ∷ s) =
    let rest = has_encoded_separator (b ∷ c ∷ s) in
    (a == b'%'
      && ((b == b'2' && (c == b'f' || c == b'F')) || (b == b'5' && (c == b'c' || c == b'C'))))
    || rest
has_encoded_separator _ = false

-- A parsed URL: `pathname`, `search`, `origin` and the decoded names of its query.
pub record Url : Type 0 where
  pub origin : Text
  pub pathname : Text
  pub search : Text
  pub query_keys : List Text

-- The platform's URL parser, `toLowerCase` and `decodeURIComponent`, with `none` for an exception.
-- The parser gives every URL of the page's (http) origin a path that starts with a slash.
pub record Platform : Type 0 where
  pub location_origin : Text
  pub parse_url : Text → Option Url
  pub lower_case : Text → Text
  pub decode_uri_component : Text → Option Text
  pub path_rooted :
      (raw : Text) (url : Url)
      → parse_url raw ≡ some url
      → text_eq url.origin location_origin ≡ true
      → starts_with url.pathname (codes "/") ≡ true

unfoldable pub includes : Text → Text → Bool
unfolding starts_with
includes part [] = starts_with [] part
includes part (c ∷ s) = let rest = includes part s in starts_with (c ∷ s) part || rest

unfoldable pub is_login : Text → Bool
is_login path = text_eq path (codes "/login") || starts_with path (codes "/login/")

abbrev pub head_part : List Text → Text → Text
head_part [] other = other
head_part (s ∷ ss) other = s

-- `split` always has a first part.
unfoldable pub pathname_of : Text → Text
unfolding split
pathname_of target = head_part (split b'#' (head_part (split b'?' target) [])) fallback

unfoldable pub role_home_path : SessionView → Text
role_home_path session = if session.is_platform_admin then codes "/platform" else codes "/"

-- The first group of `/^\/businesses\/([^/]+)/`
abbrev pub business_segment : Text → Option Text
business_segment path =
    if starts_with path (codes "/businesses/")
    then elim (head_part (split b'/' (drop 12 path)) []) [ [] ↦ none | c ∷ s ↦ some (c ∷ s) ]
    else none

abbrev pub has_business : List MembershipSummary → Text → Bool
has_business ms id = any (λ (m : MembershipSummary). text_eq m.business_id id) ms

-- `none` is the exception of `decodeURIComponent`.
module _ (platform : Platform) where
  open platform use {location_origin, parse_url, lower_case, decode_uri_component}

  unfoldable pub names_token : Text → Bool
  unfolding includes
  names_token key = includes (codes "token") (lower_case key)

  abbrev pub accept : Url → Text
  accept url =
      if not (text_eq url.origin location_origin)
      then fallback
      else if is_login url.pathname
      then fallback
      else if any names_token url.query_keys
      then fallback
      else url.pathname ++ url.search

  abbrev pub is_refused : Text → Bool
  is_refused raw =
      length raw == 0
      || ltb max_length (length raw)
      || any is_forbidden raw
      || has_encoded_separator raw
      || not (starts_with raw (codes "/"))
      || starts_with raw (codes "//")

  -- `none` is a `next` that is no string.
  unfoldable pub sanitize_next : Option Text → Text
  unfolding is_forbidden has_encoded_separator is_login names_token
  sanitize_next none = fallback
  sanitize_next (some raw) =
      if is_refused raw
      then fallback
      else elim (parse_url raw) [ none ↦ fallback | some url ↦ accept url ]

  unfoldable pub can_reach_path : Text → SessionView → Option Bool
  unfolding pathname_of
  can_reach_path target session =
      let path = pathname_of target in
      if text_eq path (codes "/platform") || starts_with path (codes "/platform/")
      then some session.is_platform_admin
      else elim (business_segment path) [
        | none ↦ some true
        | some segment ↦ elim (decode_uri_component segment) [
          | none ↦ none
          | some id ↦ some (has_business session.memberships id)
        ]
      ]

  unfoldable pub landing_path : Option Text → SessionView → Option Text
  unfolding sanitize_next can_reach_path role_home_path
  landing_path raw_next session =
      let target = sanitize_next raw_next in
      elim (can_reach_path target session) [
        | none ↦ none
        | some reachable ↦ some (if reachable then target else role_home_path session)
      ]
