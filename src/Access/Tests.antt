-- ===== src/Access/Tests.antt =====
-- Members, redirects and landings on concrete input, and the theorems at them.
use restaurant_engine.Prelude.{
  true, false, Option, none, some, [], ◌∷◌, ◌≡◌, refl, subst, inl, inr, Bool-cases, if◌then◌else◌,
}
use restaurant_engine.Prelude.Text.{Text, codes, text_eq, starts_with}
use restaurant_engine.Prelude.Splitting.{split}
use restaurant_engine.Session.{MembershipSummary, SessionView}
use restaurant_engine.Access.Defs.{
  Url, Platform, includes, is_login, is_forbidden, has_encoded_separator, names_token,
  sanitize_next, pathname_of, role_home_path, can_reach_path, landing_path,
}
use restaurant_engine.Access.Redirects.{IsSafe, sanitize_next-IsSafe}

access_runs : Unit {0}
unfolding includes is_login is_forbidden has_encoded_separator names_token sanitize_next pathname_of
    role_home_path can_reach_path landing_path split text_eq starts_with
access_runs = tt

-- A parser that reads rooted paths of the page's origin.
abbrev url_of : Text → Url
url_of raw = record { origin = codes "http://a"; pathname = raw; search = []; query_keys = [] }

parse_rooted : Text → Option Url
parse_rooted raw = if starts_with raw (codes "/") then some (url_of raw) else none

path_at : Option Url → Text
path_at none = codes "/"
path_at (some url) = url.pathname

parse_rooted-path : (raw : Text) → starts_with (path_at (parse_rooted raw)) (codes "/") ≡ true
unfolding parse_rooted path_at starts_with
parse_rooted-path raw = elim (Bool-cases (starts_with raw (codes "/"))) [
  | inl rooted ↦ rw rooted rooted
  | inr other ↦ rw other refl
]

rooted :
    (raw : Text) (url : Url)
    → parse_rooted raw ≡ some url
    → starts_with url.pathname (codes "/") ≡ true
unfolding path_at
rooted raw url e = subst (λ o. starts_with (path_at o) (codes "/") ≡ true) e (parse_rooted-path raw)

abbrev paths_only : Platform
paths_only = record {
  location_origin = codes "http://a";
  parse_url = λ raw. parse_rooted raw;
  lower_case = λ s. s;
  decode_uri_component = λ s. some s;
  path_rooted = λ raw url e same. rooted raw url e;
}

abbrev dotted : Text
dotted = codes "/.//evil.example"

-- The same with the one dot segment of `dotted` resolved, as WHATWG URLs do.
parse_dotted : Text → Option Url
parse_dotted raw =
    if text_eq raw dotted then some (url_of (codes "//evil.example")) else parse_rooted raw

parse_dotted-path : (raw : Text) → starts_with (path_at (parse_dotted raw)) (codes "/") ≡ true
unfolding parse_dotted path_at starts_with
parse_dotted-path raw = elim (Bool-cases (text_eq raw dotted)) [
  | inl same ↦ rw same refl
  | inr other ↦ rw other (parse_rooted-path raw)
]

resolved :
    (raw : Text) (url : Url)
    → parse_dotted raw ≡ some url
    → starts_with url.pathname (codes "/") ≡ true
unfolding path_at
resolved raw url e =
    subst (λ o. starts_with (path_at o) (codes "/") ≡ true) e (parse_dotted-path raw)

abbrev dots_resolved : Platform
dots_resolved = record {
  location_origin = codes "http://a";
  parse_url = λ raw. parse_dotted raw;
  lower_case = λ s. s;
  decode_uri_component = λ s. some s;
  path_rooted = λ raw url e same. resolved raw url e;
}

-- A dot segment hides two slashes from the guards, and the target is scheme-relative.
scheme_relative : sanitize_next dots_resolved (some dotted) ≡ codes "//evil.example"
unfolding access_runs parse_dotted
scheme_relative = refl

abbrev owner : MembershipSummary
owner = record { business_id = codes "b1"; business_status = codes "closed"; role = codes "owner" }

abbrev session : SessionView
session = record { csrf_token = []; is_platform_admin = false; memberships = owner ∷ [] }

redirects :
    (sanitize_next paths_only (some (codes "/menu")) ≡ codes "/menu")
    × (sanitize_next paths_only (some (codes "//evil.example")) ≡ codes "/")
    × (sanitize_next paths_only (some (codes "/a%2Fb")) ≡ codes "/")
    × (sanitize_next paths_only (some (codes "/login/x")) ≡ codes "/")
    × (sanitize_next paths_only none ≡ codes "/")
    × (landing_path paths_only (some (codes "/businesses/b1/menu")) session
        ≡ some (codes "/businesses/b1/menu"))
    × (landing_path paths_only (some (codes "/businesses/b2?x=1")) session ≡ some (codes "/"))
    × (landing_path paths_only (some (codes "/platform/users")) session ≡ some (codes "/"))
unfolding access_runs parse_rooted
redirects = (refl, refl, refl, refl, refl, refl, refl, refl)

sanitize_next-IsSafe_example :
    IsSafe paths_only (codes "/menu") (sanitize_next paths_only (some (codes "/menu")))
sanitize_next-IsSafe_example = sanitize_next-IsSafe paths_only (codes "/menu")

abbrev wanted : Option Text
wanted = some (codes "/businesses/b2")
