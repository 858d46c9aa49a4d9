-- ===== src/Client/Scopes.antt =====
-- What a request of the client is about: the placeholders of its path and its business.
use restaurant_engine.Prelude.{
  Bool, Option, none, some, List, ℕ, ◌-◌, map, keep_if, length, take, drop, ◌≡◌, refl, find_first,
}
use restaurant_engine.Prelude.Text.{Text, codes, text_eq, starts_with}
use restaurant_engine.Prelude.Splitting.{split}
use restaurant_engine.Client.Defs.{ApiRequest, PathParam}
use restaurant_engine.Client.Calls.{
  Call, request, business_of, health, auth, invitations, password_resets, businesses, catalog,
  modifiers, hours, media, storefront, orders, platform, administration, anonymous,
}
use restaurant_engine.Client.Accounts.{
  HealthCall, get_liveness, AuthCall, login, InvitationCall, preview, ResetCall, redeem,
}
use restaurant_engine.Client.Businesses.{BusinessCall, get_one}
use restaurant_engine.Client.Catalog.{CatalogCall, get_menu}
use restaurant_engine.Client.Modifiers.{ModifierCall, set_item_availability}
use restaurant_engine.Client.Hours.{HoursCall, get_one}
use restaurant_engine.Client.Media.{MediaCall, list_assets}
use restaurant_engine.Client.Storefront.{StorefrontCall, get_one}
use restaurant_engine.Client.Orders.{OrderCall, list_page, transition, accept}
use restaurant_engine.Client.Platform.{PlatformCall, create_business}
use restaurant_engine.Client.Administration.{AdministrationCall, create_invitation}
use restaurant_engine.Client.Public.{PublicCall, get_site}

abbrev slash : ℕ
slash = 47

abbrev is_placeholder : Text → Bool
is_placeholder part = starts_with part (codes "{")

abbrev inner : Text → Text
inner part = take (length part - 2) (drop 1 part)

-- The names between braces in a path template.
unfoldable pub placeholders : Text → List Text
unfolding split starts_with
placeholders template = map inner (keep_if is_placeholder (split slash template))

abbrev value_of : Option PathParam → Option Text
value_of none = none
value_of (some p) = some (PathParam.value p)

abbrev pub param_named : Text → List PathParam → Option Text
unfolding text_eq
param_named name params = value_of (find_first (λ p. text_eq name (PathParam.name p)) params)

-- The path parameters are the placeholders of the path in their order, and the one called
-- `business_id` is the business that the method was given.
abbrev pub IsScoped : Call → Type 0
unfolding request
IsScoped call =
    (map (λ p. PathParam.name p) (ApiRequest.path_params (request call))
      ≡ placeholders (ApiRequest.template (request call)))
    × (param_named (codes "business_id") (ApiRequest.path_params (request call)) ≡ business_of call)

health_IsScoped : (call : HealthCall) → IsScoped (health call)
unfolding request placeholders param_named split starts_with text_eq
health_IsScoped get_liveness = (refl, refl)
health_IsScoped _ = (refl, refl)

auth_IsScoped : (call : AuthCall) → IsScoped (auth call)
unfolding request placeholders param_named split starts_with text_eq
auth_IsScoped (login a) = (refl, refl)
auth_IsScoped _ = (refl, refl)

invitation_IsScoped : (call : InvitationCall) → IsScoped (invitations call)
unfolding request placeholders param_named split starts_with text_eq
invitation_IsScoped (preview a) = (refl, refl)
invitation_IsScoped _ = (refl, refl)

reset_IsScoped : (call : ResetCall) → IsScoped (password_resets call)
unfolding request placeholders param_named split starts_with text_eq
reset_IsScoped (redeem a) = (refl, refl)

business_IsScoped : (call : BusinessCall) → IsScoped (businesses call)
unfolding request placeholders param_named split starts_with text_eq
business_IsScoped (get_one a) = (refl, refl)
business_IsScoped _ = (refl, refl)

catalog_IsScoped : (call : CatalogCall) → IsScoped (catalog call)
unfolding request placeholders param_named split starts_with text_eq
catalog_IsScoped (get_menu a) = (refl, refl)
catalog_IsScoped _ = (refl, refl)

modifier_IsScoped : (call : ModifierCall) → IsScoped (modifiers call)
unfolding request placeholders param_named split starts_with text_eq
modifier_IsScoped (set_item_availability a b c d) = (refl, refl)
modifier_IsScoped _ = (refl, refl)

hours_IsScoped : (call : HoursCall) → IsScoped (hours call)
unfolding request placeholders param_named split starts_with text_eq
hours_IsScoped (get_one a) = (refl, refl)
hours_IsScoped _ = (refl, refl)

media_IsScoped : (call : MediaCall) → IsScoped (media call)
unfolding request placeholders param_named split starts_with text_eq
media_IsScoped (list_assets a b) = (refl, refl)
media_IsScoped _ = (refl, refl)

storefront_IsScoped : (call : StorefrontCall) → IsScoped (storefront call)
unfolding request placeholders param_named split starts_with text_eq
storefront_IsScoped (get_one a) = (refl, refl)
storefront_IsScoped _ = (refl, refl)

order_IsScoped : (call : OrderCall) → IsScoped (orders call)
unfolding request placeholders param_named split starts_with text_eq
order_IsScoped (list_page a b) = (refl, refl)
order_IsScoped (transition accept a b c) = (refl, refl)
order_IsScoped (transition _ a b c) = (refl, refl)
order_IsScoped _ = (refl, refl)

platform_IsScoped : (call : PlatformCall) → IsScoped (platform call)
unfolding request placeholders param_named split starts_with text_eq
platform_IsScoped (create_business a b) = (refl, refl)
platform_IsScoped _ = (refl, refl)

administration_IsScoped : (call : AdministrationCall) → IsScoped (administration call)
unfolding request placeholders param_named split starts_with text_eq
administration_IsScoped (create_invitation a b c) = (refl, refl)
administration_IsScoped _ = (refl, refl)

public_IsScoped : (call : PublicCall) → IsScoped (anonymous call)
unfolding request placeholders param_named split starts_with text_eq
public_IsScoped get_site = (refl, refl)
public_IsScoped _ = (refl, refl)

-- Every call of the client fills each placeholder of its path once, in their order, and no other
-- name; and its path names a business exactly if the method was given one, which it is.
pub request-IsScoped : (call : Call) → IsScoped call
request-IsScoped (health call) = health_IsScoped call
request-IsScoped (auth call) = auth_IsScoped call
request-IsScoped (invitations call) = invitation_IsScoped call
request-IsScoped (password_resets call) = reset_IsScoped call
request-IsScoped (businesses call) = business_IsScoped call
request-IsScoped (catalog call) = catalog_IsScoped call
request-IsScoped (modifiers call) = modifier_IsScoped call
request-IsScoped (hours call) = hours_IsScoped call
request-IsScoped (media call) = media_IsScoped call
request-IsScoped (storefront call) = storefront_IsScoped call
request-IsScoped (orders call) = order_IsScoped call
request-IsScoped (platform call) = platform_IsScoped call
request-IsScoped (administration call) = administration_IsScoped call
request-IsScoped (anonymous call) = public_IsScoped call
