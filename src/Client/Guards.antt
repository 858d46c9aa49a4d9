-- ===== src/Client/Guards.antt =====
-- Who may send what: the CSRF token of every request of the client.
use restaurant_engine.Prelude.{Bool, true, false, ◌||◌, Option, none, some, List, [], ◌≡◌, refl}
use restaurant_engine.Prelude.Text.{Text}
use restaurant_engine.Client.Defs.{ApiRequest, Method, get, HeaderField, csrf}
use restaurant_engine.Client.Calls.{
  Call, request, token_of, is_anonymous, health, auth, invitations, password_resets, businesses,
  catalog, modifiers, hours, media, storefront, orders, platform, administration, anonymous,
}
use restaurant_engine.Client.Accounts.{
  HealthCall, get_liveness, AuthCall, login, InvitationCall, preview, ResetCall, redeem,
}
use restaurant_engine.Client.Businesses.{BusinessCall, get_one}
use restaurant_engine.Client.Catalog.{CatalogCall, get_menu}
use restaurant_engine.Client.Modifiers.{ModifierCall, set_item_availability}
use restaurant_engine.Client.Hours.{HoursCall, get_one}
use restaurant_engine.Client.Media.{MediaCall, list_assets}
use restaurant_engine.Client.Storefront.{StorefrontCall, get_one}
use restaurant_engine.Client.Orders.{OrderCall, list_page}
use restaurant_engine.Client.Platform.{PlatformCall, create_business}
use restaurant_engine.Client.Administration.{AdministrationCall, create_invitation}
use restaurant_engine.Client.Public.{PublicCall, get_site}

abbrev pub is_unsafe : Method → Bool
is_unsafe get = false
is_unsafe _ = true

abbrev is_given {ℓ} : {A : Type ℓ} → Option A → Bool
is_given none = false
is_given (some a) = true

abbrev token_headers : Option Text → List HeaderField
token_headers none = []
token_headers (some token) = csrf token

-- The CSRF header is the token that the method was given and the only header, a request is unsafe
-- exactly if its method takes a token or is anonymous, and only unsafe requests have a body.
abbrev pub IsGuarded : Call → Type 0
unfolding request
IsGuarded call =
    (ApiRequest.headers (request call) ≡ token_headers (token_of call))
    × (is_unsafe (ApiRequest.method (request call))
        ≡ (is_given (token_of call) || is_anonymous call))
    × ((is_unsafe (ApiRequest.method (request call)) || is_given (ApiRequest.body (request call)))
        ≡ is_unsafe (ApiRequest.method (request call)))

health_IsGuarded : (call : HealthCall) → IsGuarded (health call)
unfolding request
health_IsGuarded get_liveness = (refl, refl, refl)
health_IsGuarded _ = (refl, refl, refl)

auth_IsGuarded : (call : AuthCall) → IsGuarded (auth call)
unfolding request
auth_IsGuarded (login a) = (refl, refl, refl)
auth_IsGuarded _ = (refl, refl, refl)

invitation_IsGuarded : (call : InvitationCall) → IsGuarded (invitations call)
unfolding request
invitation_IsGuarded (preview a) = (refl, refl, refl)
invitation_IsGuarded _ = (refl, refl, refl)

reset_IsGuarded : (call : ResetCall) → IsGuarded (password_resets call)
unfolding request
reset_IsGuarded (redeem a) = (refl, refl, refl)

business_IsGuarded : (call : BusinessCall) → IsGuarded (businesses call)
unfolding request
business_IsGuarded (get_one a) = (refl, refl, refl)
business_IsGuarded _ = (refl, refl, refl)

catalog_IsGuarded : (call : CatalogCall) → IsGuarded (catalog call)
unfolding request
catalog_IsGuarded (get_menu a) = (refl, refl, refl)
catalog_IsGuarded _ = (refl, refl, refl)

modifier_IsGuarded : (call : ModifierCall) → IsGuarded (modifiers call)
unfolding request
modifier_IsGuarded (set_item_availability a b c d) = (refl, refl, refl)
modifier_IsGuarded _ = (refl, refl, refl)

hours_IsGuarded : (call : HoursCall) → IsGuarded (hours call)
unfolding request
hours_IsGuarded (get_one a) = (refl, refl, refl)
hours_IsGuarded _ = (refl, refl, refl)

media_IsGuarded : (call : MediaCall) → IsGuarded (media call)
unfolding request
media_IsGuarded (list_assets a b) = (refl, refl, refl)
media_IsGuarded _ = (refl, refl, refl)

storefront_IsGuarded : (call : StorefrontCall) → IsGuarded (storefront call)
unfolding request
storefront_IsGuarded (get_one a) = (refl, refl, refl)
storefront_IsGuarded _ = (refl, refl, refl)

order_IsGuarded : (call : OrderCall) → IsGuarded (orders call)
unfolding request
order_IsGuarded (list_page a b) = (refl, refl, refl)
order_IsGuarded _ = (refl, refl, refl)

platform_IsGuarded : (call : PlatformCall) → IsGuarded (platform call)
unfolding request
platform_IsGuarded (create_business a b) = (refl, refl, refl)
platform_IsGuarded _ = (refl, refl, refl)

administration_IsGuarded : (call : AdministrationCall) → IsGuarded (administration call)
unfolding request
administration_IsGuarded (create_invitation a b c) = (refl, refl, refl)
administration_IsGuarded _ = (refl, refl, refl)

public_IsGuarded : (call : PublicCall) → IsGuarded (anonymous call)
unfolding request
public_IsGuarded get_site = (refl, refl, refl)
public_IsGuarded _ = (refl, refl, refl)

-- Every call of the client is guarded: its CSRF header is the token that the method was given and
-- its only header; it is not a GET exactly if the method takes a token or is one of the six
-- anonymous calls; and a GET has no body.
pub request-IsGuarded : (call : Call) → IsGuarded call
request-IsGuarded (health call) = health_IsGuarded call
request-IsGuarded (auth call) = auth_IsGuarded call
request-IsGuarded (invitations call) = invitation_IsGuarded call
request-IsGuarded (password_resets call) = reset_IsGuarded call
request-IsGuarded (businesses call) = business_IsGuarded call
request-IsGuarded (catalog call) = catalog_IsGuarded call
request-IsGuarded (modifiers call) = modifier_IsGuarded call
request-IsGuarded (hours call) = hours_IsGuarded call
request-IsGuarded (media call) = media_IsGuarded call
request-IsGuarded (storefront call) = storefront_IsGuarded call
request-IsGuarded (orders call) = order_IsGuarded call
request-IsGuarded (platform call) = platform_IsGuarded call
request-IsGuarded (administration call) = administration_IsGuarded call
request-IsGuarded (anonymous call) = public_IsGuarded call
