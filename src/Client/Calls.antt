-- ===== src/Client/Calls.antt =====
-- Every method of the client that `createApiClient` composes, by the group it is mounted under
-- (packages/api-client/src/facade.ts). The catalog's methods are the groups `catalog` and
-- `modifiers`, the platform's are `platform` and `administration`.
use restaurant_engine.Prelude.{Bool, true, false, Option, none}
use restaurant_engine.Prelude.Text.{Text}
use restaurant_engine.Client.Defs.{ApiRequest}
use restaurant_engine.Client.Accounts.{
  HealthCall, health_request, AuthCall, auth_request, auth_token, login, InvitationCall,
  invitation_request, invitation_token, preview, accept, ResetCall, reset_request,
}
use restaurant_engine.Client.Businesses.{
  BusinessCall, business_request, business_token, business_business,
}
use restaurant_engine.Client.Catalog.{CatalogCall, catalog_request, catalog_token, catalog_business}
use restaurant_engine.Client.Modifiers.{
  ModifierCall, modifier_request, modifier_token, modifier_business,
}
use restaurant_engine.Client.Hours.{HoursCall, hours_request, hours_token, hours_business}
use restaurant_engine.Client.Media.{MediaCall, media_request, media_token, media_business}
use restaurant_engine.Client.Storefront.{
  StorefrontCall, storefront_request, storefront_token, storefront_business,
}
use restaurant_engine.Client.Orders.{OrderCall, order_request, order_token, order_business}
use restaurant_engine.Client.Platform.{
  PlatformCall, platform_request, platform_token, platform_business,
}
use restaurant_engine.Client.Administration.{
  AdministrationCall, administration_request, administration_token, administration_business,
}
use restaurant_engine.Client.Public.{PublicCall, public_request, place_order, cancel_order}

pub data Call : Type 0 where
  health : HealthCall → Call
  auth : AuthCall → Call
  invitations : InvitationCall → Call
  password_resets : ResetCall → Call
  businesses : BusinessCall → Call
  catalog : CatalogCall → Call
  modifiers : ModifierCall → Call
  hours : HoursCall → Call
  media : MediaCall → Call
  storefront : StorefrontCall → Call
  orders : OrderCall → Call
  platform : PlatformCall → Call
  administration : AdministrationCall → Call
  anonymous : PublicCall → Call

unfoldable pub request : Call → ApiRequest
unfolding health_request auth_request invitation_request reset_request business_request
    catalog_request modifier_request hours_request media_request storefront_request order_request
    platform_request administration_request public_request
request (health call) = health_request call
request (auth call) = auth_request call
request (invitations call) = invitation_request call
request (password_resets call) = reset_request call
request (businesses call) = business_request call
request (catalog call) = catalog_request call
request (modifiers call) = modifier_request call
request (hours call) = hours_request call
request (media call) = media_request call
request (storefront call) = storefront_request call
request (orders call) = order_request call
request (platform call) = platform_request call
request (administration call) = administration_request call
request (anonymous call) = public_request call

-- The token that the method is given.
abbrev pub token_of : Call → Option Text
token_of (health call) = none
token_of (auth call) = auth_token call
token_of (invitations call) = invitation_token call
token_of (password_resets call) = none
token_of (businesses call) = business_token call
token_of (catalog call) = catalog_token call
token_of (modifiers call) = modifier_token call
token_of (hours call) = hours_token call
token_of (media call) = media_token call
token_of (storefront call) = storefront_token call
token_of (orders call) = order_token call
token_of (platform call) = platform_token call
token_of (administration call) = administration_token call
token_of (anonymous call) = none

-- The business that the method is given.
abbrev pub business_of : Call → Option Text
business_of (health call) = none
business_of (auth call) = none
business_of (invitations call) = none
business_of (password_resets call) = none
business_of (businesses call) = business_business call
business_of (catalog call) = catalog_business call
business_of (modifiers call) = modifier_business call
business_of (hours call) = hours_business call
business_of (media call) = media_business call
business_of (storefront call) = storefront_business call
business_of (orders call) = order_business call
business_of (platform call) = platform_business call
business_of (administration call) = administration_business call
business_of (anonymous call) = none

-- The calls that change something for a guest without a session.
abbrev pub is_anonymous : Call → Bool
is_anonymous (auth (login body)) = true
is_anonymous (invitations (preview body)) = true
is_anonymous (invitations (accept body)) = true
is_anonymous (password_resets call) = true
is_anonymous (anonymous (place_order payload)) = true
is_anonymous (anonymous (cancel_order tracking_token)) = true
is_anonymous _ = false
