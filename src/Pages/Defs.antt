-- ===== src/Pages/Defs.antt =====
-- Load outcomes, the menu section, and the results of the islands' own calls.
use restaurant_engine.Prelude.{
  ℕ, Bool, true, false, Option, none, some, List, [], ◌∷◌, concat, String, ◌==◌, if◌then◌else◌,
}
use restaurant_engine.Prelude.Options.{or_else}
use restaurant_engine.Prelude.Text.{Text, text_eq}
use restaurant_engine.Js.{Json, str, arr, obj, get}
use restaurant_engine.Api.{ApiResult, ok, failed}

pub data StorefrontResult {ℓ} (T : Type ℓ) : Type ℓ where
  loaded : T → StorefrontResult T
  not_found : StorefrontResult T
  unavailable : StorefrontResult T

unfoldable pub to_storefront_result {ℓ} : {T : Type ℓ} → ApiResult T → StorefrontResult T
to_storefront_result (ok status result) = loaded result
to_storefront_result (failed (some status) envelope) =
    if status == 404 then not_found else unavailable
to_storefront_result (failed none envelope) = unavailable

-- `requestHost`, of the Host header
abbrev pub request_host : Option Text → Option Text
request_host none = none
request_host (some []) = none
request_host (some (c ∷ host)) = some (c ∷ host)

-- The three loaders, by the call that the client makes for a host.
unfoldable pub load {ℓ} : {T : Type ℓ} → (Text → ApiResult T) → Option Text → StorefrontResult T
unfolding to_storefront_result
load fetched none = not_found
load fetched (some host) = to_storefront_result (fetched host)

-- `unwrap`: the data, the neutral 404 of `notFound()`, or the error boundary.
pub data Page {ℓ} (T : Type ℓ) : Type ℓ where
  shown : T → Page T
  neutral_404 : Page T
  error_boundary : Page T

unfoldable pub unwrap_page {ℓ} : {T : Type ℓ} → StorefrontResult T → Page T
unwrap_page (loaded result) = shown result
unwrap_page not_found = neutral_404
unwrap_page unavailable = error_boundary

-- An item of the public menu; `view` is all else of it.
pub record PublicItem : Type 0 where
  pub id : Text
  pub view : Json

pub record PublicMenu : Type 0 where
  pub currency : Text
  pub categories : List (List PublicItem)
  pub featured_item_ids : List Text

pub record MenuSectionData : Type 0 where
  pub currency : Text
  pub featured : List PublicItem

-- `itemsById.get(id)`: of two items with one id the later is kept.
unfoldable pub item_by_id : Text → List PublicItem → Option PublicItem
unfolding or_else text_eq
item_by_id id [] = none
item_by_id id (item ∷ items) =
    or_else (item_by_id id items) (if text_eq item.id id then some item else none)

abbrev pub keep_defined : Option PublicItem → List PublicItem → List PublicItem
keep_defined none items = items
keep_defined (some item) items = item ∷ items

unfoldable pub featured_of : List PublicItem → List Text → List PublicItem
unfolding item_by_id
featured_of items [] = []
featured_of items (id ∷ ids) = keep_defined (item_by_id id items) (featured_of items ids)

unfoldable pub menu_section_data : PublicMenu → MenuSectionData
unfolding featured_of
menu_section_data menu = record {
  currency = menu.currency;
  featured = featured_of (concat menu.categories) menu.featured_item_ids;
}

-- An island's call: `fetch` throws, or answers with its `ok`, status and body, where a body that does
-- not parse is null.
pub data Answer : Type 0 where
  threw : Answer
  answered : Bool → ℕ → Json → Answer

pub data PublicApiResult : Type 0 where
  accepted : Json → PublicApiResult
  denied : Option ℕ → Option Text → Option Json → PublicApiResult

-- `typeof error?.['code'] === 'string' ? error['code'] : null`
abbrev pub code_of : Option Json → Option Text
code_of (some (str code)) = some code
code_of _ = none

-- An object or an array, which has type 'object' as well.
abbrev pub details_of : Option Json → Option Json
details_of (some (obj fs)) = some (obj fs)
details_of (some (arr vs)) = some (arr vs)
details_of _ = none

abbrev pub member : String → Option Json → Option Json
member name none = none
member name (some v) = get name v

unfoldable pub public_fetch : Answer → PublicApiResult
public_fetch threw = denied none none none
public_fetch (answered true status body) = accepted body
public_fetch (answered false status body) =
    let error = get "error" body in
    denied (some status) (code_of (member "code" error)) (details_of (member "details" error))
