-- ===== src/Pages/Tests.antt =====
-- Pages and answers on concrete input, and the theorems at them.
use restaurant_engine.Prelude.{ℕ, false, none, some, [], ◌∷◌, Option, ◌≡◌, ◌⊎◌, refl}
use restaurant_engine.Prelude.Options.{or_else}
use restaurant_engine.Prelude.Text.{Text, codes, text_eq}
use restaurant_engine.Js.{Json, null, num, int, obj, arr, nil, str, field, end}
use restaurant_engine.Api.{ErrorEnvelope, ok, failed, to_result}
use restaurant_engine.Prelude.Int.{pos}
use restaurant_engine.Api.Envelopes.{envelope_value}
use restaurant_engine.Pages.Defs.{
  PublicItem, PublicMenu, MenuSectionData, menu_section_data, featured_of, item_by_id, loaded,
  not_found, unavailable, load, to_storefront_result, unwrap_page, neutral_404, answered, threw,
  denied, public_fetch,
}
use restaurant_engine.Pages.Featured.{ids_of}
use restaurant_engine.Pages.Answers.{public_fetch-to_result}

loads :
    (load {T = ℕ} (λ host. ok 200 7) none ≡ not_found)
    × (load {T = ℕ} (λ host. ok 200 7) (some (codes "a.example")) ≡ loaded 7)
    × (load {T = ℕ} (λ host. failed (some 404) none) (some (codes "a.example")) ≡ not_found)
    × (load {T = ℕ} (λ host. failed (some 503) none) (some (codes "a.example")) ≡ unavailable)
    × (load {T = ℕ} (λ host. failed none none) (some (codes "a.example")) ≡ unavailable)
    × (unwrap_page {T = ℕ} not_found ≡ neutral_404)
unfolding load to_storefront_result unwrap_page
loads = (refl, refl, refl, refl, refl, refl)

answers :
    (public_fetch threw ≡ denied none none none)
    × (public_fetch (
          answered false 409
            (obj (field "error" (obj (field "code" (str (codes "full")) end)) end)))
        ≡ denied (some 409) (some (codes "full")) none)
    × (public_fetch (answered false 502 null) ≡ denied (some 502) none none)
unfolding public_fetch
answers = (refl, refl, refl)

abbrev full : ErrorEnvelope
full = record {
  code = codes "full";
  message = codes "No table is left.";
  correlation_id = some (codes "c1");
  field_errors = [];
  details = some (field "retry_after" (num (int (pos 60))) end);
}

-- An envelope without the keys that may be absent.
abbrev short_body : Json
short_body = obj (
    field "error"
      (obj (
        field "code" (str (codes "full")) (
          field "message" (str [])
            (field "correlation_id" null (field "field_errors" (arr nil) end)))))
      end)

public_fetch-to_result_example :
    (to_result {T = Json} none (some (envelope_value full)) 409 ≡ failed (some 409) (some full))
    × (public_fetch (answered false 409 (envelope_value full))
        ≡ denied
            (some 409)
            (some (codes "full"))
            (some (obj (field "retry_after" (num (int (pos 60))) end))))
    × ((to_result {T = Json} none (some short_body) 409 ≡ failed (some 409) none)
        ⊎ ((found : ErrorEnvelope) × (details : Option Json) × (to_result {T = Json} none
                (some short_body)
                409
              ≡ failed (some 409) (some found))
            × (public_fetch (answered false 409 short_body)
                ≡ denied (some 409) (some found.code) details)))
public_fetch-to_result_example = public_fetch-to_result full short_body 409

abbrev item : Text → PublicItem
item id = record { id = id; view = null }

abbrev menu : PublicMenu
menu = record {
  currency = codes "BDT";
  categories = (item (codes "a") ∷ item (codes "b") ∷ []) ∷ (item (codes "c") ∷ []) ∷ [];
  featured_item_ids = codes "c" ∷ codes "x" ∷ codes "a" ∷ [];
}

featured : ids_of (MenuSectionData.featured (menu_section_data menu)) ≡ codes "c" ∷ codes "a" ∷ []
unfolding menu_section_data featured_of item_by_id or_else text_eq
featured = refl
