-- ===== src/Checkout/Submit.antt =====
-- The submission of the checkout form (`validate` and `handleSubmit` in
-- apps/storefront/components/ordering/CheckoutForm.tsx). The backend's answer is an argument.
use restaurant_engine.Prelude.{
  ℕ, Bool, true, false, ◌&&◌, Option, none, some, List, [], ◌∷◌, ◌++◌, String, ◌==◌, if◌then◌else◌,
}
use restaurant_engine.Prelude.Int.{pos}
use restaurant_engine.Prelude.Text.{Text, codes, text_eq}
use restaurant_engine.Js.{Number, int, Json, str, num}
use restaurant_engine.Money.{trim, is_empty}
use restaurant_engine.Cart.{Cart, to_placement_lines}
use restaurant_engine.Pages.{PublicApiResult, accepted, denied}
use restaurant_engine.Checkout.Defs.{
  submitting, stale, price_changed, slot_unavailable, key_reused, paused, gone, failed,
  CheckoutState, OrderPlace, parse_problems, member_of, load_slots, invalidate_key,
  display_total_minor, is_scheduled,
}

abbrev pub error_if : Bool → String → String → List (Text × Text)
error_if failing field message = if failing then (codes field, codes message) ∷ [] else []

-- The errors that `validate` sets.
abbrev pub form_errors : CheckoutState → List (Text × Text)
form_errors s =
    error_if (is_empty (trim s.name)) "name" "Enter a name for the order."
    ++ error_if (is_empty (trim s.phone)) "phone"
        "Enter a phone number so the restaurant can reach you."
    ++ error_if (is_scheduled s.pickup_kind && is_empty s.slot) "slot" "Choose a pickup time."

abbrev pub text_or_none : Text → Option Text
text_or_none t = if is_empty t then none else some t

-- `idempotencyKey.current ??= crypto.randomUUID()`
abbrev pub minted : Text → Option Text → Text
minted uuid none = uuid
minted uuid (some held) = held

unfoldable pub payload_of : Text → Cart → CheckoutState → OrderPlace
payload_of key cart s = record {
  idempotency_key = key;
  lines = to_placement_lines cart;
  customer_name = trim s.name;
  customer_phone = trim s.phone;
  customer_email = text_or_none (trim s.email);
  order_instructions = text_or_none (trim s.instructions);
  consent_updates = s.consent_updates;
  consent_marketing = s.consent_marketing;
  pickup_kind = s.pickup_kind;
  requested_pickup_at = if is_scheduled s.pickup_kind then some s.slot else none;
  expected_total_minor = display_total_minor s.submit cart;
}

-- Up to the await: the state, and the order that is sent if the form is valid.
abbrev pub submit_if : Bool → Text → Cart → CheckoutState → CheckoutState × Option OrderPlace
submit_if false uuid cart s = (record s { field_errors = form_errors s }, none)
submit_if true uuid cart s = (
  record s {
    field_errors = [];
    submit = submitting;
    idempotency_key = some (minted uuid s.idempotency_key);
  },
  some (payload_of (minted uuid s.idempotency_key) cart s),
)

-- `Object.keys(errors).length === 0`
abbrev pub has_no_keys : List (Text × Text) → Bool
has_no_keys [] = true
has_no_keys (e ∷ es) = false

abbrev pub is_valid : CheckoutState → Bool
is_valid s = has_no_keys (form_errors s)

unfoldable pub handle_submit : Text → Cart → CheckoutState → CheckoutState × Option OrderPlace
handle_submit uuid cart s = submit_if (is_valid s) uuid cart s

abbrev pub has_code : String → Option Text → Bool
has_code code none = false
has_code code (some c) = text_eq c (codes code)

-- `result.status === 409 && result.code === code`
abbrev pub conflicts : String → Option ℕ → Option Text → Bool
conflicts code none c = false
conflicts code (some status) c = status == 409 && has_code code c

abbrev pub is_missing : Option ℕ → Bool
is_missing none = false
is_missing (some status) = status == 404

abbrev pub number_or_zero : Option Json → Number
number_or_zero (some (num n)) = n
number_or_zero _ = int (pos 0)

abbrev pub text_or_null : Option Json → Option Text
text_or_null (some (str t)) = some t
text_or_null _ = none

-- What the handler goes on to: it is over, it has left for the order's page, or it asks for the
-- pickup slots again.
pub data Next : Type 0 where
  over refreshes : Next
  leaves : Json → Next

-- The branches behind the await that are for a refused order.
pub data RefusedAs : Type 0 where
  is_stale is_price_changed is_slot_unavailable is_paused is_key_reused is_gone is_failed :
      RefusedAs

unfoldable pub refusal_of : Option ℕ → Option Text → RefusedAs
refusal_of status code =
    if conflicts "cart_stale" status code
    then is_stale
    else if conflicts "price_changed" status code
    then is_price_changed
    else if conflicts "slot_unavailable" status code
    then is_slot_unavailable
    else if conflicts "ordering_paused" status code
    then is_paused
    else if conflicts "idempotency_key_reused" status code
    then is_key_reused
    else if is_missing status
    then is_gone
    else is_failed

-- `shown` is the total that the order was sent with.
unfoldable pub refuse : Number → Option Json → RefusedAs → CheckoutState → CheckoutState × Next
refuse shown details is_stale s =
    (record (invalidate_key s) { submit = stale (parse_problems details) }, over)
refuse shown details is_price_changed s = (
  record (invalidate_key s) {
    submit = price_changed (number_or_zero (member_of details "total_minor")) shown;
  },
  over,
)
refuse shown details is_slot_unavailable s = (record (invalidate_key s) { slot = [] }, refreshes)
refuse shown details is_paused s = (
  record s {
    submit =
        paused (text_or_null (member_of details "note"))
          (text_or_null (member_of details "resume_at"));
  },
  over,
)
refuse shown details is_key_reused s = (record (invalidate_key s) { submit = key_reused }, over)
refuse shown details is_gone s = (record s { submit = gone }, over)
refuse shown details is_failed s = (record s { submit = failed }, over)

-- Behind the await.
unfoldable pub conclude : Number → PublicApiResult → CheckoutState → CheckoutState × Next
conclude shown (accepted placed) s = (s, leaves placed)
conclude shown (denied status code details) s = refuse shown details (refusal_of status code) s

-- Behind the second await.
unfoldable pub refreshed : PublicApiResult → CheckoutState → CheckoutState
refreshed result s = record (load_slots result s) { submit = slot_unavailable }
