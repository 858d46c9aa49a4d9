-- ===== src/Checkout/Steps.antt =====
-- The interleavings on the checkout page (apps/storefront/components/ordering/CheckoutForm.tsx):
-- inputs may come while an order is on its way; a press of the button only where it is shown and
-- enabled.
use restaurant_engine.Prelude.{
  Bool, true, false, not, ◌&&◌, Option, none, some, List, [], ◌∷◌, ◌≡◌, ◌≢◌, All,
}
use restaurant_engine.Prelude.Text.{Text}
use restaurant_engine.Session.Steps.{Star}
use restaurant_engine.Cart.{Cart, CartLine}
use restaurant_engine.Cart.Validity.{IsValid}
use restaurant_engine.Pages.{PublicApiResult}
use restaurant_engine.Checkout.Defs.{
  CheckoutState, OrderPlace, Edit, CartChange, mounted, edit, changed, update_cart, load_slots,
  is_submitting,
}
use restaurant_engine.Checkout.Submit.{
  Next, over, leaves, refreshes, handle_submit, conclude, refreshed,
}

-- The order whose answer is awaited, or the second await of its handler.
pub data Phase : Type 0 where
  resting : Phase
  placing : OrderPlace → Phase
  refreshing : Phase
  left : Phase

-- The page, with every order that it has sent, the last one first.
pub record CheckoutPage : Type 0 where
  pub form : CheckoutState
  pub phase : Phase
  pub sent : List OrderPlace

abbrev pub opened : Bool → CheckoutPage
opened asap_enabled = record { form = mounted asap_enabled; phase = resting; sent = [] }

abbrev pub with_form : CheckoutPage → CheckoutState → CheckoutPage
with_form w s = record w { form = s }

abbrev pub is_empty_list : List CartLine → Bool
is_empty_list [] = true
is_empty_list (line ∷ lines) = false

-- The button is on the page, and not disabled.
abbrev pub is_pressable : CheckoutState → Cart → Bool
is_pressable s cart = not (is_empty_list cart.lines) && not (is_submitting s.submit)

abbrev sending : CheckoutPage → CheckoutState × Option OrderPlace → CheckoutPage
sending w (s, none) = record w { form = s }
sending w (s, some order) = record { form = s; phase = placing order; sent = order ∷ w.sent }

unfoldable pub press : Text → Cart → CheckoutPage → CheckoutPage
press uuid cart w = sending w (handle_submit uuid cart w.form)

abbrev next_phase : Next → Phase
next_phase over = resting
next_phase refreshes = refreshing
next_phase (leaves placed) = left

unfoldable pub answer : OrderPlace → PublicApiResult → CheckoutPage → CheckoutPage
answer order result w =
    let (s, next) = conclude order.expected_total_minor result w.form in
    record w { form = s; phase = next_phase next }

unfoldable pub refresh : PublicApiResult → CheckoutPage → CheckoutPage
refresh result w = record w { form = refreshed result w.form; phase = resting }

-- A key that no order was sent with.
abbrev pub IsFresh : Text → List OrderPlace → Type 0
IsFresh uuid sent = All (λ order. order.idempotency_key ≢ uuid) sent

pub data Step (w : CheckoutPage) : CheckoutPage → Type 0 where
  load :
      (cart : Cart)
      → IsValid cart
      → w.form.cart ≡ none
      → Step w (with_form w (record w.form { cart = some cart }))
  list_slots : (result : PublicApiResult) → Step w (with_form w (load_slots result w.form))
  input : (e : Edit) → Step w (with_form w (edit e w.form))
  change :
      (c : CartChange) (cart : Cart)
      → w.form.cart ≡ some cart
      → Step w (with_form w (update_cart (changed c cart) w.form))
  pressed :
      (uuid : Text) (cart : Cart)
      → w.form.cart ≡ some cart
      → is_pressable w.form cart ≡ true
      → IsFresh uuid w.sent
      → Step w (press uuid cart w)
  answered :
      (order : OrderPlace) (result : PublicApiResult)
      → w.phase ≡ placing order
      → Step w (answer order result w)
  refilled : (result : PublicApiResult) → w.phase ≡ refreshing → Step w (refresh result w)

abbrev pub Reach : CheckoutPage → CheckoutPage → Type 0
Reach = Star Step
