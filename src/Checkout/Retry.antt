-- ===== src/Checkout/Retry.antt =====
-- Two presses of the button and the refusal between them (`handleSubmit` in
-- apps/storefront/components/ordering/CheckoutForm.tsx).
use restaurant_engine.Prelude.{ℕ, Bool, true, false, Option, some, ◌≡◌, refl, sym, ◌∙◌, ap}
use restaurant_engine.Prelude.Text.{Text}
use restaurant_engine.Js.{Number, Json}
use restaurant_engine.Cart.{Cart}
use restaurant_engine.Pages.{denied}
use restaurant_engine.Checkout.Defs.{
  CheckoutState, OrderPlace, SubmitState, idle, display_total_minor,
}
use restaurant_engine.Checkout.Submit.{
  payload_of, minted, is_valid, handle_submit, submit_if, RefusedAs, is_stale, is_paused, is_gone,
  is_failed, is_price_changed, is_slot_unavailable, is_key_reused, refuse, refusal_of, conclude,
}

-- The refusals after which the order may exist, or may be placed later: the page keeps its key.
abbrev pub is_open : RefusedAs → Bool
is_open is_paused = true
is_open is_gone = true
is_open is_failed = true
is_open _ = false

sent_if :
    (b : Bool) (uuid : Text) (cart : Cart) (s : CheckoutState) (order : OrderPlace)
    → (submit_if b uuid cart s).1 ≡ some order
    → (b ≡ true) × (payload_of (minted uuid s.idempotency_key) cart s ≡ order)
sent_if true uuid cart s order e = (refl, some_injective e)
  where
    some_injective : {a b : OrderPlace} → some a ≡ some b → a ≡ b
    some_injective h = cc
sent_if false uuid cart s order e = cc

-- The state behind the refusal: the form as it was submitted, with the message of the refusal.
refuse_open :
    (shown : Number) (details : Option Json) (r : RefusedAs) (s : CheckoutState)
    → is_open r ≡ true
    → (m : SubmitState) × ((refuse shown details r s).0 ≡ record s { submit = m })
      × ((cart : Cart) → display_total_minor m cart ≡ display_total_minor idle cart)
unfolding refuse
refuse_open shown details is_paused s h = (_, refl, λ cart. refl)
refuse_open shown details is_gone s h = (_, refl, λ cart. refl)
refuse_open shown details is_failed s h = (_, refl, λ cart. refl)
refuse_open shown details is_stale s h = cc
refuse_open shown details is_price_changed s h = cc
refuse_open shown details is_slot_unavailable s h = cc
refuse_open shown details is_key_reused s h = cc

resent :
    (uuid uuid' : Text) (cart : Cart) (s : CheckoutState) (m : SubmitState)
    → is_valid s ≡ true
    → display_total_minor m cart ≡ display_total_minor s.submit cart
    → (handle_submit uuid' cart (record (submit_if true uuid cart s).0 { submit = m })).1
      ≡ some (payload_of (minted uuid s.idempotency_key) cart s)
unfolding handle_submit payload_of
resent uuid uuid' cart s m valid total = rw valid (
    ap
      (λ n.
        some
          (record (payload_of (minted uuid s.idempotency_key) cart s) { expected_total_minor = n }))
      total)

handle_submit_valid :
    (uuid : Text) (cart : Cart) (s : CheckoutState)
    → is_valid s ≡ true
    → handle_submit uuid cart s ≡ submit_if true uuid cart s
unfolding handle_submit
handle_submit_valid uuid cart s valid = rw valid refl

-- When an order was sent for the cart's own total and is refused because ordering is paused, with a
-- 404, or with no or an unknown answer, a second press without an edit sends that same order, its key
-- and total included.
pub handle_submit-conclude :
    (uuid uuid' : Text) (cart : Cart) (s : CheckoutState) (order : OrderPlace) (status : Option ℕ)
    (code : Option Text) (details : Option Json)
    → (handle_submit uuid cart s).1 ≡ some order
    → display_total_minor s.submit cart ≡ display_total_minor idle cart
    → is_open (refusal_of status code) ≡ true
    → (handle_submit uuid' cart
        (conclude order.expected_total_minor
          (denied status code details)
          (handle_submit uuid cart s).0).0).1
      ≡ some order
unfolding conclude
handle_submit-conclude uuid uuid' cart s order status code details sent total open_ =
    let (valid, same) = sent_if (is_valid s) uuid cart s order (unfold handle_submit in sent) in
    let (m, e, d) =
      refuse_open order.expected_total_minor details (refusal_of status code)
        (submit_if true uuid cart s).0 open_ in
    rw (handle_submit_valid uuid cart s valid, e)
      (resent uuid uuid' cart s m valid (d cart ∙ sym total) ∙ ap some same)
