-- ===== src/Checkout/Placing.antt =====
-- The orders that the checkout form sends (`validate` and the payload of `handleSubmit` in
-- apps/storefront/components/ordering/CheckoutForm.tsx).
use restaurant_engine.Prelude.{
  ◌≤◌, Bool, true, false, not, ◌&&◌, Option, none, some, List, [], ◌∷◌, ◌++◌, map, String, ◌≡◌, ◌≢◌,
  refl, subst, sym, arith, length, length-map, All, Bool-cases, Option-cases, &&-parts, inl, inr,
  if◌then◌else◌,
}
use restaurant_engine.Prelude.Text.{Text}
use restaurant_engine.Session.Steps.{Star-keeps}
use restaurant_engine.Js.{Number, Json}
use restaurant_engine.Money.{trim, is_empty}
use restaurant_engine.Cart.{
  Cart, CartLine, PlacementLine, placement_line, to_placement_lines, max_cart_lines,
  max_line_quantity,
}
use restaurant_engine.Cart.Validity.{IsValid, IsValidLine}
use restaurant_engine.Cart.Lines.{remove_line-IsValid, set_line_quantity-IsValid}
use restaurant_engine.Pages.{PublicApiResult, accepted, denied}
use restaurant_engine.Checkout.Defs.{
  PickupKind, asap, scheduled, CheckoutState, OrderPlace, Edit, type_name, edit, CartChange,
  decrease, increase, remove, quantity_at, changed, update_cart, is_scheduled, mounted,
}
use restaurant_engine.Checkout.Submit.{
  error_if, has_no_keys, payload_of, text_or_none, is_valid, handle_submit, RefusedAs, is_stale,
  refuse, refusal_of, conclude, refreshed,
}
use restaurant_engine.Checkout.Steps.{
  CheckoutPage, Phase, Step, load, list_slots, input, change, pressed, answered, refilled, Reach,
  opened, is_empty_list, is_pressable, press, answer, refresh,
}

abbrev pub IsPickup : PickupKind → Option Text → Type 0
IsPickup asap none = Unit
IsPickup asap (some instant) = ⊥
IsPickup scheduled none = ⊥
IsPickup scheduled (some instant) = instant ≢ []

abbrev pub IsCounted : PlacementLine → Type 0
IsCounted line = (1 ≤ line.quantity) × (line.quantity ≤ max_line_quantity)

pub record IsPlaceable (order : OrderPlace) : Type 0 where
  pub name_given : order.customer_name ≢ []
  pub phone_given : order.customer_phone ≢ []
  pub email_given_or_null : order.customer_email ≢ some []
  pub instructions_given_or_null : order.order_instructions ≢ some []
  pub pickup_chosen : IsPickup order.pickup_kind order.requested_pickup_at
  pub has_lines : 1 ≤ length order.lines
  pub lines_capped : length order.lines ≤ max_cart_lines
  pub lines_counted : All IsCounted order.lines

full : (t : Text) → is_empty t ≡ false → t ≢ []
full (c ∷ t) h = λ e. cc
full [] h = cc

text_or_none-full : (t : Text) → text_or_none t ≢ some []
text_or_none-full [] = λ e. cc
text_or_none-full (c ∷ t) = λ e. cc

no_errors :
    (b c d : Bool) (k l m n o p : String)
    → has_no_keys (error_if b k l ++ error_if c m n ++ error_if d o p) ≡ true
    → (b ≡ false) × (c ≡ false) × (d ≡ false)
no_errors false false false k l m n o p h = (refl, refl, refl)
no_errors true c d k l m n o p h = cc
no_errors false true d k l m n o p h = cc
no_errors false false true k l m n o p h = cc

chosen :
    (kind : PickupKind) (slot : Text)
    → (is_scheduled kind && is_empty slot) ≡ false
    → IsPickup kind (if is_scheduled kind then some slot else none)
chosen asap slot h = tt
chosen scheduled slot h = full slot h

counted : (lines : List CartLine) → All IsValidLine lines → All IsCounted (map placement_line lines)
counted [] v = tt
counted (line ∷ lines) (v, vs) = ((v.some_quantity, v.quantity_capped), counted lines vs)

some_line :
    (lines : List CartLine)
    → not (is_empty_list lines) ≡ true
    → 1 ≤ length (map placement_line lines)
some_line [] h = cc
some_line (line ∷ lines) h = omega arith

payload_of-IsPlaceable :
    (key : Text) (cart : Cart) (s : CheckoutState)
    → IsValid cart
    → not (is_empty_list cart.lines) ≡ true
    → is_valid s ≡ true
    → IsPlaceable (payload_of key cart s)
unfolding payload_of to_placement_lines
payload_of-IsPlaceable key cart s v nonempty valid =
    let (name, phone, slot) =
      no_errors (is_empty (trim s.name)) (is_empty (trim s.phone))
        (is_scheduled s.pickup_kind && is_empty s.slot) "name" "Enter a name for the order." "phone"
        "Enter a phone number so the restaurant can reach you." "slot" "Choose a pickup time."
        valid in
    record {
      name_given = full (trim s.name) name;
      phone_given = full (trim s.phone) phone;
      email_given_or_null = text_or_none-full (trim s.email);
      instructions_given_or_null = text_or_none-full (trim s.instructions);
      pickup_chosen = chosen s.pickup_kind s.slot slot;
      has_lines = some_line cart.lines nonempty;
      lines_capped = rw (length-map placement_line cart.lines) v.lines_capped;
      lines_counted = counted cart.lines v.lines_valid;
    }

abbrev Fits : Option Cart → Type 0
Fits none = Unit
Fits (some cart) = IsValid cart

record Inv (w : CheckoutPage) : Type 0 where
  fits : Fits w.form.cart
  placeable : All IsPlaceable w.sent

changed-IsValid : (c : CartChange) (cart : Cart) → IsValid cart → IsValid (changed c cart)
unfolding changed
changed-IsValid (remove i) cart v = remove_line-IsValid cart i v
changed-IsValid (decrease i) cart v = elim (Option-cases (quantity_at i cart)) [
  | inl e ↦ rw (e, changed) v
  | inr (q, e) ↦ rw (e, changed) (set_line_quantity-IsValid cart i _ v)
]
changed-IsValid (increase i) cart v = elim (Option-cases (quantity_at i cart)) [
  | inl e ↦ rw (e, changed) v
  | inr (q, e) ↦ rw (e, changed) (set_line_quantity-IsValid cart i _ v)
]

edit-cart : (e : Edit) (s : CheckoutState) → (edit e s).cart ≡ s.cart
unfolding edit
edit-cart (type_name t) s = refl
edit-cart _ s = refl

refuse-cart :
    (shown : Number) (details : Option Json) (r : RefusedAs) (s : CheckoutState)
    → (refuse shown details r s).0.cart ≡ s.cart
unfolding refuse
refuse-cart shown details is_stale s = refl
refuse-cart shown details _ s = refl

conclude-cart :
    (shown : Number) (r : PublicApiResult) (s : CheckoutState)
    → (conclude shown r s).0.cart ≡ s.cart
unfolding conclude
conclude-cart shown (accepted placed) s = refl
conclude-cart shown (denied status code details) s =
    refuse-cart shown details (refusal_of status code) s

same_cart-Inv :
    (w : CheckoutPage) (t : CheckoutState) (phase : Phase)
    → t.cart ≡ w.form.cart
    → Inv w
    → Inv (record w { form = t; phase = phase })
same_cart-Inv w t phase e v = record { fits = subst Fits (sym e) v.fits; placeable = v.placeable }

press-Inv :
    (w : CheckoutPage) (uuid : Text) (cart : Cart)
    → w.form.cart ≡ some cart
    → is_pressable w.form cart ≡ true
    → Inv w
    → Inv (press uuid cart w)
unfolding press handle_submit
press-Inv w uuid cart loaded shown v = elim (Bool-cases (is_valid w.form)) [
  | inr invalid ↦ rw (invalid, press) (same_cart-Inv w _ w.phase refl v)
  | inl valid ↦
      let fits : IsValid cart = subst Fits loaded v.fits in
      rw (valid, press)
        (record {
          fits = v.fits;
          placeable =
              (payload_of-IsPlaceable _ cart w.form fits (&&-parts _ _ shown).0 valid, v.placeable);
        })
]

Step-Inv : (w w' : CheckoutPage) → Step w w' → Inv w → Inv w'
unfolding refresh answer update_cart refreshed
Step-Inv w w' (load cart valid e) v = record { fits = valid; placeable = v.placeable }
Step-Inv w w' (list_slots r) v = same_cart-Inv w _ w.phase refl v
Step-Inv w w' (input e) v = same_cart-Inv w _ w.phase (edit-cart e w.form) v
Step-Inv w w' (change c cart e) v = record {
  fits = changed-IsValid c cart (subst Fits e v.fits);
  placeable = v.placeable;
}
Step-Inv w w' (pressed uuid cart e shown fresh) v = press-Inv w uuid cart e shown v
Step-Inv w w' (answered order r e) v =
    same_cart-Inv w _ _ (conclude-cart order.expected_total_minor r w.form) v
Step-Inv w w' (refilled r e) v = same_cart-Inv w _ _ refl v

opened-Inv : (asap_enabled : Bool) → Inv (opened asap_enabled)
opened-Inv asap_enabled = unfold mounted in record { fits = tt; placeable = tt }

-- However inputs, presses of the button and answers interleave, when the stored cart was read within
-- the contract's bounds, every order that the page sends names a customer and a phone, has a pickup
-- instant exactly if it is scheduled, no empty email or instructions, and 1 to 30 lines of 1 to 50.
pub Reach-IsPlaceable :
    (asap_enabled : Bool) (w : CheckoutPage)
    → Reach (opened asap_enabled) w
    → All IsPlaceable w.sent
Reach-IsPlaceable b w r = (Star-keeps Inv Step-Inv (opened b) w r (opened-Inv b)).placeable
