-- ===== src/Checkout/Keys.antt =====
-- The idempotency key of the checkout form and the orders that carry it (`idempotencyKey`,
-- `invalidateKey` and `handleSubmit` in apps/storefront/components/ordering/CheckoutForm.tsx).
use restaurant_engine.Prelude.{
  Bool, Option, none, some, List, [], ◌∷◌, ◌≡◌, ◌≢◌, refl, sym, ◌∙◌, ap, subst, ◌⊎◌, inl, inr, All,
  All-weaken, Bool-cases,
}
use restaurant_engine.Prelude.Text.{Text}
use restaurant_engine.Session.Steps.{Star-keeps}
use restaurant_engine.Js.{Number, Json}
use restaurant_engine.Cart.{Cart, PlacementLine}
use restaurant_engine.Pages.{PublicApiResult, accepted, denied}
use restaurant_engine.Checkout.Defs.{
  PickupKind, CheckoutState, OrderPlace, Edit, type_name, edit, update_cart, mounted,
}
use restaurant_engine.Checkout.Submit.{
  payload_of, minted, is_valid, handle_submit, conclude, refreshed, RefusedAs, is_paused, is_gone,
  is_failed, refuse, refusal_of,
}
use restaurant_engine.Checkout.Steps.{
  CheckoutPage, Phase, Step, load, list_slots, input, change, pressed, answered, refilled, Reach,
  IsFresh, opened, press, answer, refresh,
}

-- What a visitor orders: all of an order but its key and the total that it expects.
pub record Content : Type 0 where
  pub lines : List PlacementLine
  pub customer_name : Text
  pub customer_phone : Text
  pub customer_email : Option Text
  pub order_instructions : Option Text
  pub consent_updates : Bool
  pub consent_marketing : Bool
  pub pickup_kind : PickupKind
  pub requested_pickup_at : Option Text

abbrev pub content_of : OrderPlace → Content
content_of order = record {
  lines = order.lines;
  customer_name = order.customer_name;
  customer_phone = order.customer_phone;
  customer_email = order.customer_email;
  order_instructions = order.order_instructions;
  consent_updates = order.consent_updates;
  consent_marketing = order.consent_marketing;
  pickup_kind = order.pickup_kind;
  requested_pickup_at = order.requested_pickup_at;
}

-- The order that the form would send for a cart.
abbrev drafted : CheckoutState → Cart → Content
drafted s cart = content_of (payload_of [] cart s)

abbrev IsDraft : Content → CheckoutState → Option Cart → Type 0
IsDraft c s none = ⊥
IsDraft c s (some cart) = c ≡ drafted s cart

-- The key that the form holds is not this order's, or the form is as it was sent.
abbrev IsHeldFor : CheckoutState → OrderPlace → Type 0
IsHeldFor s order =
    (s.idempotency_key ≢ some order.idempotency_key) ⊎ IsDraft (content_of order) s s.cart

abbrev Agree : OrderPlace → OrderPlace → Type 0
Agree p q = (p.idempotency_key ≢ q.idempotency_key) ⊎ (content_of p ≡ content_of q)

abbrev AllAgree : List OrderPlace → Type 0
AllAgree [] = Unit
AllAgree (p ∷ ps) = All (Agree p) ps × AllAgree ps

record Inv (w : CheckoutPage) : Type 0 where
  agree : AllAgree w.sent
  held : All (IsHeldFor w.form) w.sent
  unloaded : (w.form.cart ≢ none) ⊎ (w.form.idempotency_key ≡ none)

unheld : (s : CheckoutState) (order : OrderPlace) → s.idempotency_key ≡ none → IsHeldFor s order
unheld s order e = inl (λ k. cc)

all_unheld :
    (s : CheckoutState) (sent : List OrderPlace) → s.idempotency_key ≡ none → All (IsHeldFor s) sent
all_unheld s [] e = tt
all_unheld s (p ∷ ps) e = (unheld s p e, all_unheld s ps e)

-- A handler that drops the key, or keeps the key and all that is ordered.
abbrev Keeps : CheckoutState → CheckoutState → Type 0
Keeps s t =
    (t.idempotency_key ≡ none)
    ⊎ ((t.idempotency_key ≡ s.idempotency_key)
        × (t.cart ≡ s.cart)
        × ((cart : Cart) → drafted t cart ≡ drafted s cart))

IsDraft-at :
    (c : Content) (s : CheckoutState) (cart : Cart) (o : Option Cart)
    → o ≡ some cart
    → c ≡ drafted s cart
    → IsDraft c s o
IsDraft-at c s cart o e h = rw e h

draft_at :
    (c : Content) (s : CheckoutState) (cart : Cart) (o : Option Cart)
    → o ≡ some cart
    → IsDraft c s o
    → c ≡ drafted s cart
draft_at c s cart o e h = subst (IsDraft c s) e h

IsDraft-kept :
    (c : Content) (s t : CheckoutState) (o : Option Cart)
    → ((cart : Cart) → drafted t cart ≡ drafted s cart)
    → IsDraft c s o
    → IsDraft c t o
IsDraft-kept c s t (some cart) same h = h ∙ sym (same cart)
IsDraft-kept c s t none same h = h

Keeps-IsHeldFor :
    (s t : CheckoutState) (order : OrderPlace) → Keeps s t → IsHeldFor s order → IsHeldFor t order
Keeps-IsHeldFor s t order (inl dropped) h = unheld t order dropped
Keeps-IsHeldFor s t order (inr (key, cart, same)) (inl other) = inl (λ k. other (sym key ∙ k))
Keeps-IsHeldFor s t order (inr (key, cart, same)) (inr draft) = inr (
    subst (IsDraft (content_of order) t) (sym cart)
      (IsDraft-kept (content_of order) s t s.cart same draft))

Keeps-unloaded :
    (s t : CheckoutState)
    → Keeps s t
    → (s.cart ≢ none) ⊎ (s.idempotency_key ≡ none)
    → (t.cart ≢ none) ⊎ (t.idempotency_key ≡ none)
Keeps-unloaded s t (inl dropped) u = inr dropped
Keeps-unloaded s t (inr (key, cart, same)) (inl loaded) = inl (λ e. loaded (sym cart ∙ e))
Keeps-unloaded s t (inr (key, cart, same)) (inr none_held) = inr (key ∙ none_held)

Keeps-Inv :
    (w : CheckoutPage) (t : CheckoutState) (phase : Phase)
    → Keeps w.form t
    → Inv w
    → Inv (record w { form = t; phase = phase })
Keeps-Inv w t phase k v = record {
  agree = v.agree;
  held = All-weaken (λ order. Keeps-IsHeldFor w.form t order k) w.sent v.held;
  unloaded = Keeps-unloaded w.form t k v.unloaded;
}

refuse-Keeps :
    (shown : Number) (details : Option Json) (r : RefusedAs) (s : CheckoutState)
    → Keeps s (refuse shown details r s).0
unfolding refuse payload_of
refuse-Keeps shown details is_paused s = inr (refl, refl, λ cart. refl)
refuse-Keeps shown details is_gone s = inr (refl, refl, λ cart. refl)
refuse-Keeps shown details is_failed s = inr (refl, refl, λ cart. refl)
refuse-Keeps shown details _ s = inl refl

conclude-Keeps :
    (shown : Number) (r : PublicApiResult) (s : CheckoutState) → Keeps s (conclude shown r s).0
unfolding conclude payload_of
conclude-Keeps shown (accepted placed) s = inr (refl, refl, λ cart. refl)
conclude-Keeps shown (denied status code details) s =
    refuse-Keeps shown details (refusal_of status code) s

minted_other :
    (uuid : Text) (held : Option Text) (key : Text)
    → key ≢ uuid
    → held ≢ some key
    → minted uuid held ≢ key
minted_other uuid none key fresh other = λ e. fresh (sym e)
minted_other uuid (some k) key fresh other = λ e. other (ap some e)

minted-Agree :
    (uuid : Text) (cart : Cart) (s : CheckoutState)
    → s.cart ≡ some cart
    → (q : OrderPlace) → q.idempotency_key ≢ uuid
    → IsHeldFor s q
    → Agree (payload_of (minted uuid s.idempotency_key) cart s) q
unfolding payload_of
minted-Agree uuid cart s loaded q fresh (inr draft) =
    inr (sym (draft_at (content_of q) s cart s.cart loaded draft))
minted-Agree uuid cart s loaded q fresh (inl other) =
    inl (minted_other uuid s.idempotency_key q.idempotency_key fresh other)

all_minted :
    (uuid : Text) (cart : Cart) (s : CheckoutState)
    → s.cart ≡ some cart
    → (sent : List OrderPlace) → IsFresh uuid sent
    → All (IsHeldFor s) sent
    → All (Agree (payload_of (minted uuid s.idempotency_key) cart s)) sent
all_minted uuid cart s loaded [] fresh held = tt
all_minted uuid cart s loaded (q ∷ qs) (f, fs) (h, hs) =
    (minted-Agree uuid cart s loaded q f h, all_minted uuid cart s loaded qs fs hs)

-- An order that agrees with the one just sent is held for, or carries another key.
Agree-IsHeldFor :
    (p : OrderPlace) (s : CheckoutState)
    → s.idempotency_key ≡ some p.idempotency_key
    → IsDraft (content_of p) s s.cart
    → (q : OrderPlace) → Agree p q
    → IsHeldFor s q
Agree-IsHeldFor p s key draft q (inl other) = inl (λ e. other (some_injective (sym key ∙ e)))
  where
    some_injective : {a b : Text} → some a ≡ some b → a ≡ b
    some_injective e = cc
Agree-IsHeldFor p s key draft q (inr same) = inr (subst (λ c. IsDraft c s s.cart) same draft)

loaded-unloaded : (o : Option Cart) (cart : Cart) → o ≡ some cart → o ≢ none
loaded-unloaded o cart e = λ n. cc

sent-Inv :
    (w : CheckoutPage) (p : OrderPlace) (t : CheckoutState) (cart : Cart) (phase : Phase)
    → AllAgree w.sent
    → All (Agree p) w.sent
    → t.idempotency_key ≡ some p.idempotency_key
    → t.cart ≡ some cart
    → content_of p ≡ drafted t cart
    → Inv (record { form = t; phase = phase; sent = p ∷ w.sent })
sent-Inv w p t cart phase agree new key loaded draft =
    let drafts = IsDraft-at (content_of p) t cart t.cart loaded draft in
    record {
      agree = (new, agree);
      held = (inr drafts, All-weaken (Agree-IsHeldFor p t key drafts) w.sent new);
      unloaded = inl (loaded-unloaded t.cart cart loaded);
    }

press-Inv :
    (w : CheckoutPage) (uuid : Text) (cart : Cart)
    → w.form.cart ≡ some cart
    → IsFresh uuid w.sent
    → Inv w
    → Inv (press uuid cart w)
unfolding press handle_submit payload_of
press-Inv w uuid cart loaded fresh v = elim (Bool-cases (is_valid w.form)) [
  | inr invalid ↦ rw (invalid, press) (Keeps-Inv w _ w.phase (inr (refl, refl, λ cart. refl)) v)
  | inl valid ↦
      rw (valid, press)
        (sent-Inv w _ _ cart _ v.agree (all_minted uuid cart w.form loaded w.sent fresh v.held) refl
          loaded refl)
]

edit-unkeyed : (e : Edit) (s : CheckoutState) → (edit e s).idempotency_key ≡ none
unfolding edit
edit-unkeyed (type_name t) s = refl
edit-unkeyed _ s = refl

unloaded_key :
    (s : CheckoutState)
    → s.cart ≡ none
    → (s.cart ≢ none) ⊎ (s.idempotency_key ≡ none)
    → s.idempotency_key ≡ none
unloaded_key s e (inl loaded) = absurd (loaded e)
unloaded_key s e (inr key) = key

Step-Inv : (w w' : CheckoutPage) → Step w w' → Inv w → Inv w'
unfolding payload_of refresh answer update_cart
Step-Inv w w' (load cart valid e) v =
    Keeps-Inv w _ w.phase (inl (unloaded_key w.form e v.unloaded)) v
Step-Inv w w' (list_slots r) v = Keeps-Inv w _ w.phase (inr (refl, refl, λ cart. refl)) v
Step-Inv w w' (input e) v = Keeps-Inv w _ w.phase (inl (edit-unkeyed e w.form)) v
Step-Inv w w' (change c cart e) v = Keeps-Inv w _ w.phase (inl refl) v
Step-Inv w w' (pressed uuid cart e shown fresh) v = press-Inv w uuid cart e fresh v
Step-Inv w w' (answered order r e) v =
    Keeps-Inv w _ _ (conclude-Keeps order.expected_total_minor r w.form) v
Step-Inv w w' (refilled r e) v =
    unfold refreshed in Keeps-Inv w _ _ (inr (refl, refl, λ cart. refl)) v

opened-Inv : (asap_enabled : Bool) → Inv (opened asap_enabled)
opened-Inv asap_enabled = unfold mounted in record { agree = tt; held = tt; unloaded = inr refl }

-- One of the orders that were sent.
abbrev pub IsSent : OrderPlace → List OrderPlace → Type 0
IsSent p [] = ⊥
IsSent p (q ∷ qs) = (p ≡ q) ⊎ IsSent p qs

All-IsSent :
    (P : OrderPlace → Type 0) (p : OrderPlace) (qs : List OrderPlace) → All P qs → IsSent p qs → P p
All-IsSent P p (q ∷ qs) (h, hs) (inl e) = subst P (sym e) h
All-IsSent P p (q ∷ qs) (h, hs) (inr m) = All-IsSent P p qs hs m
All-IsSent P p [] h m = absurd m

Agree-content :
    (p q : OrderPlace)
    → Agree p q
    → p.idempotency_key ≡ q.idempotency_key
    → content_of p ≡ content_of q
Agree-content p q (inl other) e = absurd (other e)
Agree-content p q (inr same) e = same

AllAgree-content :
    (sent : List OrderPlace)
    → AllAgree sent
    → (p q : OrderPlace) → IsSent p sent
    → IsSent q sent
    → p.idempotency_key ≡ q.idempotency_key
    → content_of p ≡ content_of q
AllAgree-content (o ∷ os) (a, as_) p q (inl e) (inl f) k = ap content_of (e ∙ sym f)
AllAgree-content (o ∷ os) (a, as_) p q (inl e) (inr n) k =
    ap content_of e
    ∙ Agree-content o q (All-IsSent (Agree o) q os a n)
        (subst (λ x. x.idempotency_key ≡ q.idempotency_key) e k)
AllAgree-content (o ∷ os) (a, as_) p q (inr m) (inl f) k = sym (
    ap content_of f
    ∙ Agree-content o p (All-IsSent (Agree o) p os a m)
        (subst (λ x. x.idempotency_key ≡ p.idempotency_key) f (sym k)))
AllAgree-content (o ∷ os) (a, as_) p q (inr m) (inr n) k = AllAgree-content os as_ p q m n k
AllAgree-content [] h p q m n k = absurd m

-- However inputs, presses of the button and answers interleave, when every minted key is new, any two
-- orders that the page has sent with one key are for the same lines, contact, consents and pickup
-- (the total that they expect aside).
pub Reach-content_of :
    (asap_enabled : Bool) (w : CheckoutPage)
    → Reach (opened asap_enabled) w
    → (p q : OrderPlace) → IsSent p w.sent
    → IsSent q w.sent
    → p.idempotency_key ≡ q.idempotency_key
    → content_of p ≡ content_of q
Reach-content_of b w r p q m n k =
    AllAgree-content w.sent (Star-keeps Inv Step-Inv (opened b) w r (opened-Inv b)).agree p q m n k
