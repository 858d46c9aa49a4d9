-- ===== src/Checkout/Tests.antt =====
-- Runs of the checkout form on concrete input, and the theorems at them.
use restaurant_engine.Prelude.{
  true, false, ap, sym, ◌∙◌, inr, none, some, [], ◌∷◌, ◌≡◌, ◌≢◌, refl, arith, All, inl,
}
use restaurant_engine.Prelude.Int.{pos, ◌+ℤ◌, ◌*ℤ◌}
use restaurant_engine.Prelude.Text.{Text, codes, text_eq}
use restaurant_engine.Session.Steps.{here, next}
use restaurant_engine.Js.{num, int, obj, field, end, js_add, js_mul, round}
use restaurant_engine.Money.{trim}
use restaurant_engine.Cart.{Cart, to_placement_lines}
use restaurant_engine.Cart.Totals.{cart_total_minor, line_total_minor}
use restaurant_engine.Cart.Validity.{IsValid}
use restaurant_engine.Pages.{PublicApiResult, denied}
use restaurant_engine.Checkout.Defs.{OrderPlace, failed, type_name, type_phone, edit, mounted}
use restaurant_engine.Checkout.Submit.{handle_submit, payload_of, conclude, refuse, refusal_of}
use restaurant_engine.Checkout.Steps.{
  CheckoutPage, Reach, opened, with_form, press, answer, load, input, pressed, answered,
}
use restaurant_engine.Checkout.Keys.{IsSent, content_of, IsSent, Reach-content_of}
use restaurant_engine.Checkout.Placing.{IsPlaceable, Reach-IsPlaceable}
use restaurant_engine.Checkout.Retry.{handle_submit-conclude}

abbrev basket : Cart
basket = record {
  lines =
      record {
        item_id = codes "i1";
        name = codes "Soup";
        base_price_minor = pos 500;
        quantity = 2;
        item_instructions = none;
        options = [];
      }
      ∷ [];
}

basket-IsValid : IsValid basket
basket-IsValid = record {
  lines_capped = omega arith;
  lines_valid = (
    record {
      price_safe = omega arith;
      price_nonneg = refl;
      some_quantity = omega arith;
      quantity_capped = omega arith;
      deltas_safe = tt;
    },
    tt,
  );
}

abbrev with_basket : CheckoutPage
with_basket = with_form (opened true) (record (opened true).form { cart = some basket })

abbrev named : CheckoutPage
named = with_form with_basket (edit (type_name (codes " Ana ")) with_basket.form)

abbrev ready : CheckoutPage
ready = with_form named (edit (type_phone (codes "123")) named.form)

abbrev key : Text
key = codes "k1"

abbrev first : OrderPlace
first = payload_of key basket ready.form

abbrev once : CheckoutPage
once = press key basket ready

abbrev lost : CheckoutPage
lost = answer first (denied none none none) once

abbrev twice : CheckoutPage
twice = press (codes "k2") basket lost

runs :
    (twice.sent ≡ first ∷ first ∷ [])
    × (lost.form.submit ≡ failed)
    × (first.customer_name ≡ codes "Ana")
    × (first.expected_total_minor ≡ int (pos 1000))
unfolding edit mounted handle_submit payload_of conclude refuse refusal_of press answer
    to_placement_lines trim cart_total_minor line_total_minor js_add js_mul round ◌+ℤ◌ ◌*ℤ◌
runs = (refl, refl, refl, refl)

different : codes "k1" ≢ codes "k2"
unfolding text_eq
different = λ e. true_false (ap (text_eq (codes "k1")) e)
  where
    true_false : true ≡ false → ⊥
    true_false e = cc

once-Reach : Reach (opened true) once
unfolding runs
once-Reach =
    next
      (next (next (next here (load basket basket-IsValid refl)) (input (type_name (codes " Ana "))))
        (input (type_phone (codes "123"))))
      (pressed key basket refl refl tt)

twice-Reach : Reach (opened true) twice
unfolding runs
twice-Reach =
    next (next once-Reach (answered first (denied none none none) refl))
      (pressed (codes "k2") basket refl refl (different, tt))

Reach-IsPlaceable_example : All IsPlaceable twice.sent
Reach-IsPlaceable_example = Reach-IsPlaceable true twice twice-Reach

handle_submit-conclude_example :
    (handle_submit
      (codes "k2")
      basket
      (conclude first.expected_total_minor
        (denied none none none)
        (handle_submit key basket ready.form).0).0).1
    ≡ some first
handle_submit-conclude_example =
    handle_submit-conclude key (codes "k2") basket ready.form first none none none
      (unfold runs in refl) (unfold runs in refl) (unfold runs in refl)

-- After a changed price is accepted and the answer to the new order is lost, the page shows the old
-- total again: a third press sends another order with the key of the second.
abbrev price_answer : PublicApiResult
price_answer =
    denied (some 409) (some (codes "price_changed"))
      (some (obj (field "total_minor" (num (int (pos 1200))) end)))

abbrev repriced : CheckoutPage
repriced = press (codes "k2") basket (answer first price_answer once)

abbrev second : OrderPlace
second = record (payload_of (codes "k2") basket ready.form) {
  expected_total_minor = int (pos 1200);
}

abbrev again : CheckoutPage
again = press (codes "k3") basket (answer second (denied none none none) repriced)

divergence :
    again.sent ≡ record second { expected_total_minor = int (pos 1000) } ∷ second ∷ first ∷ []
unfolding runs text_eq
divergence = refl

abbrev third : OrderPlace
third = record second { expected_total_minor = int (pos 1000) }

not_third : (k : Text) → text_eq (codes "k3") k ≡ false → k ≢ codes "k3"
unfolding text_eq
not_third k h = λ e. true_false (sym (ap (text_eq (codes "k3")) e) ∙ h)
  where
    true_false : true ≡ false → ⊥
    true_false e = cc

again-Reach : Reach (opened true) again
unfolding runs text_eq
again-Reach =
    next
      (next
        (next (next once-Reach (answered first price_answer refl))
          (pressed (codes "k2") basket refl refl (different, tt)))
        (answered second (denied none none none) refl))
      (pressed (codes "k3") basket refl refl (not_third _ refl, (not_third _ refl, tt)))

third-IsSent : IsSent third again.sent
unfolding runs text_eq
third-IsSent = inl refl

second-IsSent : IsSent second again.sent
unfolding runs text_eq
second-IsSent = inr (inl refl)

Reach-content_of_example : content_of third ≡ content_of second
Reach-content_of_example =
    Reach-content_of true again again-Reach third second third-IsSent second-IsSent refl
