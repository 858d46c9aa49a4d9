-- ===== src/Client/Tests.antt =====
-- The client's requests on concrete calls, and the theorems at them.
use restaurant_engine.Prelude.{ℕ, none, some, [], ◌∷◌, ◌≡◌, refl}
use restaurant_engine.Prelude.Text.{codes, starts_with}
use restaurant_engine.Prelude.Splitting.{split}
use restaurant_engine.Js.{null}
use restaurant_engine.Client.Defs.{ApiRequest, answered, Reply}
use restaurant_engine.Client.Orders.{transition, accept}
use restaurant_engine.Client.Calls.{Call, request, orders}
use restaurant_engine.Client.Guards.{IsGuarded, request-IsGuarded}
use restaurant_engine.Client.Scopes.{placeholders}

abbrev accept_order : Call
accept_order = orders (transition accept (codes "b1") (codes "o1") (codes "t"))

accept_order-placeholders :
    placeholders (ApiRequest.template (request accept_order))
    ≡ codes "business_id" ∷ codes "order_id" ∷ []
unfolding request placeholders split starts_with
accept_order-placeholders = refl

request-IsGuarded_example : IsGuarded accept_order
request-IsGuarded_example = request-IsGuarded accept_order

abbrev refused : Reply ℕ
refused = answered none (some null) 409
