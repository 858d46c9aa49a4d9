-- ===== src/Checkout/Defs.antt =====
-- The checkout form (apps/storefront/components/ordering/CheckoutForm.tsx). A handler is a function
-- on the form's state; `handleSubmit` is two functions, up to its await and behind it, and a third
-- behind the second await of the branch for an unavailable slot.
use restaurant_engine.Prelude.{
  ℕ, ◌+◌, ◌-◌, Bool, true, false, Option, none, some, List, [], ◌∷◌, concat, map, String, get_elem?,
  if◌then◌else◌,
}
use restaurant_engine.Prelude.Int.{pos}
use restaurant_engine.Prelude.Text.{Text}
use restaurant_engine.Js.{Number, int, Json, str, num, arr, to_list, get}
use restaurant_engine.Cart.{Cart, PlacementLine, remove_line, set_line_quantity}
use restaurant_engine.Cart.Totals.{cart_total_minor}
use restaurant_engine.Pages.{PublicApiResult, accepted, denied}

pub data PickupKind : Type 0 where
  asap scheduled : PickupKind

pub record LineProblem : Type 0 where
  pub reason : Text
  pub line_index : Option Number

pub data SubmitState : Type 0 where
  idle submitting : SubmitState
  stale : List LineProblem → SubmitState
  price_changed : Number → Number → SubmitState
  slot_unavailable key_reused : SubmitState
  paused : Option Text → Option Text → SubmitState
  gone failed : SubmitState

pub record CheckoutState : Type 0 where
  pub cart : Option Cart
  pub slots : Option (List Text)
  pub name : Text
  pub phone : Text
  pub email : Text
  pub instructions : Text
  pub pickup_kind : PickupKind
  pub slot : Text
  pub consent_updates : Bool
  pub consent_marketing : Bool
  pub field_errors : List (Text × Text)
  pub submit : SubmitState
  pub idempotency_key : Option Text

pub record OrderPlace : Type 0 where
  pub idempotency_key : Text
  pub lines : List PlacementLine
  pub customer_name : Text
  pub customer_phone : Text
  pub customer_email : Option Text
  pub order_instructions : Option Text
  pub consent_updates : Bool
  pub consent_marketing : Bool
  pub pickup_kind : PickupKind
  pub requested_pickup_at : Option Text
  pub expected_total_minor : Number

-- `typeof reason !== 'string'` drops an entry.
abbrev pub problem_of : Json → List LineProblem
problem_of entry = elim (get "reason" entry) [
  | none ↦ []
  | some reason ↦ elim reason [
    | str text ↦ record { reason = text; line_index = number_of (get "line_index" entry) } ∷ []
    | _ ↦ []
  ]
]
  where
    number_of : Option Json → Option Number
    number_of (some (num n)) = some n
    number_of _ = none

abbrev pub member_of : Option Json → String → Option Json
member_of none k = none
member_of (some details) k = get k details

unfoldable pub parse_problems : Option Json → List LineProblem
parse_problems details = problems (member_of details "problems")
  where
    problems : Option Json → List LineProblem
    problems (some (arr entries)) = concat (map problem_of (to_list entries))
    problems _ = []

abbrev pub default_kind : Bool → PickupKind
default_kind asap_enabled = if asap_enabled then asap else scheduled

-- The `useState` calls.
unfoldable pub mounted : Bool → CheckoutState
mounted asap_enabled = record {
  cart = none;
  slots = none;
  name = [];
  phone = [];
  email = [];
  instructions = [];
  pickup_kind = default_kind asap_enabled;
  slot = [];
  consent_updates = false;
  consent_marketing = false;
  field_errors = [];
  submit = idle;
  idempotency_key = none;
}

abbrev pub texts_of : List Json → List Text
texts_of [] = []
texts_of (str t ∷ vs) = t ∷ texts_of vs
texts_of (v ∷ vs) = texts_of vs

-- `result.ok ? result.data.slots : []`
abbrev pub slots_of : PublicApiResult → List Text
slots_of (accepted data_) = listed (get "slots" data_)
  where
    listed : Option Json → List Text
    listed (some (arr vs)) = texts_of (to_list vs)
    listed _ = []
slots_of (denied status code details) = []

abbrev pub load_slots : PublicApiResult → CheckoutState → CheckoutState
load_slots result s = record s { slots = some (slots_of result) }

abbrev pub invalidate_key : CheckoutState → CheckoutState
invalidate_key s = record s { idempotency_key = none }

-- `current.kind === 'submitting' ? current : { kind: 'idle' }`
abbrev pub unless_submitting : SubmitState → SubmitState
unless_submitting submitting = submitting
unless_submitting _ = idle

-- The state part of `updateCart`; it saves the cart before.
unfoldable pub update_cart : Cart → CheckoutState → CheckoutState
update_cart next s = record (invalidate_key (record s { cart = some next })) {
  submit = unless_submitting s.submit;
}

-- The three buttons of a line.
pub data CartChange : Type 0 where
  decrease increase remove : ℕ → CartChange

abbrev pub quantity_at : ℕ → Cart → Option ℕ
quantity_at i cart = elim (get_elem? cart.lines i) [ none ↦ none | some line ↦ some line.quantity ]

-- `line.quantity - 1` is an integer of JavaScript; a line has at least 1.
unfoldable pub changed : CartChange → Cart → Cart
changed (decrease i) cart = elim (quantity_at i cart) [
  | none ↦ cart
  | some q ↦ set_line_quantity cart i (int (pos (q - 1)))
]
changed (increase i) cart = elim (quantity_at i cart) [
  | none ↦ cart
  | some q ↦ set_line_quantity cart i (int (pos (q + 1)))
]
changed (remove i) cart = remove_line cart i

-- The inputs of the form.
pub data Edit : Type 0 where
  type_name type_phone type_email type_instructions : Text → Edit
  choose_kind : PickupKind → Edit
  choose_slot : Text → Edit
  tick_updates tick_marketing : Bool → Edit

unfoldable pub edit : Edit → CheckoutState → CheckoutState
edit (type_name text) s = invalidate_key (record s { name = text })
edit (type_phone text) s = invalidate_key (record s { phone = text })
edit (type_email text) s = invalidate_key (record s { email = text })
edit (type_instructions text) s = invalidate_key (record s { instructions = text })
edit (choose_kind kind) s = invalidate_key (record s { pickup_kind = kind })
edit (choose_slot instant) s = invalidate_key (record s { slot = instant })
edit (tick_updates checked) s = invalidate_key (record s { consent_updates = checked })
edit (tick_marketing checked) s = invalidate_key (record s { consent_marketing = checked })

abbrev pub display_total_minor : SubmitState → Cart → Number
display_total_minor (price_changed total expected) cart = total
display_total_minor _ cart = int (cart_total_minor cart)

abbrev pub is_submitting : SubmitState → Bool
is_submitting submitting = true
is_submitting _ = false

abbrev pub is_scheduled : PickupKind → Bool
is_scheduled scheduled = true
is_scheduled asap = false
