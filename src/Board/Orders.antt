-- ===== src/Board/Orders.antt =====
-- What the order board asks for and how it reads an order (apps/control-center/src/orders: ordersData.ts,
-- orderFormat.ts, and the tables of OrderDrawer.tsx). An instant is a number of milliseconds; how a text
-- names one (`new Date(iso).getTime()`) is a parameter.
use restaurant_engine.Prelude.{
  ℕ, ◌-◌, ◌/◌, ◌%◌, Bool, true, false, ◌&&◌, Option, none, some, List, [], ◌∷◌, ◌++◌, ltb,
  if◌then◌else◌,
}
use restaurant_engine.Prelude.Text.{Text, codes, text_eq}
use restaurant_engine.Prelude.Decimal.{decimal}
use restaurant_engine.Money.{is_empty}
use restaurant_engine.Api.{ApiFailure}
use restaurant_engine.Client.Orders.{
  OrderCommand, accept, reject, start_preparing, mark_ready, complete, cancel,
}

pub data OrderStatus : Type 0 where
  submitted accepted preparing ready completed rejected cancelled : OrderStatus

-- AdminOrderSummary, as far as `isOverdue` and the list read it.
pub record OrderSummary : Type 0 where
  pub id : Text
  pub order_number : ℕ
  pub status : OrderStatus
  pub placed_at : Text
  pub promised_pickup_at : Text
  pub estimated_ready_at : Option Text

pub record OrderListFilters : Type 0 where
  pub statuses : List OrderStatus
  pub q : Text
  pub day : Text

-- `none` is an absent member.
pub record OrderListParams : Type 0 where
  pub status : Option (List OrderStatus)
  pub q : Option Text
  pub day : Option Text
  pub before_number : Option ℕ

abbrev unless_nil : List OrderStatus → Option (List OrderStatus)
unless_nil [] = none
unless_nil (s ∷ ss) = some (s ∷ ss)

abbrev given : Text → Option Text
given t = if is_empty t then none else some t

unfoldable pub list_params : OrderListFilters → OrderListParams
list_params filters = record {
  status = if is_empty filters.q then unless_nil filters.statuses else none;
  q = given filters.q;
  day = given filters.day;
  before_number = none;
}

-- The request for a page, by `pageParam`.
unfoldable pub page_params : OrderListFilters → Option ℕ → OrderListParams
page_params filters cursor = record (list_params filters) { before_number = cursor }

abbrev pub board_poll_ms : ℕ
board_poll_ms = 10000

-- `refetchInterval`; `none` is false.
unfoldable pub refetch_interval : OrderListFilters → Option ℕ
refetch_interval filters =
    if is_empty filters.day && is_empty filters.q then some board_poll_ms else none

-- The query of `useIncomingOrders`.
unfoldable pub incoming_params : OrderListParams
incoming_params = record {
  status = some (submitted ∷ []);
  q = none;
  day = none;
  before_number = none;
}

-- `isInvalidState`, of what `asApiFailure` returned
unfoldable pub is_invalid_state : ApiFailure → Bool
is_invalid_state failure = elim failure.envelope [
  | none ↦ false
  | some envelope ↦ text_eq envelope.code (codes "invalid_state")
]

abbrev pub is_owed : OrderStatus → Bool
is_owed submitted = true
is_owed accepted = true
is_owed preparing = true
is_owed _ = false

abbrev pub deadline_of : OrderSummary → Text
deadline_of order = elim order.estimated_ready_at [ none ↦ order.promised_pickup_at | some at ↦ at ]

module _ (instant : Text → ℕ) where
  unfoldable pub is_overdue : OrderSummary → ℕ → Bool
  is_overdue order now = is_owed order.status && ltb (instant (deadline_of order)) now

  -- `Math.max(0, …)` of a negative difference is 0, as the subtraction of natural numbers is.
  unfoldable pub order_age : Text → ℕ → Text
  order_age placed_at now =
      let seconds = (now - instant placed_at) / 1000 in
      let minutes = seconds / 60 in
      if ltb seconds 60
      then codes "just now"
      else if ltb minutes 60
      then decimal minutes ++ codes "m"
      else decimal (minutes / 60) ++ codes "h " ++ decimal (minutes % 60) ++ codes "m"

unfoldable pub status_label : OrderStatus → Text
status_label submitted = codes "New"
status_label accepted = codes "Accepted"
status_label preparing = codes "Preparing"
status_label ready = codes "Ready"
status_label completed = codes "Completed"
status_label rejected = codes "Declined"
status_label cancelled = codes "Cancelled"

pub record CommandAction : Type 0 where
  pub command : OrderCommand
  pub label : Text
  pub confirm : Option Text

abbrev direct : OrderCommand → Text → CommandAction
direct command label = record { command = command; label = label; confirm = none }

abbrev confirmed : OrderCommand → Text → Text → CommandAction
confirmed command label text = record { command = command; label = label; confirm = some text }

unfoldable pub legal_commands : OrderStatus → List CommandAction
legal_commands submitted =
    direct accept (codes "Accept")
    ∷ confirmed reject (codes "Decline")
        (codes "Decline this order? The customer sees it immediately.")
    ∷ confirmed cancel (codes "Cancel")
        (codes "Cancel this order for the customer? Use this when they asked you to.")
    ∷ []
legal_commands accepted = direct start_preparing (codes "Start preparing") ∷ []
legal_commands preparing = direct mark_ready (codes "Mark ready") ∷ []
legal_commands ready = direct complete (codes "Complete") ∷ []
legal_commands _ = []

abbrev pub estimate_legal : OrderStatus → Bool
estimate_legal accepted = true
estimate_legal preparing = true
estimate_legal _ = false

-- The drawer: the action that waits for its confirmation, and the commands that were sent, the last
-- one first.
pub record Drawer : Type 0 where
  pub confirming : Option CommandAction
  pub sent : List OrderCommand

abbrev pub drawer_opened : Drawer
drawer_opened = record { confirming = none; sent = [] }

pub data DrawerEvent : Type 0 where
  presses : CommandAction → DrawerEvent
  confirms keeps : DrawerEvent

abbrev pub press_action : CommandAction → Drawer → Drawer
press_action action d = elim action.confirm [
  | none ↦ record d { sent = action.command ∷ d.sent }
  | some text ↦ record d { confirming = some action }
]

-- The buttons of the actions are there while nothing is confirmed, the two others while something is.
unfoldable pub on_drawer : DrawerEvent → Drawer → Drawer
on_drawer (presses action) d = elim d.confirming [ none ↦ press_action action d | some waiting ↦ d ]
on_drawer confirms d = elim d.confirming [
  | none ↦ d
  | some waiting ↦ record { confirming = none; sent = waiting.command ∷ d.sent }
]
on_drawer keeps d = record d { confirming = none }

-- After the events, the last one first.
unfoldable pub drawer_after : List DrawerEvent → Drawer
drawer_after [] = drawer_opened
drawer_after (e ∷ es) = on_drawer e (drawer_after es)
