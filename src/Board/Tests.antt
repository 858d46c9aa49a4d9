-- ===== src/Board/Tests.antt =====
-- Runs of the order board on concrete input, and the theorems at them.
use restaurant_engine.Prelude.{
  ℕ, ◌+◌, ◌≤◌, Bool, true, false, ◌||◌, none, some, List, [], ◌∷◌, ◌≡◌, refl, length, any, inl, inr,
}
use restaurant_engine.Prelude.Sets.{has, add}
use restaurant_engine.Prelude.Text.{Text, codes, text_eq}
use restaurant_engine.Prelude.Decimal.{decimal}
use restaurant_engine.Client.Orders.{reject}
use restaurant_engine.Board.Orders.{
  submitted, ready, OrderSummary, OrderListParams, CommandAction, legal_commands, list_params,
  refetch_interval, is_overdue, order_age, DrawerEvent, presses, confirms, keeps, drawer_after,
  on_drawer,
}
use restaurant_engine.Board.Page.{BoardState, board_opened, filters_of, statuses_of, watch_answered}
use restaurant_engine.Board.Alerts.{AreUnique, watch_all, watch_all-announces}
use restaurant_engine.Board.Confirming.{consequential, confirmations, drawer_after-confirmed}

abbrev first_ids : List Text
first_ids = codes "a" ∷ []

abbrev later_ids : List (List Text)
later_ids = (codes "b" ∷ codes "a" ∷ []) ∷ (codes "c" ∷ codes "b" ∷ []) ∷ []

abbrev watching : BoardState
watching = record board_opened { seen_submitted = some first_ids }

watch_run :
    ((watch_answered first_ids board_opened).new_arrivals ≡ 0)
    × ((watch_answered first_ids board_opened).seen_submitted ≡ some first_ids)
    × ((watch_all later_ids watching).new_arrivals ≡ 2)
unfolding watch_answered add text_eq
watch_run = (refl, refl, refl)

watch_all-announces_example :
    (after : List Text) × ((watch_all later_ids watching).seen_submitted ≡ some after)
    × AreUnique after
    × (has (codes "c") after ≡ (has (codes "c") first_ids || any (has (codes "c")) later_ids))
    × ((watch_all later_ids watching).new_arrivals + length first_ids
        ≡ watching.new_arrivals + length after)
unfolding text_eq
watch_all-announces_example =
    watch_all-announces later_ids first_ids watching (codes "c") refl (refl, tt)
      ((refl, (refl, tt)), ((refl, (refl, tt)), tt))

abbrev late_order : OrderSummary
late_order = record {
  id = codes "o1";
  order_number = 7;
  status = submitted;
  placed_at = codes "p";
  promised_pickup_at = codes "q";
  estimated_ready_at = none;
}

abbrev instant : Text → ℕ
instant t = if_placed (text_eq t (codes "p"))
  where
    if_placed : Bool → ℕ
    if_placed true = 0
    if_placed false = 3600000

order_run :
    (is_overdue instant late_order 3600001 ≡ true)
    × (is_overdue instant (record late_order { status = ready }) 3600001 ≡ false)
    × (order_age instant late_order.placed_at 59999 ≡ codes "just now")
    × (order_age instant late_order.placed_at 300000 ≡ codes "5m")
    × (order_age instant late_order.placed_at 4320000 ≡ codes "1h 12m")
unfolding is_overdue order_age decimal text_eq
order_run = (refl, refl, refl, refl, refl)

filter_run :
    (refetch_interval (filters_of board_opened) ≡ some 10000)
    × (OrderListParams.status (list_params (filters_of board_opened))
        ≡ some (statuses_of (BoardState.filter_key board_opened)))
    × (OrderListParams.status (list_params (record (filters_of board_opened) { q = codes "ana" }))
        ≡ none)
unfolding refetch_interval filters_of list_params statuses_of
filter_run = (refl, refl, refl)

abbrev decline : CommandAction
decline = record {
  command = reject;
  label = codes "Decline";
  confirm = some (codes "Decline this order? The customer sees it immediately.");
}

abbrev clicks : List DrawerEvent
clicks = confirms ∷ presses decline ∷ keeps ∷ presses decline ∷ []

drawer_run : consequential (drawer_after clicks).sent ≡ 1
unfolding drawer_after on_drawer
drawer_run = refl

drawer_after-confirmed_example : consequential (drawer_after clicks).sent ≤ confirmations clicks
unfolding legal_commands
drawer_after-confirmed_example =
    drawer_after-confirmed clicks
      (tt, ((submitted, inr (inl refl)), (tt, ((submitted, inr (inl refl)), tt))))
