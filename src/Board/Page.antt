-- ===== src/Board/Page.antt =====
-- The state of the order board (apps/control-center/src/orders/OrdersPage.tsx). The chime is left
-- out.
use restaurant_engine.Prelude.{
  ℕ, ◌+◌, Bool, true, false, not, Option, none, some, List, [], ◌∷◌, keep_if, length, if◌then◌else◌,
}
use restaurant_engine.Prelude.Sets.{has, add}
use restaurant_engine.Prelude.Text.{Text}
use restaurant_engine.Money.{trim, is_empty}
use restaurant_engine.Board.Orders.{
  OrderStatus, submitted, accepted, preparing, ready, completed, rejected, cancelled,
  OrderListFilters,
}

pub data FilterKey : Type 0 where
  active new accepted_orders preparing_orders ready_orders finished : FilterKey

-- The statuses of a chip; the keys of FILTERS are active, new, accepted, preparing, ready, finished.
unfoldable pub statuses_of : FilterKey → List OrderStatus
statuses_of active = submitted ∷ accepted ∷ preparing ∷ ready ∷ []
statuses_of new = submitted ∷ []
statuses_of accepted_orders = accepted ∷ []
statuses_of preparing_orders = preparing ∷ []
statuses_of ready_orders = ready ∷ []
statuses_of finished = completed ∷ rejected ∷ cancelled ∷ []

pub record BoardState : Type 0 where
  pub filter_key : FilterKey
  pub search : Text
  pub query : Text
  pub day : Text
  pub open_order_id : Option Text
  pub new_arrivals : ℕ
  pub pause_dialog_open : Bool
  pub pause_note : Text
  pub pause_resume : Text
  pub pause_failure : Option Text
  pub seen_submitted : Option (List Text)

abbrev pub board_opened : BoardState
board_opened = record {
  filter_key = active;
  search = [];
  query = [];
  day = [];
  open_order_id = none;
  new_arrivals = 0;
  pause_dialog_open = false;
  pause_note = [];
  pause_resume = [];
  pause_failure = none;
  seen_submitted = none;
}

unfoldable pub filters_of : BoardState → OrderListFilters
filters_of s = record { statuses = statuses_of s.filter_key; q = s.query; day = s.day }

abbrev pub add_all : List Text → List Text → List Text
add_all [] seen = seen
add_all (id ∷ ids) seen = add_all ids (add id seen)

abbrev pub unseen_of : List Text → List Text → List Text
unseen_of ids seen = keep_if (λ id. not (has id seen)) ids

abbrev diff_against : List Text → Option (List Text) → BoardState → BoardState
diff_against ids none s = record s { seen_submitted = some (add_all ids []) }
diff_against ids (some seen) s = record s {
  new_arrivals = s.new_arrivals + length (unseen_of ids seen);
  seen_submitted = some (add_all (unseen_of ids seen) seen);
}

-- The effect on an answer of the watch for new orders, by the ids of its orders.
unfoldable pub watch_answered : List Text → BoardState → BoardState
watch_answered ids s = diff_against ids s.seen_submitted s

-- The body of the pause command. `resume_at` is a number of minutes from now.
pub record PauseSet : Type 0 where
  pub paused : Bool
  pub note : Option Text
  pub resume_in : Option Text

abbrev given : Text → Option Text
given t = if is_empty t then none else some t

unfoldable pub pause_body : BoardState → PauseSet
pause_body s = record {
  paused = true;
  note = given (trim s.pause_note);
  resume_in = given s.pause_resume;
}

-- The handlers. The search settles 300 ms after the last key.
pub data BoardEvent : Type 0 where
  filters : FilterKey → BoardEvent
  searches : Text → BoardEvent
  settles : BoardEvent
  dates : Text → BoardEvent
  back_to_live shows_new : BoardEvent
  watches : List Text → BoardEvent
  opens : Text → BoardEvent
  closes asks_pause cancels_pause submits_pause paused : BoardEvent
  notes resumes pause_fails : Text → BoardEvent

unfoldable pub on_board : BoardEvent → BoardState → BoardState
on_board (filters key) s = record s { filter_key = key }
on_board (searches text) s = record s { search = text }
on_board settles s = record s { query = trim s.search }
on_board (dates day) s = record s { day = day }
on_board back_to_live s = record s { day = [] }
on_board shows_new s = record s { new_arrivals = 0; filter_key = new; day = [] }
on_board (watches ids) s = watch_answered ids s
on_board (opens id) s = record s { open_order_id = some id }
on_board closes s = record s { open_order_id = none }
on_board asks_pause s = record s { pause_failure = none; pause_dialog_open = true }
on_board cancels_pause s = record s { pause_dialog_open = false }
on_board submits_pause s = record s { pause_failure = none }
on_board paused s = record s { pause_dialog_open = false; pause_note = []; pause_resume = [] }
on_board (notes text) s = record s { pause_note = text }
on_board (resumes text) s = record s { pause_resume = text }
on_board (pause_fails summary) s = record s { pause_failure = some summary }
