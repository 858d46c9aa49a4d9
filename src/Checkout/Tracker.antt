-- ===== src/Checkout/Tracker.antt =====
-- The order tracker (apps/storefront/components/ordering/OrderTracker.tsx). The answers of its reads
-- and of a cancellation come in any order; `refresh` and `handleCancel` are modelled behind their
-- awaits, and the read that follows a refused cancellation is one more read.
use restaurant_engine.Prelude.{
  ℕ, Bool, true, false, not, ◌&&◌, ◌||◌, Option, none, some, List, [], ◌∷◌, ◌≡◌, refl, ap, ◌∙◌,
  ◌==◌, any, find_first, if◌then◌else◌, arith, Bool-cases, inl, inr,
}
use restaurant_engine.Prelude.Text.{Text, codes, text_eq}
use restaurant_engine.Js.{Json, str, get}
use restaurant_engine.Pages.{PublicApiResult, accepted, denied}

-- The order is the answer's data, shown as it is.
pub data TrackerState : Type 0 where
  loading not_found unavailable : TrackerState
  order : Json → TrackerState

pub record Tracker : Type 0 where
  pub state : TrackerState
  pub confirming_cancel : Bool
  pub cancel_refused : Bool
  pub polling : Bool

abbrev pub tracked : Tracker
tracked = record {
  state = loading;
  confirming_cancel = false;
  cancel_refused = false;
  polling = true;
}

abbrev terminal_statuses : List Text
terminal_statuses = codes "cancelled" ∷ codes "completed" ∷ codes "rejected" ∷ []

unfoldable pub is_terminal : Option Json → Bool
is_terminal (some (str status)) = any (text_eq status) terminal_statuses
is_terminal _ = false

abbrev pub unless_order : TrackerState → TrackerState
unless_order (order data_) = order data_
unless_order _ = unavailable

abbrev pub stop_polling : Tracker → Tracker
stop_polling t = record t { polling = false }

unfoldable pub read_answered : PublicApiResult → Tracker → Tracker
read_answered (accepted data_) t =
    let shown = record t { state = order data_ } in
    if is_terminal (get "status" data_) then stop_polling shown else shown
read_answered (denied (some status) code details) t =
    if status == 404
    then stop_polling (record t { state = not_found })
    else record t { state = unless_order t.state }
read_answered (denied none code details) t = record t { state = unless_order t.state }

unfoldable pub cancel_answered : PublicApiResult → Tracker → Tracker
cancel_answered (accepted data_) t = stop_polling (record t { state = order data_ })
cancel_answered (denied (some status) code details) t =
    if status == 409
    then record t { cancel_refused = true }
    else if status == 404
    then stop_polling (record t { state = not_found })
    else t
cancel_answered (denied none code details) t = t

pub data TrackerEvent : Type 0 where
  reads cancels : PublicApiResult → TrackerEvent
  asks keeps confirms : TrackerEvent

-- The two buttons of the confirmation, and the start of `handleCancel`.
unfoldable pub on_event : TrackerEvent → Tracker → Tracker
unfolding read_answered cancel_answered
on_event (reads result) t = read_answered result t
on_event (cancels result) t = cancel_answered result t
on_event asks t = record t { confirming_cancel = true }
on_event keeps t = record t { confirming_cancel = false }
on_event confirms t = record t { confirming_cancel = false }

-- After the events, the last one first.
unfoldable pub track : List TrackerEvent → Tracker
track [] = tracked
track (e ∷ es) = on_event e (track es)

abbrev is_status : ℕ → Option ℕ → Bool
is_status n none = false
is_status n (some status) = status == n

-- An answer that says where the order is, or that there is none.
abbrev pub tells : TrackerEvent → Bool
tells (reads (accepted data_)) = true
tells (reads (denied status code details)) = is_status 404 status
tells (cancels (accepted data_)) = true
tells (cancels (denied status code details)) = is_status 404 status
tells _ = false

-- An answer after which nothing changes any more.
abbrev pub ends : TrackerEvent → Bool
unfolding is_terminal
ends (reads (accepted data_)) = is_terminal (get "status" data_)
ends (reads (denied status code details)) = is_status 404 status
ends (cancels (accepted data_)) = true
ends (cancels (denied status code details)) = is_status 404 status
ends _ = false

abbrev pub told : Option TrackerEvent → Option Json
told (some (reads (accepted data_))) = some data_
told (some (cancels (accepted data_))) = some data_
told _ = none

abbrev pub shown_order : TrackerState → Option Json
shown_order (order data_) = some data_
shown_order _ = none

abbrev IsTracked : TrackerEvent → Tracker → Tracker → Type 0
IsTracked e t u =
    (shown_order u.state ≡ (if tells e then told (some e) else shown_order t.state))
    × (u.polling ≡ (not (ends e) && t.polling))

shown_order-unless_order : (s : TrackerState) → shown_order (unless_order s) ≡ shown_order s
shown_order-unless_order (order data_) = refl
shown_order-unless_order _ = refl

on_event-IsTracked : (e : TrackerEvent) (t : Tracker) → IsTracked e t (on_event e t)
unfolding on_event read_answered cancel_answered ends
on_event-IsTracked asks t = (refl, refl)
on_event-IsTracked keeps t = (refl, refl)
on_event-IsTracked confirms t = (refl, refl)
on_event-IsTracked (cancels (accepted data_)) t = (refl, refl)
on_event-IsTracked (cancels (denied none code details)) t = (refl, refl)
on_event-IsTracked (cancels (denied (some status) code details)) t =
    elim (Bool-cases (status == 409)) [
      | inl e ↦ let other : (status == 404) ≡ false = ground arith in rw (e, other) (refl, refl)
      | inr e ↦ elim (Bool-cases (status == 404)) [
        | inl f ↦ rw (e, f) (refl, refl)
        | inr f ↦ rw (e, f) (refl, refl)
      ]
    ]
on_event-IsTracked (reads (accepted data_)) t =
    elim (Bool-cases (is_terminal (get "status" data_))) [
      | inl e ↦ rw (e, read_answered) (refl, refl)
      | inr e ↦ rw (e, read_answered) (refl, refl)
    ]
on_event-IsTracked (reads (denied none code details)) t = (shown_order-unless_order t.state, refl)
on_event-IsTracked (reads (denied (some status) code details)) t =
    elim (Bool-cases (status == 404)) [
      | inl e ↦ rw e (refl, refl)
      | inr e ↦ rw e (shown_order-unless_order t.state, refl)
    ]

not_or : (a b : Bool) → not a && not b ≡ not (a || b)
not_or true b = refl
not_or false b = refl

told_if :
    (b : Bool) (e : TrackerEvent) (rest : Option TrackerEvent)
    → (if b then told (some e) else told rest) ≡ told (if b then some e else rest)
told_if true e rest = refl
told_if false e rest = refl

-- After any events, a list of the last first, the order on the page is that of the last answer that
-- shows an order or says that there is none, and the page polls unless an answer was final: an order
-- in a terminal status, a cancellation that succeeded, or a 404.
pub track-tells :
    (es : List TrackerEvent)
    → (shown_order (track es).state ≡ told (find_first tells es))
      × ((track es).polling ≡ not (any ends es))
unfolding track
track-tells [] = (refl, refl)
track-tells (e ∷ es) =
    let (shown, polls) = track-tells es in
    let (now, next) = on_event-IsTracked e (track es) in
    (
      now
          ∙ ap (λ o. if tells e then told (some e) else o) shown
          ∙ told_if (tells e) e (find_first tells es),
      next ∙ ap (λ b. not (ends e) && b) polls ∙ not_or (ends e) (any ends es),
    )
