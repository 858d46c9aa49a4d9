-- ===== src/Checkout/PickerTests.antt =====
-- Runs of the modifier picker and of the order tracker on concrete input, and the theorems at them.
use restaurant_engine.Prelude.{
  true, false, not, none, some, List, [], ◌∷◌, ◌≡◌, refl, arith, All, all, any, find_first, inl,
  inr,
}
use restaurant_engine.Prelude.Int.{pos, ◌+ℤ◌, ◌*ℤ◌}
use restaurant_engine.Prelude.Text.{Text, codes, text_eq}
use restaurant_engine.Prelude.Sets.{add}
use restaurant_engine.Prelude.Decimal.{decimal}
use restaurant_engine.Js.{Json, obj, str, field, end, js_add, js_mul, round}
use restaurant_engine.Cart.Totals.{line_total_minor, options_total_from}
use restaurant_engine.Cart.Validity.{IsValidLine}
use restaurant_engine.Pages.{accepted}
use restaurant_engine.Checkout.Picker.{
  ModifierOption, ModifierGroup, MenuItem, Picker, picker_opened, composed_line, toggle_option,
  selected_count, group_rule, group_satisfied, chosen_options, shown_total, confirm, Composed,
  fresh, toggled, increased,
}
use restaurant_engine.Checkout.Selection.{IsWithin, AreSeparate, Composed-IsWithin}
use restaurant_engine.Checkout.Composition.{IsSafeItem, confirm-IsValidLine}
use restaurant_engine.Checkout.Tracker.{
  order, TrackerEvent, reads, cancels, asks, confirms, track, on_event, read_answered,
  cancel_answered, is_terminal, tells, ends, told, shown_order, track-tells,
}

abbrev small : ModifierOption
small = record { id = codes "s"; name = codes "Small"; price_delta_minor = pos 0 }

abbrev large : ModifierOption
large = record { id = codes "l"; name = codes "Large"; price_delta_minor = pos 150 }

abbrev size : ModifierGroup
size = record {
  id = codes "g";
  name = codes "Size";
  min_select = 1;
  max_select = some 1;
  options = small ∷ large ∷ [];
}

abbrev soup : MenuItem
soup = record {
  id = codes "i";
  name = codes "Soup";
  price_minor = pos 500;
  modifier_groups = size ∷ [];
}

abbrev chosen_small : Picker
chosen_small = record picker_opened { selected = toggle_option size small.id [] }

abbrev chosen_large : Picker
chosen_large = record picker_opened { selected = toggle_option size large.id chosen_small.selected }

abbrev two_large : Picker
two_large = record chosen_large { quantity = 2 }

clicks :
    (chosen_large.selected ≡ codes "l" ∷ [])
    × (shown_total soup two_large ≡ pos 1300)
    × (confirm soup picker_opened ≡ none)
    × (group_rule size ≡ codes "Choose one")
    × (group_rule (record size { max_select = some 3 }) ≡ codes "Choose at least 1, up to 3")
unfolding toggle_option add text_eq options_total_from selected_count group_satisfied chosen_options
    shown_total confirm group_rule decimal js_add js_mul round ◌+ℤ◌ ◌*ℤ◌
clicks = (refl, refl, refl, refl, refl)

large-Composed : Composed soup two_large
large-Composed = increased _ (
    toggled _ size large (toggled _ size small fresh (inl refl) (inl refl)) (inl refl)
      (inr (inl refl)))

soup-AreSeparate : AreSeparate soup.modifier_groups
unfolding text_eq
soup-AreSeparate = ((((refl, tt), (tt, tt)), (inl refl, tt)), tt)

Composed-IsWithin_example : All (IsWithin two_large.selected) soup.modifier_groups
Composed-IsWithin_example = Composed-IsWithin soup two_large soup-AreSeparate large-Composed

soup-IsSafeItem : IsSafeItem soup
soup-IsSafeItem = record {
  price_safe = omega arith;
  price_nonneg = refl;
  deltas_safe = ((omega arith, (omega arith, tt)), tt);
}

confirm-IsValidLine_example :
    IsValidLine (composed_line soup two_large)
    × (line_total_minor (composed_line soup two_large) ≡ shown_total soup two_large)
    × (all (group_satisfied two_large.selected) soup.modifier_groups ≡ true)
confirm-IsValidLine_example =
    confirm-IsValidLine soup two_large (composed_line soup two_large) soup-IsSafeItem large-Composed
      (unfold clicks in refl)

abbrev order_in : Text → Json
order_in status = obj (field "status" (str status) end)

-- The last event first: the cancellation succeeds, and then the answer of an older read arrives.
abbrev overtaken : List TrackerEvent
overtaken =
    reads (accepted (order_in (codes "submitted")))
    ∷ cancels (accepted (order_in (codes "cancelled")))
    ∷ confirms
    ∷ asks
    ∷ reads (accepted (order_in (codes "submitted")))
    ∷ []

overtaken_page :
    ((track overtaken).state ≡ order (order_in (codes "submitted")))
    × ((track overtaken).polling ≡ false)
unfolding track on_event read_answered cancel_answered is_terminal text_eq
overtaken_page = (refl, refl)

track-tells_example :
    (shown_order (track overtaken).state ≡ told (find_first tells overtaken))
    × ((track overtaken).polling ≡ not (any ends overtaken))
track-tells_example = track-tells overtaken
