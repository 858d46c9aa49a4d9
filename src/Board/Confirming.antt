-- ===== src/Board/Confirming.antt =====
-- The confirming button of the order drawer (apps/control-center/src/orders/OrderDrawer.tsx).
use restaurant_engine.Prelude.{
  ℕ, suc, ◌+◌, ◌≤◌, Bool, true, false, none, some, List, [], ◌∷◌, ◌≡◌, refl, sym, subst, ◌⊎◌, inl,
  inr, arith, All, Option-cases, if◌then◌else◌,
}
use restaurant_engine.Client.Orders.{OrderCommand, reject, cancel}
use restaurant_engine.Checkout.Picker.{IsAmong}
use restaurant_engine.Board.Orders.{
  OrderStatus, submitted, accepted, preparing, ready, completed, rejected, cancelled, CommandAction,
  legal_commands, Drawer, DrawerEvent, presses, confirms, keeps, on_drawer, drawer_after,
  press_action,
}

abbrev pub is_consequential : OrderCommand → Bool
is_consequential reject = true
is_consequential cancel = true
is_consequential _ = false

-- How many declines and cancellations were sent, and how often the confirming button was pressed.
abbrev pub consequential : List OrderCommand → ℕ
consequential [] = 0
consequential (c ∷ cs) = if is_consequential c then suc (consequential cs) else consequential cs

abbrev pub confirmations : List DrawerEvent → ℕ
confirmations [] = 0
confirmations (confirms ∷ es) = suc (confirmations es)
confirmations (e ∷ es) = confirmations es

-- The drawer offers the action for some status.
abbrev pub IsOffered : DrawerEvent → Type 0
IsOffered (presses action) = (status : OrderStatus) × IsAmong action (legal_commands status)
IsOffered _ = Unit

abbrev IsHarmless : CommandAction → Type 0
IsHarmless action =
    (is_consequential action.command ≡ false) ⊎ ((text : _) × (action.confirm ≡ some text))

offered-IsHarmless :
    (status : OrderStatus) (action : CommandAction)
    → IsAmong action (legal_commands status)
    → IsHarmless action
unfolding legal_commands
offered-IsHarmless submitted action (inl e) = subst IsHarmless (sym e) (inl refl)
offered-IsHarmless submitted action (inr (inl e)) = subst IsHarmless (sym e) (inr (_, refl))
offered-IsHarmless submitted action (inr (inr (inl e))) = subst IsHarmless (sym e) (inr (_, refl))
offered-IsHarmless submitted action (inr (inr (inr m))) = absurd m
offered-IsHarmless accepted action (inl e) = subst IsHarmless (sym e) (inl refl)
offered-IsHarmless accepted action (inr m) = absurd m
offered-IsHarmless preparing action (inl e) = subst IsHarmless (sym e) (inl refl)
offered-IsHarmless preparing action (inr m) = absurd m
offered-IsHarmless ready action (inl e) = subst IsHarmless (sym e) (inl refl)
offered-IsHarmless ready action (inr m) = absurd m
offered-IsHarmless completed action m = absurd m
offered-IsHarmless rejected action m = absurd m
offered-IsHarmless cancelled action m = absurd m

direct_count :
    (command : OrderCommand) (cs : List OrderCommand)
    → is_consequential command ≡ false
    → consequential (command ∷ cs) ≡ consequential cs
direct_count command cs h = rw h refl

unconfirmed :
    (action : CommandAction)
    → IsHarmless action
    → action.confirm ≡ none
    → is_consequential action.command ≡ false
unconfirmed action (inl h) e = h
unconfirmed action (inr (text, h)) e = cc

press_action-consequential :
    (action : CommandAction) (d : Drawer)
    → IsHarmless action
    → consequential (press_action action d).sent ≡ consequential d.sent
press_action-consequential action d h = elim (Option-cases action.confirm) [
  | inr (text, e) ↦ rw (e, press_action) refl
  | inl e ↦ rw (e, press_action) (direct_count action.command d.sent (unconfirmed action h e))
]

abbrev is_confirmation : DrawerEvent → ℕ
is_confirmation confirms = 1
is_confirmation _ = 0

at_most_one_more :
    (c : OrderCommand) (cs : List OrderCommand) → consequential (c ∷ cs) ≤ consequential cs + 1
at_most_one_more c cs = ground arith

on_drawer-consequential :
    (e : DrawerEvent) (d : Drawer)
    → IsOffered e
    → consequential (on_drawer e d).sent ≤ consequential d.sent + is_confirmation e
unfolding on_drawer
on_drawer-consequential keeps d o = omega arith
on_drawer-consequential confirms d o = elim (Option-cases d.confirming) [
  | inl e ↦ rw (e, on_drawer) (omega arith)
  | inr (a, e) ↦ rw (e, on_drawer) (at_most_one_more a.command d.sent)
]
on_drawer-consequential (presses action) d (status, m) = elim (Option-cases d.confirming) [
  | inl e ↦
      let same = press_action-consequential action d (offered-IsHarmless status action m) in
      rw (e, on_drawer) (omega (arith, same))
  | inr (a, e) ↦ rw (e, on_drawer) (omega arith)
]

confirmations_cons :
    (e : DrawerEvent) (es : List DrawerEvent)
    → confirmations (e ∷ es) ≡ confirmations es + is_confirmation e
confirmations_cons confirms es = omega arith
confirmations_cons keeps es = omega arith
confirmations_cons (presses action) es = omega arith

-- Whatever actions the drawer offers are pressed, at most as many declines and cancellations are sent
-- as the confirming button was pressed.
pub drawer_after-confirmed :
    (es : List DrawerEvent)
    → All IsOffered es
    → consequential (drawer_after es).sent ≤ confirmations es
unfolding drawer_after
drawer_after-confirmed [] o = omega arith
drawer_after-confirmed (e ∷ es) (o, os) =
    rw (confirmations_cons e es)
      (omega (arith, on_drawer-consequential e (drawer_after es) o, drawer_after-confirmed es os))
