-- ===== src/Access/Offers.antt =====
-- The four workspaces' offers, compared and characterized.
use restaurant_engine.Prelude.{
  Bool, true, false, ◌&&◌, not, some, ◌≡◌, ◌≢◌, ◌↔◌, refl, arith, Bool-cases, inl, inr, &&-parts,
  &&-true,
}
use restaurant_engine.Prelude.Text.{codes, text_eq_iff}
use restaurant_engine.Session.{MembershipSummary}
use restaurant_engine.Access.Defs.{
  is_closed, owns, manages, menu_permissions, hours_permissions, orders_permissions,
  storefront_permissions, closed,
}

withheld : (b : Bool) → (b && false) ≡ false
withheld true = refl
withheld false = refl

not_both : (b : Bool) → not b ≡ true → b ≢ true
not_both true h e = cc
not_both false h e = cc

-- The first is offered only where the second is.
abbrev pub IsWithin : Bool → Bool → Type 0
IsWithin a b = (a && b) ≡ a

-- A closed business is offered for reading only: every workspace withholds every mutation, whatever
-- the role, while a manager still reads the storefront.
pub offers_of_closed :
    (m : MembershipSummary)
    → m.business_status ≡ codes "closed"
    → ((menu_permissions m).can_write_catalog ≡ false)
      × ((menu_permissions m).can_set_availability ≡ false)
      × ((menu_permissions m).can_write_media ≡ false)
      × ((menu_permissions m).is_read_only ≡ true)
      × (hours_permissions m ≡ record { can_edit = false; read_only_reason = some closed })
      × ((orders_permissions m).can_pause ≡ false)
      × (storefront_permissions m ≡ record {
        can_read = manages m;
        can_edit = false;
        can_publish = false;
        can_restore = false;
        is_read_only = true;
      })
unfolding menu_permissions hours_permissions orders_permissions storefront_permissions
offers_of_closed m h =
    let shut : is_closed m ≡ true = (text_eq_iff m.business_status (codes "closed")).1 h in
    let manager = withheld (manages m) in
    let owner = withheld (owns m) in
    rw shut (manager, refl, manager, refl, refl, manager, cc (manager, owner))

-- Publishing is offered to the owner of a business that is not closed, and to nobody else.
pub can_publish_iff :
    (m : MembershipSummary)
    → ((storefront_permissions m).can_publish ≡ true)
      ↔ ((m.role ≡ codes "owner") × (m.business_status ≢ codes "closed"))
unfolding storefront_permissions
can_publish_iff m = (
  λ h.
      let (owner, open_business) = &&-parts (owns m) (not (is_closed m)) h in
      (
        (text_eq_iff m.role (codes "owner")).0 owner,
        λ e.
            not_both (is_closed m) open_business
              ((text_eq_iff m.business_status (codes "closed")).1 e),
      ),
  λ (owner, other).
      &&-true (owns m) (not (is_closed m)) ((text_eq_iff m.role (codes "owner")).1 owner)
        (elim (Bool-cases (is_closed m)) [
          | inl shut ↦ absurd (other ((text_eq_iff m.business_status (codes "closed")).0 shut))
          | inr open_business ↦ rw open_business refl
        ]),
)

-- The workspaces agree on who edits: catalog, media, hours, ordering pauses and the storefront draft
-- are offered to the same members. Whoever may publish may restore and edit, and whoever may edit may
-- read the draft and set availability.
pub offers_agree :
    (m : MembershipSummary)
    → ((menu_permissions m).can_write_media ≡ (menu_permissions m).can_write_catalog)
      × ((hours_permissions m).can_edit ≡ (menu_permissions m).can_write_catalog)
      × ((orders_permissions m).can_pause ≡ (menu_permissions m).can_write_catalog)
      × ((storefront_permissions m).can_edit ≡ (menu_permissions m).can_write_catalog)
      × ((storefront_permissions m).can_restore ≡ (storefront_permissions m).can_publish)
      × IsWithin (storefront_permissions m).can_publish (storefront_permissions m).can_edit
      × IsWithin (storefront_permissions m).can_edit (storefront_permissions m).can_read
      × IsWithin (storefront_permissions m).can_edit (menu_permissions m).can_set_availability
unfolding menu_permissions hours_permissions orders_permissions storefront_permissions
offers_agree m = ground arith
