-- ===== src/Draft/Sections.antt =====
-- The section dialog on its own result (`formValuesFromSection` and `buildSection` in
-- apps/control-center/src/storefront/components/SectionEditDialog.tsx).
use restaurant_engine.Prelude.{
  ℕ, Bool, true, false, Option, none, some, List, [], ◌∷◌, map, ◌≡◌, ◌≢◌, refl, ap, ◌∙◌, inl, inr,
  All, Bool-cases,
}
use restaurant_engine.Prelude.Text.{Text}
use restaurant_engine.Money.{trim, trim_start, trim_end, cons_unless_end, is_space, is_empty}
use restaurant_engine.Draft.Defs.{
  SectionType, hero, menu, story, contact, gallery, hours, Props, hero_props, menu_props,
  story_props, contact_props, gallery_props, hours_props, ConfigSection, or_default,
}
use restaurant_engine.Draft.SectionForm.{
  SectionFormValues, form_values_from_section, blank_to_null, props_of, build_section,
}

trim_end_idem : (t : Text) → trim_end (trim_end t) ≡ trim_end t
unfolding trim_end
trim_end_idem [] = refl
trim_end_idem (c ∷ s) = again (trim_end s) (trim_end_idem s)
  where
    again : (r : Text) → trim_end r ≡ r → trim_end (cons_unless_end c r) ≡ cons_unless_end c r
    again [] h = elim (Bool-cases (is_space c)) [
      | inl e ↦ rw (e, cons_unless_end) refl
      | inr e ↦ rw (e, cons_unless_end) (rw e refl)
    ]
    again (d ∷ r) h = ap (cons_unless_end c) h

-- A text that starts with no space keeps its first unit.
trim_start_kept :
    (c : ℕ) (s : Text) → is_space c ≡ false → trim_start (trim_end (c ∷ s)) ≡ trim_end (c ∷ s)
unfolding trim_start trim_end
trim_start_kept c s h = front (trim_end s)
  where
    front : (r : Text) → trim_start (cons_unless_end c r) ≡ cons_unless_end c r
    front [] = rw (h, trim_start) (rw h refl)
    front (d ∷ r) = rw (h, trim_start) refl

trim_start_end : (t : Text) → trim_start (trim_end (trim_start t)) ≡ trim_end (trim_start t)
unfolding trim_start
trim_start_end [] = unfold trim_end in refl
trim_start_end (c ∷ s) = elim (Bool-cases (is_space c)) [
  | inl e ↦ rw (e, trim_start) (trim_start_end s)
  | inr e ↦ rw (e, trim_start) (trim_start_kept c s e)
]

trim_idem : (t : Text) → trim (trim t) ≡ trim t
unfolding trim
trim_idem t = ap trim_end (trim_start_end t) ∙ trim_end_idem (trim_start t)

-- Text without space around it.
abbrev pub IsTidy : Text → Type 0
IsTidy t = trim t ≡ t

abbrev pub IsTidyOption : Option Text → Type 0
IsTidyOption none = Unit
IsTidyOption (some t) = IsTidy t × (t ≢ [])

-- The contents fit the type, as the service stores them.
abbrev pub IsTidyProps : SectionType → Props → Type 0
IsTidyProps hero (hero_props heading subheading image action) =
    IsTidy heading × IsTidyOption subheading
IsTidyProps menu (menu_props heading intro) = IsTidy heading × IsTidyOption intro
IsTidyProps story (story_props heading body) = IsTidy heading × IsTidy body
IsTidyProps contact (contact_props heading lines phone email) =
    IsTidy heading × All IsTidy lines × IsTidyOption phone × IsTidyOption email
IsTidyProps gallery (gallery_props heading images) = IsTidyOption heading
IsTidyProps hours (hours_props heading intro show_open_now) = IsTidy heading × IsTidyOption intro
IsTidyProps _ _ = ⊥

empty_of : (t : Text) → is_empty t ≡ true → t ≡ []
empty_of [] h = refl
empty_of (c ∷ s) h = cc

given_of : (t : Text) → is_empty t ≡ false → t ≢ []
given_of [] h = λ e. cc
given_of (c ∷ s) h = λ e. cc

blank_to_null-kept : (o : Option Text) → IsTidyOption o → blank_to_null (or_default [] o) ≡ o
unfolding blank_to_null
blank_to_null-kept none h = unfold trim trim_start trim_end in refl
blank_to_null-kept (some t) (tidy, given) = elim (Bool-cases (is_empty t)) [
  | inl e ↦ absurd (given (empty_of t e))
  | inr e ↦ rw (tidy, e) refl
]

blank_to_null-IsTidyOption : (t : Text) → IsTidyOption (blank_to_null t)
unfolding blank_to_null
blank_to_null-IsTidyOption t = elim (Bool-cases (is_empty (trim t))) [
  | inl e ↦ rw e tt
  | inr e ↦ rw e (trim_idem t, given_of (trim t) e)
]

map-tidy : (lines : List Text) → All IsTidy lines → map trim lines ≡ lines
map-tidy [] h = refl
map-tidy (t ∷ ts) (h, hs) = rw (h, map-tidy ts hs) refl

map-IsTidy : (lines : List Text) → All IsTidy (map trim lines)
map-IsTidy [] = tt
map-IsTidy (t ∷ ts) = (trim_idem t, map-IsTidy ts)

props_of-kept :
    (t : SectionType) (p : Props) (id : Text) (enabled : Bool)
    → IsTidyProps t p
    → props_of t (
        form_values_from_section
          (record { id = id; section_type = t; enabled = enabled; props = p }))
      ≡ p
unfolding props_of form_values_from_section
props_of-kept hero (hero_props heading subheading image action) id enabled (h, s) =
    rw (h, blank_to_null-kept subheading s) refl
props_of-kept menu (menu_props heading intro) id enabled (h, s) =
    rw (h, blank_to_null-kept intro s) refl
props_of-kept story (story_props heading body) id enabled (h, s) = rw (h, s) refl
props_of-kept contact (contact_props heading lines phone email) id enabled (h, l, p, e) =
    rw (h, map-tidy lines l, blank_to_null-kept phone p, blank_to_null-kept email e) refl
props_of-kept gallery (gallery_props heading images) id enabled h =
    rw (blank_to_null-kept heading h) refl
props_of-kept hours (hours_props heading intro show_open_now) id enabled (h, s) =
    rw (h, blank_to_null-kept intro s) refl
props_of-kept _ _ id enabled h = absurd h

props_of-IsTidyProps : (t : SectionType) (v : SectionFormValues) → IsTidyProps t (props_of t v)
unfolding props_of
props_of-IsTidyProps hero v = (trim_idem v.heading, blank_to_null-IsTidyOption v.subheading)
props_of-IsTidyProps menu v = (trim_idem v.heading, blank_to_null-IsTidyOption v.intro)
props_of-IsTidyProps story v = (trim_idem v.heading, trim_idem v.body)
props_of-IsTidyProps contact v = (
  trim_idem v.heading,
  map-IsTidy v.address_lines,
  blank_to_null-IsTidyOption v.phone,
  blank_to_null-IsTidyOption v.email,
)
props_of-IsTidyProps gallery v = blank_to_null-IsTidyOption v.heading
props_of-IsTidyProps hours v = (trim_idem v.heading, blank_to_null-IsTidyOption v.intro)

enabled_kept :
    (t : SectionType) (p : Props) (id : Text) (enabled : Bool)
    → (form_values_from_section
        (record { id = id; section_type = t; enabled = enabled; props = p })).enabled
      ≡ enabled
unfolding form_values_from_section
enabled_kept t (story_props heading body) id enabled = refl
enabled_kept t _ id enabled = refl

-- A section whose contents fit its type, with its texts trimmed and no empty text in place of null,
-- comes back from the dialog as it was when Apply is pressed without an edit.
pub build_section-form_values :
    (section : ConfigSection)
    → IsTidyProps section.section_type section.props
    → build_section section.section_type section.id (form_values_from_section section) ≡ section
unfolding build_section props_of form_values_from_section
build_section-form_values section h =
    rw
      (
        enabled_kept section.section_type section.props section.id section.enabled,
        props_of-kept section.section_type section.props section.id section.enabled h,
      )
      refl

-- Whatever was entered in the dialog, the section that it hands over comes back as it was when the
-- dialog is opened on it again and Apply is pressed without an edit.
pub build_section-again :
    (t : SectionType) (id : Text) (v : SectionFormValues)
    → build_section t id (form_values_from_section (build_section t id v)) ≡ build_section t id v
unfolding build_section props_of form_values_from_section
build_section-again t id v =
    build_section-form_values (build_section t id v) (props_of-IsTidyProps t v)
