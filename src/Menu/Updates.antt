-- ===== src/Menu/Updates.antt =====
-- What saving an item changes: the body of a PATCH (`toItemUpdate`) and its effect on the item.
use restaurant_engine.Prelude.{
  ℕ, ◌≤◌, Bool, true, false, Option, none, some, List, String, ◌≡◌, refl, sym, ap, ◌∙◌, ==_iff,
  ◌==◌, Bool-cases, inl, inr, arith,
}
use restaurant_engine.Prelude.Options.{clash}
use restaurant_engine.Prelude.Int.{ℤ, pos, negsuc, abs, is_nonneg}
use restaurant_engine.Prelude.Text.{Text, text_eq, text_eq_refl, text_eq_sound, text_le}
use restaurant_engine.Prelude.Sorting.{sort}
use restaurant_engine.Prelude.Splitting.{join}
use restaurant_engine.Js.{max_safe}
use restaurant_engine.Money.{Intl, ok, parse_major_to_minor, minor_to_major_input, trim}
use restaurant_engine.Money.RoundTrip.{parse-minor_to_major_input}
use restaurant_engine.Menu.Defs.{
  ItemFormValues, ItemSummary, ItemUpdate, item_values, to_item_update, description_of,
  unless_empty, text_or_empty, same_tags, same_text, same_bool, unless, price_update,
}

-- An item as the backend stores it: its texts are trimmed, and its price is safe and not negative.
pub record IsStored (item : ItemSummary) : Type 0 where
  pub amount : ℕ
  pub name_trimmed : trim item.name ≡ item.name
  pub description_trimmed : unless_empty (trim (text_or_empty item.description)) ≡ item.description
  pub price_is : item.price_minor ≡ pos amount
  pub price_safe : amount ≤ max_safe

abbrev pub no_update : ItemUpdate
no_update = record {
  name = none;
  description = none;
  price_minor = none;
  category_id = none;
  is_hidden = none;
  is_featured = none;
  dietary_tags = none;
}

pub same_text_refl : (o : Option Text) → same_text o o ≡ true
unfolding same_text
same_text_refl none = refl
same_text_refl (some t) = text_eq_refl t

pub same_bool_refl : (b : Bool) → same_bool b b ≡ true
same_bool_refl true = refl
same_bool_refl false = refl

same_tags_refl : (tags : List Text) → same_tags tags tags ≡ true
unfolding same_tags
same_tags_refl tags = rw (text_eq_refl (join b',' (sort text_le tags))) (ground arith)

unless-true {ℓ} : {A : Type ℓ} (b : Bool) (a : A) → b ≡ true → unless b a ≡ none
unless-true true a h = refl
unless-true false a h = clash false refl h

same_text_at : (s t : Option Text) → s ≡ t → same_text s t ≡ true
same_text_at s t e = rw e (same_text_refl t)

text_eq_at : (s t : Text) → s ≡ t → text_eq s t ≡ true
text_eq_at s t e = rw e (text_eq_refl t)

price_same : (n : ℕ) (original : ℤ) → original ≡ pos n → price_update (ok n) original ≡ none
price_same n (pos k) e = let same : k ≡ n = ap abs e in rw same (ground arith)
price_same n (negsuc k) e = clash false refl (ap is_nonneg e)

price_unedited :
    (intl : Intl) (item : ItemSummary) (currency : String)
    → IsStored item
    → price_update
        (parse_major_to_minor intl (minor_to_major_input intl item.price_minor currency) currency)
        item.price_minor
      ≡ none
price_unedited intl item currency stored =
    let safe : abs item.price_minor ≤ max_safe = rw stored.price_is stored.price_safe in
    ap (λ r. price_update r item.price_minor)
      (parse-minor_to_major_input intl item.price_minor currency safe)
    ∙ price_same (abs item.price_minor) item.price_minor (rw stored.price_is refl)

-- For an item whose texts are trimmed, with no empty description, and whose price is not negative
-- and a safe integer, a form that was not edited sends an empty body: every field is left as the
-- backend holds it.
pub to_item_update-unedited :
    (intl : Intl) (item : ItemSummary) (currency : String)
    → IsStored item
    → to_item_update intl (item_values intl item currency) item currency ≡ no_update
unfolding to_item_update item_values description_of
to_item_update-unedited intl item currency stored =
    rw
      (
        unless-true _ (trim item.name) (text_eq_at _ _ stored.name_trimmed),
        unless-true _ (unless_empty (trim (text_or_empty item.description)))
            (same_text_at _ _ stored.description_trimmed),
        price_unedited intl item currency stored,
        unless-true _ item.category_id (text_eq_refl item.category_id),
        unless-true _ item.is_hidden (same_bool_refl item.is_hidden),
        unless-true _ item.is_featured (same_bool_refl item.is_featured),
        unless-true _ item.dietary_tags (same_tags_refl item.dietary_tags),
      )
      refl

-- What a PATCH does to the item: an absent field is untouched.
abbrev pub or_keep {ℓ} : {A : Type ℓ} → Option A → A → A
or_keep none a = a
or_keep (some b) a = b

abbrev pub price_or_keep : Option ℕ → ℤ → ℤ
price_or_keep none a = a
price_or_keep (some n) a = pos n

abbrev pub apply_update : ItemUpdate → ItemSummary → ItemSummary
apply_update u item = record {
  name = or_keep u.name item.name;
  description = or_keep u.description item.description;
  price_minor = price_or_keep u.price_minor item.price_minor;
  category_id = or_keep u.category_id item.category_id;
  is_hidden = or_keep u.is_hidden item.is_hidden;
  is_featured = or_keep u.is_featured item.is_featured;
  dietary_tags = or_keep u.dietary_tags item.dietary_tags;
}

-- The item that the form describes, for an accepted price; tags count as sets.
abbrev pub IsAsEntered : ItemFormValues → ℕ → ItemSummary → Type 0
IsAsEntered values minor item =
    (item.name ≡ trim values.name)
    × (item.description ≡ description_of values)
    × (item.price_minor ≡ pos minor)
    × (item.category_id ≡ values.category_id)
    × (item.is_hidden ≡ values.is_hidden)
    × (item.is_featured ≡ values.is_featured)
    × (same_tags values.dietary_tags item.dietary_tags ≡ true)

keep_unless {ℓ} :
    {A : Type ℓ} (b : Bool) (a original : A)
    → (b ≡ true → a ≡ original)
    → or_keep (unless b a) original ≡ a
keep_unless true a original h = sym (h refl)
keep_unless false a original h = refl

same_text_sound : (s t : Option Text) → same_text s t ≡ true → s ≡ t
unfolding same_text
same_text_sound none none h = refl
same_text_sound none (some t) h = clash false refl h
same_text_sound (some s) none h = clash false refl h
same_text_sound (some s) (some t) h = ap some (text_eq_sound s t h)

same_bool_sound : (a b : Bool) → same_bool a b ≡ true → a ≡ b
same_bool_sound true true h = refl
same_bool_sound true false h = clash false refl h
same_bool_sound false true h = clash false refl h
same_bool_sound false false h = refl

price_kept : (n : ℕ) (original : ℤ) → price_or_keep (price_update (ok n) original) original ≡ pos n
price_kept n (pos k) = elim (Bool-cases (n == k)) [
  | inl e ↦ rw e (ap pos (sym ((==_iff n k).0 e)))
  | inr e ↦ rw e refl
]
price_kept n (negsuc k) = refl

tags_kept :
    (b : Bool) (tags original : List Text)
    → same_tags tags original ≡ b
    → same_tags tags (or_keep (unless b tags) original) ≡ true
tags_kept true tags original e = e
tags_kept false tags original e = same_tags_refl tags

-- If the price that was entered is accepted, the item is as entered after the PATCH that the form
-- sends: the name and the description trimmed, an empty description none, and the tags in any
-- order.
pub to_item_update-IsAsEntered :
    (intl : Intl) (values : ItemFormValues) (original : ItemSummary) (currency : String) (minor : ℕ)
    → parse_major_to_minor intl values.price currency ≡ ok minor
    → IsAsEntered values minor
        (apply_update (to_item_update intl values original currency) original)
unfolding to_item_update
to_item_update-IsAsEntered intl values original currency minor parsed = (
  keep_unless _ _ _ (text_eq_sound _ _),
  keep_unless _ _ _ (same_text_sound _ _),
  rw parsed (price_kept minor original.price_minor),
  keep_unless _ _ _ (text_eq_sound _ _),
  keep_unless _ _ _ (same_bool_sound _ _),
  keep_unless _ _ _ (same_bool_sound _ _),
  tags_kept _ values.dietary_tags original.dietary_tags refl,
)
