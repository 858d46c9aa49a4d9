-- ===== src/Menu/Changes.antt =====
-- A PATCH carries only what was changed, so that it overwrites no other edit.
use restaurant_engine.Prelude.{
  ℕ, Bool, true, false, Option, none, some, List, String, ◌≡◌, ◌≢◌, refl, sym, ap, Bool-cases, inl,
  inr, arith,
}
use restaurant_engine.Prelude.Options.{clash}
use restaurant_engine.Prelude.Int.{ℤ, pos, negsuc, abs, is_nonneg}
use restaurant_engine.Prelude.Text.{Text, text_eq, text_eq_refl}
use restaurant_engine.Money.{Intl, MoneyParseResult, ok, error, parse_major_to_minor, trim}
use restaurant_engine.Menu.Defs.{
  ItemFormValues, ItemSummary, ItemUpdate, to_item_update, description_of, same_tags, same_text,
  same_bool, unless, price_update, differs_from,
}
use restaurant_engine.Menu.Updates.{same_text_refl, same_bool_refl}

-- A field of the body is absent, or is not what the item has.
abbrev pub IsChange {ℓ} : {A : Type ℓ} → A → Option A → Type ℓ
IsChange a none = Unit
IsChange a (some b) = b ≢ a

abbrev pub IsPriceChange : ℤ → Option ℕ → Type 0
IsPriceChange a none = Unit {0}
IsPriceChange a (some n) = pos n ≢ a

abbrev pub IsTagsChange : List Text → Option (List Text) → Type 0
IsTagsChange a none = Unit {0}
IsTagsChange a (some b) = same_tags b a ≡ false

unless-IsChange {ℓ} :
    {A : Type ℓ} (b : Bool) (a original : A)
    → (a ≡ original → b ≡ true)
    → IsChange original (unless b a)
unless-IsChange true a original h = tt
unless-IsChange false a original h = λ e. clash false refl (h e)

same_text_of : (s t : Option Text) → s ≡ t → same_text s t ≡ true
same_text_of s t e = rw e (same_text_refl t)

same_bool_of : (a b : Bool) → a ≡ b → same_bool a b ≡ true
same_bool_of a b e = rw e (same_bool_refl b)

text_eq_of : (s t : Text) → s ≡ t → text_eq s t ≡ true
text_eq_of s t e = rw e (text_eq_refl t)

differs-ne : (n : ℕ) (a : ℤ) → differs_from a n ≡ true → pos n ≢ a
differs-ne n (pos k) h e = let same : n ≡ k = ap abs e in absurd (ground arith)
differs-ne n (negsuc k) h e = clash false refl (sym (ap is_nonneg e))

price-IsChange : (r : MoneyParseResult) (a : ℤ) → IsPriceChange a (price_update r a)
price-IsChange (ok n) a = elim (Bool-cases (differs_from a n)) [
  | inl h ↦ rw h (differs-ne n a h)
  | inr h ↦ rw h tt
]
price-IsChange (error e) a = tt

tags-IsChange :
    (b : Bool) (tags a : List Text) → same_tags tags a ≡ b → IsTagsChange a (unless b tags)
tags-IsChange true tags a e = tt
tags-IsChange false tags a e = e

-- Every field of the body that a form sends for an item differs from the item's: what was not
-- edited is not sent. A price that does not parse is not sent, and tags in another order are not.
pub to_item_update-IsChange :
    (intl : Intl) (values : ItemFormValues) (original : ItemSummary) (currency : String)
    → IsChange original.name (ItemUpdate.name (to_item_update intl values original currency))
      × IsChange original.description
          (ItemUpdate.description (to_item_update intl values original currency))
      × IsPriceChange original.price_minor
          (ItemUpdate.price_minor (to_item_update intl values original currency))
      × IsChange original.category_id
          (ItemUpdate.category_id (to_item_update intl values original currency))
      × IsChange original.is_hidden
          (ItemUpdate.is_hidden (to_item_update intl values original currency))
      × IsChange original.is_featured
          (ItemUpdate.is_featured (to_item_update intl values original currency))
      × IsTagsChange original.dietary_tags
          (ItemUpdate.dietary_tags (to_item_update intl values original currency))
unfolding to_item_update
to_item_update-IsChange intl values original currency = (
  unless-IsChange _ (trim values.name) original.name (text_eq_of _ _),
  unless-IsChange _ (description_of values) original.description (same_text_of _ _),
  price-IsChange (parse_major_to_minor intl values.price currency) original.price_minor,
  unless-IsChange _ values.category_id original.category_id (text_eq_of _ _),
  unless-IsChange _ values.is_hidden original.is_hidden (same_bool_of _ _),
  unless-IsChange _ values.is_featured original.is_featured (same_bool_of _ _),
  tags-IsChange _ values.dietary_tags original.dietary_tags refl,
)
