-- ===== src/Cart/Storage.antt =====
-- Cart persistence (apps/storefront/lib/cart-storage.ts). The browser's localStorage is a
-- parameter: an operation may throw, and then it changes nothing.
use restaurant_engine.Prelude.{
  ℕ, suc, Option, none, some, ◌≡◌, ◌⊎◌, inl, inr, refl, ◌∙◌, Option-cases,
}
use restaurant_engine.Js.{Codec}
use restaurant_engine.Cart.Defs.{Cart, empty_cart}
use restaurant_engine.Cart.Validate.{parse_cart, serialize_cart}
use restaurant_engine.Cart.Validity.{IsValid, empty-IsValid, parse_cart-IsValid}
use restaurant_engine.Cart.RoundTrip.{parse_cart-serialize_cart}

-- localStorage at the cart's key. `none` stands for an exception. What was set is read, and what
-- was removed is absent, where the store can be read at all.
pub record LocalStorage (Raw : Type 0) : Type 1 where
  pub State : Type 0
  pub get_item : State → Option (Option Raw)
  pub set_item : State → Raw → Option State
  pub remove_item : State → Option State
  pub get_item-set_item :
      (s t : State) (raw : Raw) → set_item s raw ≡ some t → get_item t ≡ some (some raw)
  pub get_item-remove_item : (s t : State) → remove_item s ≡ some t → get_item t ≡ some none

module _ (json : Codec) (storage : LocalStorage json.Raw) where
  open storage use {State, get_item, set_item, remove_item, get_item-set_item, get_item-remove_item}

  -- The page: its storage, and how many cart-changed events it has dispatched.
  pub record Window : Type 0 where
    pub local_storage : State
    pub cart_changed_events : ℕ

  -- The stored text, where getItem does not throw.
  unfoldable pub load_cart : Window → Cart
  load_cart w = elim (get_item w.local_storage) [
    | none ↦ empty_cart
    | some raw ↦ parse_cart json raw
  ]

  -- The event is dispatched whether or not the write was refused.
  abbrev announce : Window → Option State → Window
  announce w none = record w { cart_changed_events = suc w.cart_changed_events }
  announce w (some s) = record {
    local_storage = s;
    cart_changed_events = suc w.cart_changed_events;
  }

  unfoldable pub save_cart : Cart → Window → Window
  save_cart cart w = announce w (set_item w.local_storage (serialize_cart json cart))

  unfoldable pub clear_stored_cart : Window → Window
  clear_stored_cart w = announce w (remove_item w.local_storage)

  load_of_get_item :
      (w : Window) (raw : Option json.Raw)
      → get_item w.local_storage ≡ some raw
      → load_cart w ≡ parse_cart json raw
  unfolding load_cart
  load_of_get_item w raw h = rw (h, load_cart)

  load_cart-IsValid : (w : Window) → IsValid (load_cart w)
  unfolding load_cart
  load_cart-IsValid w = elim (Option-cases (get_item w.local_storage)) [
    | inl failed ↦ rw (failed, load_cart) empty-IsValid
    | inr (raw, read) ↦ rw (read, load_cart) (parse_cart-IsValid json raw)
  ]

  -- Saving a cart within the bounds announces one change, and the page then loads exactly that cart
  -- if the storage took it, and what it loaded before if the storage refused.
  pub load_cart-save_cart :
      (cart : Cart) (w : Window)
      → IsValid cart
      → ((save_cart cart w).cart_changed_events ≡ suc w.cart_changed_events)
        × ((load_cart (save_cart cart w) ≡ cart)
            ⊎ ((set_item w.local_storage (serialize_cart json cart) ≡ none)
                × (load_cart (save_cart cart w) ≡ load_cart w)))
  unfolding save_cart
  load_cart-save_cart cart w v =
      elim (Option-cases (set_item w.local_storage (serialize_cart json cart))) [
        | inl refused ↦ rw (refused, save_cart) (refl, inr (refl, unfold load_cart in refl))
        | inr (s, taken) ↦
            let stored = get_item-set_item w.local_storage s (serialize_cart json cart) taken in
            rw (taken, save_cart)
              (
                refl,
                inl (
                    load_of_get_item (announce w (some s)) (some (serialize_cart json cart)) stored
                    ∙ parse_cart-serialize_cart json cart v),
              )
      ]

  -- Clearing announces one change, and the page then loads the empty cart, or what it loaded before
  -- if the storage refused. Whatever is stored, what the page loads is within the bounds.
  pub load_cart-clear_stored_cart :
      (w : Window)
      → ((clear_stored_cart w).cart_changed_events ≡ suc w.cart_changed_events)
        × ((load_cart (clear_stored_cart w) ≡ empty_cart)
            ⊎ (load_cart (clear_stored_cart w) ≡ load_cart w))
        × IsValid (load_cart w)
  unfolding clear_stored_cart
  load_cart-clear_stored_cart w = elim (Option-cases (remove_item w.local_storage)) [
    | inl refused ↦
        rw (refused, clear_stored_cart) (refl, inr (unfold load_cart in refl), load_cart-IsValid w)
    | inr (s, taken) ↦
        let absent = get_item-remove_item w.local_storage s taken in
        rw (taken, clear_stored_cart)
          (
            refl,
            inl (load_of_get_item (announce w (some s)) none absent ∙ (unfold parse_cart in refl)),
            load_cart-IsValid w,
          )
  ]
