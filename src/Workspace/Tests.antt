-- ===== src/Workspace/Tests.antt =====
-- A query cache, and the mutations' theorems at it.
use restaurant_engine.Prelude.{
  Bool, true, false, Option, none, some, [], ◌∷◌, ◌≡◌, ◌⊎◌, refl, if◌then◌else◌,
}
use restaurant_engine.Prelude.Text.{Text, codes, text_eq, text_eq_refl}
use restaurant_engine.Js.{Json, null}
use restaurant_engine.Api.{ApiResult, ok, thrown, unwrap}
use restaurant_engine.Session.{SessionView, authenticated, World, unwrap_privileged}
use restaurant_engine.Session.PairClient.{pair_client}
use restaurant_engine.Client.Calls.{Call}
use restaurant_engine.Workspace.Cache.{Key, is_prefix, is_key, QueryCache, menu_tree}
use restaurant_engine.Workspace.Mutations.{create_category, reorder_categories}
use restaurant_engine.Workspace.Boards.{command}
use restaurant_engine.Client.Orders
use restaurant_engine.Workspace.Commands.{Mutation, on_menu, on_orders, run_mutation, success_of}
use restaurant_engine.Workspace.Sending.{IsSentFor, IsSignedOff, run_mutation-IsSentFor}
use restaurant_engine.Workspace.Isolation.{IsKept, success_of-IsKept}

record Held : Type 0 where
  value : Json
  invalidated : Bool

-- What is held under each key.
abbrev HeldByKey : Type 0
HeldByKey = Key → Option Held

abbrev value_in : Option Held → Option Json
value_in none = none
value_in (some held) = some (Held.value held)

abbrev is_stale : Option Held → Bool
is_stale none = true
is_stale (some held) = Held.invalidated held

abbrev mark : Option Held → Option Held
mark none = none
mark (some held) = some (record { value = Held.value held; invalidated = true })

value_in-mark : (b : Bool) (h : Option Held) → value_in (if b then mark h else h) ≡ value_in h
value_in-mark true none = refl
value_in-mark true (some held) = refl
value_in-mark false h = refl

is_stale-mark : (h : Option Held) → is_stale (mark h) ≡ true
is_stale-mark none = refl
is_stale-mark (some held) = refl

is_key_refl : (k : Key) → is_key k k ≡ true
unfolding is_key
is_key_refl [] = refl
is_key_refl (a ∷ key) = rw (text_eq_refl a) (is_key_refl key)

abbrev by_key : QueryCache HeldByKey
by_key = record {
  get = λ k c. value_in (c k);
  stale = λ k c. is_stale (c k);
  set = λ k v c l. if is_key k l then some (record { value = v; invalidated = false }) else c l;
  invalidate = λ p c l. if is_prefix p l then mark (c l) else c l;
  remove = λ p c l. if is_prefix p l then none else c l;
  get-set = λ k v c. rw (is_key_refl k) refl;
  get-set_other = λ k l v c other. rw other refl;
  stale-set_other = λ k l v c other. rw other refl;
  get-invalidate = λ p l c. value_in-mark (is_prefix p l) (c l);
  stale-invalidate = λ p l c under. rw under (is_stale-mark (c l));
  stale-invalidate_other = λ p l c other. rw other refl;
  stale-remove = λ p l c under. rw under refl;
  get-remove_other = λ p l c other. rw other refl;
  stale-remove_other = λ p l c other. rw other refl;
}

abbrev everything : HeldByKey
everything key = some (record { value = null; invalidated = false })

abbrev owner : SessionView
owner = record { csrf_token = codes "t"; is_platform_admin = false; memberships = [] }

abbrev signed_in : World pair_client
signed_in = record {
  session_generation = 1;
  in_flight = [];
  cache = (some (authenticated owner (codes "t")), true, false);
}

abbrev created : Call → ApiResult Json
created call = ok 201 null

abbrev adds_category : Mutation
adds_category = on_menu (create_category null)

run_mutation-IsSentFor_example :
    ((view : SessionView) × (token : Text) × (call : Call) × (signed_in.cache.0
        ≡ some (authenticated view token))
      × IsSentFor (codes "b1") token call
      × ((run_mutation pair_client created none (codes "b1") adds_category signed_in signed_in).1
          ≡ some call)
      × ((run_mutation pair_client created none (codes "b1") adds_category signed_in signed_in).2
          ≡ unwrap (created call))
      × ((run_mutation pair_client created none (codes "b1") adds_category signed_in signed_in).0
          ≡ (unwrap_privileged pair_client none (created call) signed_in).0))
    ⊎ (IsSignedOff pair_client signed_in
        × (run_mutation pair_client created none (codes "b1") adds_category signed_in signed_in
            ≡ (signed_in, none, thrown (record { status = some 401; envelope = none }))))
run_mutation-IsSentFor_example =
    run_mutation-IsSentFor pair_client (λ call. created call) none (codes "b1") adds_category
      signed_in signed_in

success_of-IsKept_example :
    IsKept by_key
      (menu_tree (codes "b2"))
      everything
      (success_of by_key (codes "b1") (on_menu (reorder_categories [])) [] null everything)
success_of-IsKept_example =
    success_of-IsKept by_key (codes "b1") (on_menu (reorder_categories [])) [] null
      (menu_tree (codes "b2")) everything (unfold text_eq in refl)

abbrev accepted : Mutation
accepted = on_orders (command (restaurant_engine.Client.Orders.accept) (codes "o1"))
