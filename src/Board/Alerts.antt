-- ===== src/Board/Alerts.antt =====
-- The count of new orders on the board (the effect on `incomingOrders` in
-- apps/control-center/src/orders/OrdersPage.tsx).
use restaurant_engine.Prelude.{
  ◌+◌, Bool, true, false, ◌||◌, some, List, [], ◌∷◌, ◌++◌, ◌≡◌, refl, sym, ap, ◌∙◌, subst, arith,
  length, length-append, any, keep_if, All, Bool-cases, inl, inr, ◌⊎◌,
}
use restaurant_engine.Prelude.Sets.{has, add, or_assoc, or_false, has-append, has-add, text_eq-flip}
use restaurant_engine.Prelude.Text.{Text, text_eq, text_eq_sound}
use restaurant_engine.Board.Page.{BoardState, add_all, unseen_of, watch_answered}

abbrev pub AreUnique : List Text → Type 0
AreUnique [] = Unit
AreUnique (x ∷ xs) = (has x xs ≡ false) × AreUnique xs

abbrev AreUnseen : List Text → List Text → Type 0
AreUnseen seen ids = All (λ id. has id seen ≡ false) ids

add_new : (x : Text) (seen : List Text) → has x seen ≡ false → add x seen ≡ seen ++ x ∷ []
unfolding add
add_new x seen h = rw h refl

or_left : (a b : Bool) → a ≡ true → (a || b) ≡ a
or_left true b h = refl
or_left false b h = cc

or_parts : (a b : Bool) → (a || b) ≡ false → (a ≡ false) × (b ≡ false)
or_parts false false h = (refl, refl)
or_parts false true h = cc
or_parts true b h = cc

add_known : (x : Text) (seen : List Text) → has x seen ≡ true → add x seen ≡ seen
unfolding add
add_known x seen h = rw h refl

-- Membership after an insertion, whatever was there.
has-add_any : (x i : Text) (seen : List Text) → has x (add i seen) ≡ (has x seen || text_eq x i)
has-add_any x i seen = elim (Bool-cases (text_eq x i)) [
  | inr e ↦ has-add x i seen e ∙ sym (or_false (has x seen) (text_eq x i) e)
  | inl e ↦ elim (Bool-cases (has i seen)) [
    | inl k ↦
        let member : has x seen ≡ true =
          subst (λ y. has y seen ≡ true) (sym (text_eq_sound x i e)) k in
        rw (add_known i seen k) (sym (or_left (has x seen) (text_eq x i) member))
    | inr k ↦ rw (add_new i seen k) (has-append x i seen)
  ]
]

has-add_all :
    (x : Text) (ids seen : List Text) → has x (add_all ids seen) ≡ (has x seen || has x ids)
has-add_all x [] seen = sym (or_false (has x seen) false refl)
has-add_all x (i ∷ is) seen =
    has-add_all x is (add i seen)
    ∙ ap (λ b. b || has x is) (has-add_any x i seen)
    ∙ sym (or_assoc (has x seen) (text_eq x i) (has x is))

snoc-AreUnique :
    (x : Text) (seen : List Text) → AreUnique seen → has x seen ≡ false → AreUnique (seen ++ x ∷ [])
snoc-AreUnique x [] u h = (refl, tt)
snoc-AreUnique x (y ∷ ys) (f, u) h =
    let (other, later) = or_parts (text_eq x y) (has x ys) h in
    (
      has-append y x ys ∙ or_false (has y ys) (text_eq y x) (text_eq-flip x y other) ∙ f,
      snoc-AreUnique x ys u later,
    )

unseen_after :
    (i : Text) (seen ids : List Text)
    → has i ids ≡ false
    → AreUnseen seen ids
    → AreUnseen (add i seen) ids
unseen_after i seen [] f h = tt
unseen_after i seen (j ∷ js) f (h, hs) =
    let (other, later) = or_parts (text_eq i j) (has i js) f in
    (
      has-add_any j i seen ∙ or_false (has j seen) (text_eq j i) (text_eq-flip i j other) ∙ h,
      unseen_after i seen js later hs,
    )

-- Insertion of new elements, each once.
add_all-AreUnique :
    (ids seen : List Text)
    → AreUnique ids
    → AreUnseen seen ids
    → AreUnique seen
    → AreUnique (add_all ids seen) × (length (add_all ids seen) ≡ length ids + length seen)
add_all-AreUnique [] seen u h v = (v, omega arith)
add_all-AreUnique (i ∷ is) seen (f, u) (h, hs) v =
    let e = add_new i seen h in
    let w : AreUnique (add i seen) = subst AreUnique (sym e) (snoc-AreUnique i seen v h) in
    let (unique, size) = add_all-AreUnique is (add i seen) u (unseen_after i seen is f hs) w in
    let one : length (add i seen) ≡ length seen + 1 = ap length e ∙ length-append seen (i ∷ []) in
    (unique, omega arith)

keep_if-lacks :
    (p : Text → Bool) (x : Text) (ids : List Text)
    → has x ids ≡ false
    → has x (keep_if p ids) ≡ false
keep_if-lacks p x [] h = refl
keep_if-lacks p x (i ∷ is) h = ground (arith, keep_if-lacks p x is)

keep_if-AreUnique : (p : Text → Bool) (ids : List Text) → AreUnique ids → AreUnique (keep_if p ids)
keep_if-AreUnique p [] u = tt
keep_if-AreUnique p (i ∷ is) (f, u) = elim (Bool-cases (p i)) [
  | inl e ↦ rw (e, keep_if) (keep_if-lacks p i is f, keep_if-AreUnique p is u)
  | inr e ↦ rw (e, keep_if) (keep_if-AreUnique p is u)
]

unseen_of-AreUnseen : (ids seen : List Text) → AreUnseen seen (unseen_of ids seen)
unseen_of-AreUnseen [] seen = tt
unseen_of-AreUnseen (i ∷ is) seen = elim (Bool-cases (has i seen)) [
  | inl e ↦ rw (e, keep_if) (unseen_of-AreUnseen is seen)
  | inr e ↦ rw (e, keep_if) (e, unseen_of-AreUnseen is seen)
]

or_under : (a t u v : Bool) → (a || u) ≡ (a || v) → (a || (t || u)) ≡ (a || (t || v))
or_under true t u v h = refl
or_under false t u v h = ap (λ b. t || b) h

or_skip : (a t v : Bool) → (t ≡ false) ⊎ (a ≡ true) → (a || v) ≡ (a || (t || v))
or_skip true t v h = refl
or_skip false false v h = refl
or_skip false true v (inl h) = cc
or_skip false true v (inr h) = cc

known_or_other :
    (x i : Text) (seen : List Text)
    → has i seen ≡ true
    → (text_eq x i ≡ false) ⊎ (has x seen ≡ true)
known_or_other x i seen k = elim (Bool-cases (text_eq x i)) [
  | inl e ↦ inr (subst (λ y. has y seen ≡ true) (sym (text_eq_sound x i e)) k)
  | inr e ↦ inl e
]

has-unseen_of :
    (x : Text) (ids seen : List Text)
    → (has x seen || has x (unseen_of ids seen)) ≡ (has x seen || has x ids)
has-unseen_of x [] seen = refl
has-unseen_of x (i ∷ is) seen = elim (Bool-cases (has i seen)) [
  | inr e ↦ rw (e, keep_if) (or_under (has x seen) (text_eq x i) _ _ (has-unseen_of x is seen))
  | inl e ↦
      rw (e, keep_if)
        (has-unseen_of x is seen
          ∙ or_skip (has x seen) (text_eq x i) (has x is) (known_or_other x i seen e))
]

abbrev pub watch_all : List (List Text) → BoardState → BoardState
watch_all [] s = s
watch_all (ids ∷ lists) s = watch_all lists (watch_answered ids s)

-- One answer of the watch, after the first.
record IsAnnounced (seen ids : List Text) (s t : BoardState) : Type 0 where
  after : List Text
  kept : t.seen_submitted ≡ some after
  unique : AreUnique after
  members : (x : Text) → has x after ≡ (has x seen || has x ids)
  counted : t.new_arrivals + length seen ≡ s.new_arrivals + length after

watch_answered-IsAnnounced :
    (seen ids : List Text) (s : BoardState)
    → s.seen_submitted ≡ some seen
    → AreUnique seen
    → AreUnique ids
    → IsAnnounced seen ids s (watch_answered ids s)
unfolding watch_answered
watch_answered-IsAnnounced seen ids s e u v =
    let (unique, size) =
      add_all-AreUnique (unseen_of ids seen) seen (keep_if-AreUnique _ ids v)
        (unseen_of-AreUnseen ids seen) u in
    rw (e, watch_answered)
      (record {
        after = add_all (unseen_of ids seen) seen;
        kept = refl;
        unique = unique;
        members = λ x. has-add_all x (unseen_of ids seen) seen ∙ has-unseen_of x ids seen;
        counted = omega arith;
      })

-- While answers of the watch come in, each without an order twice, the ids that the board has seen are
-- distinct, they are those seen before and those of the answers, and the count of new orders grows by
-- the number of ids that were not seen before: every order is announced once.
pub watch_all-announces :
    (lists : List (List Text)) (seen : List Text) (s : BoardState) (x : Text)
    → s.seen_submitted ≡ some seen
    → AreUnique seen
    → All AreUnique lists
    → (after : List Text) × ((watch_all lists s).seen_submitted ≡ some after)
      × AreUnique after
      × (has x after ≡ (has x seen || any (has x) lists))
      × ((watch_all lists s).new_arrivals + length seen ≡ s.new_arrivals + length after)
watch_all-announces [] seen s x e u v = (seen, e, u, sym (or_false (has x seen) false refl), refl)
watch_all-announces (ids ∷ lists) seen s x e u (v, vs) =
    let step = watch_answered-IsAnnounced seen ids s e u v in
    let (after, kept, unique, members, counted) =
      watch_all-announces lists step.after (watch_answered ids s) x step.kept step.unique vs in
    (
      after,
      kept,
      unique,
      members
          ∙ ap (λ b. b || any (has x) lists) (step.members x)
          ∙ sym (or_assoc (has x seen) (has x ids) (any (has x) lists)),
      omega (arith, step.counted),
    )
