-- ===== src/Session/PairClient.antt =====
-- A query client that is a cell of the session entry and two marks, to run the session at.
use restaurant_engine.Prelude.{
  Bool, true, false, Option, none, some, ◌≡◌, ◌⊎◌, refl, inl, inr, Bool-cases, if◌then◌else◌,
}
use restaurant_engine.Prelude.Text.{Text, text_eq, text_eq_sound}
use restaurant_engine.Session.Defs.{SessionState, session_key, QueryClient}

-- The session entry, whether anything else is cached, and whether the entry is outdated.
abbrev pub Cells : Type 0
Cells = Option SessionState × Bool × Bool

pub entry_of : Text → Cells → Bool
entry_of k c = if text_eq k session_key then true else c.1

pub removed_of : (k : Text) (c : Cells) → (k ≡ session_key) ⊎ (entry_of k (c.0, false, c.2) ≡ false)
unfolding entry_of
removed_of k c = elim (Bool-cases (text_eq k session_key)) [
  | inl same ↦ inl (text_eq_sound k session_key same)
  | inr other ↦ inr (rw other refl)
]

unfoldable pub invalidated_of : Option SessionState → Cells → Cells
invalidated_of none c = (c.0, c.1, true)
invalidated_of (some s) c = (some s, c.1, false)

pub revalidated_of :
    (refetched : Option SessionState) (c : Cells)
    → (((invalidated_of refetched c).0 ≡ c.0) × ((invalidated_of refetched c).2 ≡ true))
      ⊎ ((s : SessionState) × (refetched ≡ some s) × ((invalidated_of refetched c).0 ≡ some s))
unfolding invalidated_of
revalidated_of none c = inl (refl, refl)
revalidated_of (some s) c = inr (s, refl, refl)

abbrev pub pair_client : QueryClient
pair_client = record {
  Cache = Cells;
  get_session = λ c. c.0;
  set_session = λ s c. (some s, c.1, false);
  entry = λ k c. entry_of k c;
  remove_others = λ c. (c.0, false, c.2);
  session_stale = λ c. c.2;
  invalidate_session = λ refetched c. invalidated_of refetched c;
  cancel_queries = λ c. c;
  get-set = λ s c. refl;
  get-remove = λ c. refl;
  revalidated = λ refetched c. revalidated_of refetched c;
  get-cancel = λ c. refl;
  removed = λ k c. removed_of k c;
}
