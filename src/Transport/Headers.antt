-- ===== src/Transport/Headers.antt =====
-- The headers that reach the backend.
use restaurant_engine.Prelude.{
  Bool, true, false, not, Option, none, some, List, [], ◌∷◌, ◌≡◌, refl, sym, ap, subst, ◌∙◌, inl,
  inr, Bool-cases, if◌then◌else◌,
}
use restaurant_engine.Prelude.Options.{or_else, or_else_assoc, or_else_found, or_else_missing}
use restaurant_engine.Prelude.Text.{Text, codes, text_eq, text_eq_sound}
use restaurant_engine.Transport.Defs.{
  Header, is_stripped, set_header, get_header, copy_headers, wire_headers,
}

-- Two texts that differ from a third alike.
text_eq_along : (s t u : Text) (b : Bool) → text_eq s t ≡ true → text_eq t u ≡ b → text_eq s u ≡ b
text_eq_along s t u b same e = subst (λ r. text_eq r u ≡ b) (sym (text_eq_sound s t same)) e

differs : (s t u : Text) → text_eq s t ≡ false → text_eq s u ≡ true → text_eq t u ≡ false
differs s t u other same = elim (Bool-cases (text_eq t u)) [
  | inr e ↦ e
  | inl e ↦
      absurd (
        clash (text_eq s t) other
          (subst (λ r. text_eq s r ≡ true) (sym (text_eq_sound t u e)) same))
]
  where
    clash : (b : Bool) → b ≡ false → b ≡ true → ⊥
    clash b e f = cc

pub get_header-set_header :
    (k j v : Text) (hs : List Header)
    → get_header k (set_header j v hs) ≡ (if text_eq j k then some v else get_header k hs)
unfolding get_header set_header
get_header-set_header k j v [] = refl
get_header-set_header k j v (h ∷ hs) = elim (Bool-cases (text_eq h.name j)) [
  | inr other ↦ elim (Bool-cases (text_eq h.name k)) [
    | inr away ↦ rw (other, away, get_header) (get_header-set_header k j v hs)
    | inl found ↦ rw (other, found, differs h.name j k other found, get_header) refl
  ]
  | inl same ↦ elim (Bool-cases (text_eq j k)) [
    | inl hit ↦ rw (same, hit, get_header) refl
    | inr miss ↦ rw (same, miss, text_eq_along h.name j k false same miss, get_header) refl
  ]
]

-- The value of the last header of a name in lower case.
abbrev pub last_value : (Text → Text) → Text → List Header → Option Text
last_value lower_case k [] = none
last_value lower_case k (h ∷ hs) =
    or_else (last_value lower_case k hs)
      (if text_eq (lower_case h.name) k then some h.value else none)

unsent :
    (b : Bool) (o : Option Text) → (if b then none else or_else o none) ≡ (if b then none else o)
unfolding or_else
unsent true o = refl
unsent false none = refl
unsent false (some v) = refl

-- Names that are stripped and names that are not differ.
stripped_apart :
    (s t : Text) (b : Bool) → is_stripped s ≡ b → is_stripped t ≡ not b → text_eq s t ≡ false
stripped_apart s t b h k = elim (Bool-cases (text_eq s t)) [
  | inr e ↦ e
  | inl e ↦ absurd (opposite b (sym h ∙ ap is_stripped (text_eq_sound s t e) ∙ k))
]
  where
    opposite : (b : Bool) → b ≡ not b → ⊥
    opposite true e = cc
    opposite false e = cc

module _ (lower_case : Text → Text) where
  -- The value that a name has after the loop.
  abbrev copied : Text → Option Text → Option Text → Option Text
  copied k last before = if is_stripped k then before else or_else last before

  copied_stripped :
      (k : Text) (h : Header) (hs : List Header) (before : Option Text)
      → is_stripped (lower_case h.name) ≡ true
      → copied k (last_value lower_case k hs) before
        ≡ copied k (last_value lower_case k (h ∷ hs)) before
  copied_stripped k h hs before s = elim (Bool-cases (is_stripped k)) [
    | inl hidden ↦ rw hidden refl
    | inr free ↦
        rw (free, stripped_apart (lower_case h.name) k true s free)
          (sym (
            or_else_assoc (last_value lower_case k hs) none before
            ∙ ap (or_else (last_value lower_case k hs)) (or_else_missing before)))
  ]

  copied_kept :
      (k : Text) (h : Header) (hs : List Header) (before : Option Text)
      → is_stripped (lower_case h.name) ≡ false
      → copied k
          (last_value lower_case k hs)
          (if text_eq (lower_case h.name) k then some h.value else before)
        ≡ copied k (last_value lower_case k (h ∷ hs)) before
  copied_kept k h hs before s = elim (Bool-cases (is_stripped k)) [
    | inl hidden ↦ rw (hidden, stripped_apart (lower_case h.name) k false s hidden) refl
    | inr free ↦ elim (Bool-cases (text_eq (lower_case h.name) k)) [
      | inl hit ↦
          rw (free, hit)
            (sym (
              or_else_assoc (last_value lower_case k hs) (some h.value) before
              ∙ ap (or_else (last_value lower_case k hs)) (or_else_found h.value before)))
      | inr miss ↦
          rw (free, miss)
            (sym (
              or_else_assoc (last_value lower_case k hs) none before
              ∙ ap (or_else (last_value lower_case k hs)) (or_else_missing before)))
    ]
  ]

  get_header-copy_headers :
      (k : Text) (hs out : List Header)
      → get_header k (copy_headers lower_case hs out)
        ≡ copied k (last_value lower_case k hs) (get_header k out)
  unfolding copy_headers
  get_header-copy_headers k [] out = elim (Bool-cases (is_stripped k)) [
    | inl hidden ↦ rw hidden refl
    | inr free ↦ rw free (sym (or_else_missing (get_header k out)))
  ]
  get_header-copy_headers k (h ∷ hs) out = elim (Bool-cases (is_stripped (lower_case h.name))) [
    | inl s ↦ rw s (get_header-copy_headers k hs out ∙ copied_stripped k h hs (get_header k out) s)
    | inr s ↦ rw s (
        get_header-copy_headers k hs (set_header (lower_case h.name) h.value out)
        ∙ ap (copied k (last_value lower_case k hs))
            (get_header-set_header k (lower_case h.name) h.value out)
        ∙ copied_kept k h hs (get_header k out) s)
  ]

  -- The backend gets the tenant's host and nothing but it under `host`; no cookie, authorization,
  -- forwarding or tenant-selection header; and under every other name the last value that the
  -- request has for it.
  pub get_header-wire_headers :
      (k : Text) (request_headers : List Header) (tenant_host : Text)
      → get_header k (wire_headers lower_case request_headers tenant_host) ≡ (
          if text_eq (codes "host") k
          then some tenant_host
          else if is_stripped k
          then none
          else last_value lower_case k request_headers)
  unfolding wire_headers get_header
  get_header-wire_headers k hs tenant_host =
      get_header-set_header k (codes "host") tenant_host (copy_headers lower_case hs [])
      ∙ ap (λ o. if text_eq (codes "host") k then some tenant_host else o)
          (get_header-copy_headers k hs [] ∙ unsent (is_stripped k) (last_value lower_case k hs))
