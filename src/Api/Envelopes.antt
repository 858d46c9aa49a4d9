-- ===== src/Api/Envelopes.antt =====
-- Error bodies and what the program reads from them.
use restaurant_engine.Prelude.{
  ℕ, Bool, true, ◌||◌, Option, none, some, List, [], ◌∷◌, map, ◌≡◌, ◌⊎◌, inl, inr, refl, ap, all,
  All, &&-true, &&-parts, String, arith, Bool-cases,
}
use restaurant_engine.Prelude.Text.{Text}
use restaurant_engine.Js.{
  Json, Items, null, str, arr, obj, Fields, end, field, get, to_list, from_list, is_string, is_null,
}
use restaurant_engine.Api.Defs.{
  FieldError, ErrorEnvelope, is_field_error, is_error_envelope, as_field_error, as_error_envelope,
  failed, to_result, is_details, is_plain_object, is_detail, is_field_error_array, text_at, list_at,
  as_detail, nullable_text_at, fields_at,
}

-- The body that a server sends for an envelope.
abbrev pub field_error_value : FieldError → Json
field_error_value e =
    obj (
      field "field" (str e.field) (field "code" (str e.code) (field "message" (str e.message) end)))

abbrev pub nullable_text_value : Option Text → Json
nullable_text_value none = null
nullable_text_value (some s) = str s

abbrev pub details_value : Option Fields → Json
details_value none = null
details_value (some fs) = obj fs

abbrev pub envelope_value : ErrorEnvelope → Json
envelope_value e = obj (
    field "error"
      (obj (
        field "code" (str e.code) (
          field "message" (str e.message) (
            field "correlation_id" (nullable_text_value e.correlation_id) (
              field "field_errors" (arr (from_list (map field_error_value e.field_errors)))
                (field "details" (details_value e.details) end))))))
      end)

errors_checked :
    (es : List FieldError)
    → all is_field_error (to_list (from_list (map field_error_value es))) ≡ true
unfolding is_field_error
errors_checked [] = refl
errors_checked (e ∷ es) = errors_checked es

errors_read :
    (es : List FieldError)
    → map as_field_error (to_list (from_list (map field_error_value es))) ≡ es
unfolding as_field_error
errors_read [] = refl
errors_read (e ∷ es) = ap (λ l. e ∷ l) (errors_read es)

nullable_text_checked :
    (s : Option Text)
    → (is_null (some (nullable_text_value s)) || is_string (some (nullable_text_value s))) ≡ true
nullable_text_checked none = refl
nullable_text_checked (some s) = refl

details_checked : (d : Option Fields) → is_details (some (details_value d)) ≡ true
details_checked none = refl
details_checked (some fs) = refl

nullable_text_read :
    (s : Option Text) → nullable_text_at "k" (obj (field "k" (nullable_text_value s) end)) ≡ s
nullable_text_read none = refl
nullable_text_read (some s) = refl

details_read : (d : Option Fields) → fields_at "k" (obj (field "k" (details_value d) end)) ≡ d
details_read none = refl
details_read (some fs) = refl

envelope_checked : (e : ErrorEnvelope) → is_error_envelope (envelope_value e) ≡ true
unfolding is_error_envelope
envelope_checked e =
    &&-true _ _
      (&&-true _ _ (nullable_text_checked e.correlation_id) (errors_checked e.field_errors))
      (details_checked e.details)

envelope_read : (e : ErrorEnvelope) → as_error_envelope (envelope_value e) ≡ e
unfolding as_error_envelope
envelope_read e =
    cc (nullable_text_read e.correlation_id, errors_read e.field_errors, details_read e.details)

-- An error body that prints an envelope reaches the caller as that envelope, with the status of
-- the response: code, message, correlation id, every field error and the details.
pub to_result-envelope_value {ℓ} :
    {T : Type ℓ} (e : ErrorEnvelope) (status : ℕ)
    → to_result {T = T} none (some (envelope_value e)) status ≡ failed (some status) (some e)
unfolding to_result
to_result-envelope_value e status = rw (envelope_checked e) (rw (envelope_read e) refl)

-- A field error of the body, as the caller reads it.
abbrev pub IsFieldErrorOf : FieldError → Json → Type 0
IsFieldErrorOf e v =
    (get "field" v ≡ some (str e.field))
    × (get "code" v ≡ some (str e.code))
    × (get "message" v ≡ some (str e.message))

is_string-text_at :
    (k : String) (v : Json) → is_string (get k v) ≡ true → get k v ≡ some (str (text_at k v))
is_string-text_at k v h = ground arith

as_field_error-IsFieldErrorOf :
    (v : Json) → is_field_error v ≡ true → IsFieldErrorOf (as_field_error v) v
unfolding is_field_error as_field_error
as_field_error-IsFieldErrorOf v h = ground arith

-- An envelope whose code, message and field errors are those of the body.
abbrev pub IsEnvelopeOf : ErrorEnvelope → Json → Type 0
IsEnvelopeOf e body =
    (detail : Json) × (errors : Items) × (get "error" body ≡ some detail)
    × (get "code" detail ≡ some (str e.code))
    × (get "message" detail ≡ some (str e.message))
    × (get "field_errors" detail ≡ some (arr errors))
    × (e.field_errors ≡ map as_field_error (to_list errors))
    × All (λ v. IsFieldErrorOf (as_field_error v) v) (to_list errors)

all-All {ℓ} :
    {A : Type ℓ} (P : A → Type 0) (p : A → Bool)
    → ((a : A) → p a ≡ true → P a)
    → (xs : List A) → all p xs ≡ true
    → All P xs
all-All P p h [] e = tt
all-All P p h (x ∷ xs) e =
    let (here, later) = &&-parts (p x) (all p xs) e in (h x here, all-All P p h xs later)

array_parts :
    (v : Option Json)
    → is_field_error_array v ≡ true
    → (errors : Items) × (v ≡ some (arr errors)) × (all is_field_error (to_list errors) ≡ true)
array_parts (some (arr vs)) h = (vs, refl, h)
array_parts (some _) h = absurd (ground arith)
array_parts none h = absurd (ground arith)

fields_read :
    (detail : Json) (errors : Items)
    → get "field_errors" detail ≡ some (arr errors)
    → (as_detail detail).field_errors ≡ map as_field_error (to_list errors)
fields_read detail errors listed = rw (listed, list_at) refl

detail_parts :
    (body detail : Json)
    → get "error" body ≡ some detail
    → is_detail (some detail) ≡ true
    → IsEnvelopeOf (as_detail detail) body
detail_parts body detail found h =
    let (errors, listed, checked) = array_parts (get "field_errors" detail) (ground arith) in
    (
      detail,
      errors,
      found,
      is_string-text_at "code" detail (ground arith),
      is_string-text_at "message" detail (ground arith),
      listed,
      fields_read detail errors listed,
      all-All (λ v. IsFieldErrorOf (as_field_error v) v) is_field_error
          as_field_error-IsFieldErrorOf (to_list errors) checked,
    )

error_parts :
    (body : Json) (error : Option Json)
    → get "error" body ≡ error
    → is_detail error ≡ true
    → IsEnvelopeOf (elim error [ some detail ↦ as_detail detail | none ↦ as_detail null ]) body
error_parts body none found h = absurd (ground arith)
error_parts body (some detail) found h = detail_parts body detail found h

accepted-IsEnvelopeOf :
    (body : Json) → is_error_envelope body ≡ true → IsEnvelopeOf (as_error_envelope body) body
unfolding is_error_envelope as_error_envelope
accepted-IsEnvelopeOf body h =
    error_parts body (get "error" body) refl
      (&&-parts (is_plain_object body) (is_detail (get "error" body)) h).1

-- A failed response keeps its status; its body becomes no envelope, or one whose code, message and
-- field errors stand in the body as texts: nothing malformed is passed on, nothing is made up.
pub to_result-IsEnvelopeOf {ℓ} :
    {T : Type ℓ} (body : Json) (status : ℕ)
    → (to_result {T = T} none (some body) status ≡ failed (some status) none)
      ⊎ ((e : ErrorEnvelope) × (to_result {T = T} none (some body) status
            ≡ failed (some status) (some e))
          × IsEnvelopeOf e body)
unfolding to_result
to_result-IsEnvelopeOf body status = elim (Bool-cases (is_error_envelope body)) [
  | inl good ↦ inr (as_error_envelope body, rw good refl, accepted-IsEnvelopeOf body good)
  | inr bad ↦ inl (rw bad refl)
]
