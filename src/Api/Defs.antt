-- ===== src/Api/Defs.antt =====
-- The error envelope, how it is narrowed from a parsed body, and what a failure means.
use restaurant_engine.Prelude.{
  ℕ, String, Bool, true, false, ◌&&◌, ◌||◌, Option, none, some, List, [], ◌∷◌, map, all, ◌==◌,
  if◌then◌else◌,
}
use restaurant_engine.Prelude.Int.{pos}
use restaurant_engine.Prelude.Text.{Text}
use restaurant_engine.Prelude.Splitting.{join}
use restaurant_engine.Js.{
  int, Json, null, num, str, arr, obj, Fields, to_list, get, is_string, is_null,
}

pub record FieldError : Type 0 where
  pub field : Text
  pub code : Text
  pub message : Text

-- `details` is an open object, or null; an absent one is read as null.
pub record ErrorEnvelope : Type 0 where
  pub code : Text
  pub message : Text
  pub correlation_id : Option Text
  pub field_errors : List FieldError
  pub details : Option Fields

-- `isPlainObject`
abbrev pub is_plain_object : Json → Bool
is_plain_object (obj fs) = true
is_plain_object _ = false

unfoldable pub is_field_error : Json → Bool
is_field_error value =
    is_plain_object value
    && is_string (get "field" value)
    && is_string (get "code" value)
    && is_string (get "message" value)

abbrev pub is_field_error_array : Option Json → Bool
is_field_error_array (some (arr vs)) = all is_field_error (to_list vs)
is_field_error_array _ = false

-- `details === undefined || details === null || isPlainObject(details)`
abbrev pub is_details : Option Json → Bool
is_details none = true
is_details (some null) = true
is_details (some v) = is_plain_object v

abbrev pub is_detail : Option Json → Bool
is_detail none = false
is_detail (some detail) =
    is_plain_object detail
    && is_string (get "code" detail)
    && is_string (get "message" detail)
    && (is_null (get "correlation_id" detail) || is_string (get "correlation_id" detail))
    && is_field_error_array (get "field_errors" detail)
    && is_details (get "details" detail)

unfoldable pub is_error_envelope : Json → Bool
unfolding is_field_error
is_error_envelope value = is_plain_object value && is_detail (get "error" value)

-- The narrowed value.
abbrev pub text_at : String → Json → Text
text_at k v = elim (get k v) [ some w ↦ elim w [ str s ↦ s | _ ↦ [] ] | none ↦ [] ]

abbrev pub nullable_text_at : String → Json → Option Text
nullable_text_at k v = elim (get k v) [
  | some w ↦ elim w [ str s ↦ some s | _ ↦ none ]
  | none ↦ none
]

abbrev pub list_at : String → Json → List Json
list_at k v = elim (get k v) [ some w ↦ elim w [ arr vs ↦ to_list vs | _ ↦ [] ] | none ↦ [] ]

abbrev pub fields_at : String → Json → Option Fields
fields_at k v = elim (get k v) [ some w ↦ elim w [ obj fs ↦ some fs | _ ↦ none ] | none ↦ none ]

unfoldable pub as_field_error : Json → FieldError
as_field_error v = record {
  field = text_at "field" v;
  code = text_at "code" v;
  message = text_at "message" v;
}

abbrev pub as_detail : Json → ErrorEnvelope
as_detail v = record {
  code = text_at "code" v;
  message = text_at "message" v;
  correlation_id = nullable_text_at "correlation_id" v;
  field_errors = map as_field_error (list_at "field_errors" v);
  details = fields_at "details" v;
}

unfoldable pub as_error_envelope : Json → ErrorEnvelope
unfolding as_field_error
as_error_envelope v = elim (get "error" v) [
  | some detail ↦ as_detail detail
  | none ↦ as_detail null
]

-- `ok` carries the status and the data; a failure has no status where the request never completed.
pub data ApiResult {ℓ} (T : Type ℓ) : Type ℓ where
  ok : ℕ → T → ApiResult T
  failed : Option ℕ → Option ErrorEnvelope → ApiResult T

-- `none` for data or an error is `undefined`; only the response's status is read.
unfoldable pub to_result {ℓ} : {T : Type ℓ} → Option T → Option Json → ℕ → ApiResult T
unfolding is_error_envelope as_error_envelope
to_result (some result) error status = ok status result
to_result none none status = failed (some status) none
to_result none (some error) status =
    failed (some status) (if is_error_envelope error then some (as_error_envelope error) else none)

pub record ApiFailure : Type 0 where
  pub status : Option ℕ
  pub envelope : Option ErrorEnvelope

-- A call returns a value or throws an `ApiFailure`.
pub data Outcome {ℓ} (T : Type ℓ) : Type ℓ where
  returned : T → Outcome T
  thrown : ApiFailure → Outcome T

unfoldable pub unwrap {ℓ} : {T : Type ℓ} → ApiResult T → Outcome T
unwrap (ok status result) = returned result
unwrap (failed status envelope) = thrown (record { status = status; envelope = envelope })

pub data FailureKind : Type 0 where
  auth denied gone conflict invalid too_large offline other_kind : FailureKind

unfoldable pub classify_status : ℕ → FailureKind
classify_status status =
    if status == 401
    then auth
    else if status == 403
    then denied
    else if status == 404
    then gone
    else if status == 409
    then conflict
    else if status == 413
    then too_large
    else if status == 422
    then invalid
    else other_kind

unfoldable pub classify_failure : ApiFailure → FailureKind
unfolding classify_status
classify_failure failure = elim failure.status [ none ↦ offline | some s ↦ classify_status s ]

abbrev pub limit_of : Option Json → Option ℕ
limit_of (some (num (int (pos n)))) = some n
limit_of _ = none

unfoldable pub conflict_limit : ApiFailure → Option ℕ
conflict_limit failure = elim failure.envelope [
  | none ↦ none
  | some envelope ↦ elim envelope.details [
    | none ↦ none
    | some details ↦ limit_of (get "limit" (obj details))
  ]
]

-- `hoursFailure` and `ordersFailure`: the message and every field error's message, joined by spaces.
unfoldable pub failure_summary : ApiFailure → Text → Text
failure_summary failure fallback = elim failure.envelope [
  | none ↦ fallback
  | some envelope ↦
      join b' ' (envelope.message ∷ map (λ (e : FieldError). e.message) envelope.field_errors)
]

pub record DateWindow : Type 0 where
  pub start : Text
  pub end : Text

abbrev pub window_of : Option Json → Option Json → Option DateWindow
window_of (some (str start)) (some (str end)) = some (record { start = start; end = end })
window_of _ _ = none

unfoldable pub exception_window : ApiFailure → Option DateWindow
exception_window failure = elim failure.envelope [
  | none ↦ none
  | some envelope ↦ elim envelope.details [
    | none ↦ none
    | some details ↦ window_of (get "window_start" (obj details)) (get "window_end" (obj details))
  ]
]
