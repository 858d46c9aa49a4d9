-- ===== src/Api/Tests.antt =====
-- Bodies, envelopes and failures on concrete input, and the theorems at them.
use restaurant_engine.Prelude.{true, false, none, some, [], ◌∷◌, ◌≡◌, refl}
use restaurant_engine.Prelude.Int.{pos, negsuc}
use restaurant_engine.Prelude.Text.{codes}
use restaurant_engine.Prelude.Splitting.{join}
use restaurant_engine.Js.{int, Json, Fields, null, num, str, arr, obj, nil, end, field}
use restaurant_engine.Api.Defs.{
  ErrorEnvelope, ApiFailure, to_result, is_error_envelope, as_error_envelope, is_field_error,
  as_field_error, classify_failure, classify_status, conflict, offline, conflict_limit,
  failure_summary, exception_window,
}

api_runs : Unit {0}
unfolding to_result is_error_envelope as_error_envelope is_field_error as_field_error
    classify_failure classify_status conflict_limit failure_summary exception_window join
api_runs = tt

abbrev limits : Fields
limits = field "limit" (num (int (pos 3))) end

abbrev window : Fields
window =
    field "window_start" (str (codes "2026-01-01"))
      (field "window_end" (str (codes "2026-03-01")) end)

abbrev envelope : Fields → ErrorEnvelope
envelope details = record {
  code = codes "conflict";
  message = codes "Too many.";
  correlation_id = none;
  field_errors = record { field = codes "name"; code = codes "x"; message = codes "No." } ∷ [];
  details = some details;
}

abbrev failure : Fields → ApiFailure
failure details = record { status = some 409; envelope = some (envelope details) }

failures :
    (classify_failure (failure limits) ≡ conflict)
    × (classify_failure (record { status = none; envelope = none }) ≡ offline)
    × (conflict_limit (failure limits) ≡ some 3)
    × (conflict_limit (failure (field "limit" (num (int (negsuc 0))) end)) ≡ none)
    × (failure_summary (failure limits) [] ≡ codes "Too many. No.")
    × (exception_window (failure limits) ≡ none)
    × (exception_window (failure window)
        ≡ some (record { start = codes "2026-01-01"; end = codes "2026-03-01" }))
unfolding api_runs
failures = (refl, refl, refl, refl, refl, refl, refl)

-- A body with no field errors, or a code that is no text, is no envelope.
malformed :
    (is_error_envelope
        (obj (field "error" (obj (field "code" (str []) (field "message" (str []) end))) end))
      ≡ false)
    × (is_error_envelope (arr nil) ≡ false)
    × (is_error_envelope (
          obj (
            field "error"
              (obj (
                field "code" null (
                  field "message"
                    (str [])
                    (field "correlation_id" null (field "field_errors" (arr nil) end)))))
              end))
        ≡ false)
    × (is_error_envelope (
          obj (
            field "error"
              (obj (
                field "code" (str []) (
                  field "message"
                    (str [])
                    (field "correlation_id" null (field "field_errors" (arr nil) end)))))
              end))
        ≡ true)
unfolding api_runs
malformed = (refl, refl, refl, refl)

abbrev page : Json
page = str (codes "<html>")
