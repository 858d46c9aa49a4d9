-- ===== src/Pages/Answers.antt =====
-- The islands read an error as the API client does.
use restaurant_engine.Prelude.{ℕ, false, Option, none, some, ◌≡◌, ◌⊎◌, inl, inr, refl, ap}
use restaurant_engine.Js.{Json, Fields, obj, get}
use restaurant_engine.Api.{ErrorEnvelope, failed, to_result}
use restaurant_engine.Api.Envelopes.{
  IsEnvelopeOf, to_result-IsEnvelopeOf, envelope_value, details_value, to_result-envelope_value,
}
use restaurant_engine.Pages.Defs.{answered, denied, public_fetch, details_of}

envelope_code :
    (body : Json) (status : ℕ) (e : ErrorEnvelope)
    → IsEnvelopeOf e body
    → (details : Option Json) × (public_fetch (answered false status body)
        ≡ denied (some status) (some e.code) details)
unfolding public_fetch
envelope_code body status e (detail, errors, error, code, _, _, _, _) =
    (details_of (get "details" detail), rw (error, code) refl)

-- The details of an envelope as an island gets them.
abbrev pub details_json : Option Fields → Option Json
details_json none = none
details_json (some fs) = some (obj fs)

details_read : (d : Option Fields) → details_of (some (details_value d)) ≡ details_json d
details_read none = refl
details_read (some fs) = refl

public_fetch-envelope_value :
    (e : ErrorEnvelope) (status : ℕ)
    → public_fetch (answered false status (envelope_value e))
      ≡ denied (some status) (some e.code) (details_json e.details)
unfolding public_fetch
public_fetch-envelope_value e status =
    ap (denied (some status) (some e.code)) (details_read e.details)

to_result-agrees :
    (body : Json) (status : ℕ)
    → (to_result {T = Json} none (some body) status ≡ failed (some status) none)
      ⊎ ((e : ErrorEnvelope) × (details : Option Json) × (to_result {T = Json} none
              (some body)
              status
            ≡ failed (some status) (some e))
          × (public_fetch (answered false status body)
              ≡ denied (some status) (some e.code) details))
to_result-agrees body status = elim (to_result-IsEnvelopeOf {T = Json} body status) [
  | inl h ↦ inl h
  | inr (e, same, envelope) ↦
      let (details, agrees) = envelope_code body status e envelope in inr (e, details, same, agrees)
]

-- A refused response that carries an error envelope, as the server prints it, reaches the API client's
-- caller as that envelope and an island's as its code and its details, both with the status of the
-- response. From any other refused body too, where the client finds an envelope, the island reads
-- the same status and code.
pub public_fetch-to_result :
    (e : ErrorEnvelope) (body : Json) (status : ℕ)
    → (to_result {T = Json} none (some (envelope_value e)) status ≡ failed (some status) (some e))
      × (public_fetch (answered false status (envelope_value e))
          ≡ denied (some status) (some e.code) (details_json e.details))
      × ((to_result {T = Json} none (some body) status ≡ failed (some status) none)
          ⊎ ((found : ErrorEnvelope) × (details : Option Json) × (to_result {T = Json} none
                  (some body)
                  status
                ≡ failed (some status) (some found))
              × (public_fetch (answered false status body)
                  ≡ denied (some status) (some found.code) details)))
public_fetch-to_result e body status = (
  to_result-envelope_value {T = Json} e status,
  public_fetch-envelope_value e status,
  to_result-agrees body status,
)
