-- ===== src/Client/Outcomes.antt =====
-- What a caller gets from a method of the client: `unwrap` of its result, and the failure's kind.
use restaurant_engine.Prelude.{
  ℕ, Bool, true, false, ◌==◌, Option, none, some, ◌≡◌, refl, if◌then◌else◌,
}
use restaurant_engine.Api.{
  Outcome, ErrorEnvelope, thrown, returned, unwrap, to_result, classify_failure, classify_status,
  FailureKind, offline,
}
use restaurant_engine.Client.Defs.{Reply, threw, answered, result_of}

abbrev pub is_offline : FailureKind → Bool
is_offline offline = true
is_offline _ = false

either_online :
    (b : Bool) (x y : FailureKind)
    → is_offline x ≡ false
    → is_offline y ≡ false
    → is_offline (if b then x else y) ≡ false
either_online true x y p q = p
either_online false x y p q = q

classify_status-online : (s : ℕ) → is_offline (classify_status s) ≡ false
unfolding classify_status
classify_status-online s = either_online (s == 401) _ _ refl (
    either_online (s == 403) _ _ refl (
      either_online (s == 404) _ _ refl (
        either_online (s == 409) _ _ refl
          (either_online (s == 413) _ _ refl (either_online (s == 422) _ _ refl refl)))))

-- A failure whose kind is known to be offline, or known not to be.
abbrev pub IsThrown {ℓ} : {T : Type ℓ} → Outcome T → Option ℕ → Bool → Type ℓ
IsThrown outcome status gone =
    (envelope : Option ErrorEnvelope) × (outcome
      ≡ thrown (record { status = status; envelope = envelope }))
    × (is_offline (classify_failure (record { status = status; envelope = envelope })) ≡ gone)

abbrev pub IsReported {ℓ} : {T : Type ℓ} → Reply T → Type ℓ
unfolding result_of unwrap IsThrown
IsReported {T = T} threw = IsThrown {T = T} (unwrap (result_of threw)) none true
IsReported (answered (some result) error status) =
    unwrap (result_of (answered (some result) error status)) ≡ returned result
IsReported {T = T} (answered none error status) =
    IsThrown {T = T} (unwrap (result_of (answered none error status))) (some status) false

-- A method returns exactly the data that the backend sent. It throws a failure in every other
-- case: one without a status, which counts as offline, where the request never completed, and one
-- with the response's status, which never counts as offline, where the response had no data.
pub result_of-IsReported {ℓ} : {T : Type ℓ} (reply : Reply T) → IsReported reply
unfolding result_of to_result unwrap classify_failure
result_of-IsReported threw = (none, refl, refl)
result_of-IsReported (answered (some result) error status) = refl
result_of-IsReported (answered none none status) = (none, refl, classify_status-online status)
result_of-IsReported (answered none (some error) status) = (_, refl, classify_status-online status)
