-- ===== src/Session/Defs.antt =====
-- The session cache of the control center. The query client is a parameter: what its operations do
-- to the session entry and to the other entries. The module variable `sessionGeneration` and the
-- calls between an `await` and its answer are part of the state.
use restaurant_engine.Prelude.{
  ℕ, suc, Bool, true, false, ◌||◌, Option, none, some, List, ◌∷◌, ◌≡◌, ◌⊎◌, ◌==◌, keep_if, not,
  if◌then◌else◌,
}
use restaurant_engine.Prelude.Text.{Text, codes}
use restaurant_engine.Api.{ApiResult, ok, failed, Outcome, returned, thrown, unwrap}

pub record MembershipSummary : Type 0 where
  pub business_id : Text
  pub business_status : Text
  pub role : Text

-- The fields of the generated `SessionView` that the client reads.
pub record SessionView : Type 0 where
  pub csrf_token : Text
  pub is_platform_admin : Bool
  pub memberships : List MembershipSummary

pub data SessionState : Type 0 where
  authenticated : SessionView → Text → SessionState
  anonymous : SessionState

abbrev pub session_key : Text
session_key = codes "session"

-- TanStack Query's client: `entry` says that a query whose key starts so is cached, `session_stale`
-- that the session entry is marked as outdated. `cancelQueries` may do anything to the fetches in
-- flight. `invalidate_session` is given what the refetch of the entry yields, `none` where no view
-- observes it or the refetch fails: the entry is then marked and kept.
pub record QueryClient : Type 1 where
  pub Cache : Type 0
  pub get_session : Cache → Option SessionState
  pub set_session : SessionState → Cache → Cache
  pub entry : Text → Cache → Bool
  pub remove_others : Cache → Cache
  pub session_stale : Cache → Bool
  pub invalidate_session : Option SessionState → Cache → Cache
  pub cancel_queries : Cache → Cache
  pub get-set : (s : SessionState) (c : Cache) → get_session (set_session s c) ≡ some s
  pub get-remove : (c : Cache) → get_session (remove_others c) ≡ get_session c
  pub revalidated :
      (refetched : Option SessionState) (c : Cache)
      → ((get_session (invalidate_session refetched c) ≡ get_session c)
          × (session_stale (invalidate_session refetched c) ≡ true))
        ⊎ ((s : SessionState) × (refetched ≡ some s)
            × (get_session (invalidate_session refetched c) ≡ some s))
  pub get-cancel : (c : Cache) → get_session (cancel_queries c) ≡ get_session c
  pub removed : (k : Text) (c : Cache) → (k ≡ session_key) ⊎ (entry k (remove_others c) ≡ false)

-- `fetchSessionState`, with `none` for a `SessionBootstrapError`
unfoldable pub fetch_session_state : ApiResult SessionView → Option SessionState
fetch_session_state (ok status view) = some (authenticated view view.csrf_token)
fetch_session_state (failed (some status) envelope) = if status == 401 then some anonymous else none
fetch_session_state (failed none envelope) = none

-- What the refetch of the session entry yields, from the answer where one is asked for.
abbrev pub refetched_of : Option (ApiResult SessionView) → Option SessionState
refetched_of none = none
refetched_of (some answer) = fetch_session_state answer

-- How `establishSession` ends.
pub data Established : Type 0 where
  established : SessionState → Established
  stale_establishment : Established
  bootstrap_failed : Established

abbrev pub token_of : Option SessionState → Option Text
token_of (some (authenticated view token)) = some token
token_of _ = none

abbrev pub is_failed_with {ℓ} : {T : Type ℓ} → ℕ → ApiResult T → Bool
is_failed_with s (failed (some status) envelope) = status == s
is_failed_with s _ = false

abbrev pub is_ok {ℓ} : {T : Type ℓ} → ApiResult T → Bool
is_ok (ok status result) = true
is_ok (failed status envelope) = false

abbrev failure_of {ℓ} : {T : Type ℓ} → ApiResult T → Outcome (Unit {0})
failure_of (ok status result) = returned tt
failure_of (failed status envelope) = thrown (record { status = status; envelope = envelope })

module _ (queries : QueryClient) where
  open queries use {
    Cache, get_session, set_session, remove_others, invalidate_session, cancel_queries,
  }

  -- `in_flight` holds the generation that each unanswered attempt captured, the newest first.
  pub record World : Type 0 where
    pub session_generation : ℕ
    pub in_flight : List ℕ
    pub cache : Cache

  -- `establishSession` up to its `await`
  unfoldable pub establish_starts : World → World
  establish_starts w = record w {
    session_generation = suc w.session_generation;
    in_flight = suc w.session_generation ∷ w.in_flight;
  }

  abbrev pub commit : World → SessionState → World × Established
  commit w anonymous = (w, bootstrap_failed)
  commit w (authenticated view token) = (
    record w { cache = set_session (authenticated view token) w.cache },
    established (authenticated view token),
  )

  abbrev pub answered : ℕ → World → World
  answered generation w = record w { in_flight = keep_if (λ g. not (g == generation)) w.in_flight }

  abbrev pub settle : Option SessionState → ℕ → World → World × Established
  settle none generation w = (w, bootstrap_failed)
  settle (some state) generation w =
      if generation == w.session_generation then commit w state else (w, stale_establishment)

  -- `establishSession` behind its `await`, for the generation that it captured
  unfoldable pub establish_resumes : ℕ → ApiResult SessionView → World → World × Established
  unfolding fetch_session_state
  establish_resumes generation result w =
      settle (fetch_session_state result) generation (answered generation w)

  -- `clearAuthenticatedState` up to its `await`, and behind it
  unfoldable pub clear_starts : World → World
  clear_starts w = record w {
    session_generation = suc w.session_generation;
    cache = cancel_queries w.cache;
  }

  unfoldable pub clear_resumes : World → World
  clear_resumes w = record w { cache = remove_others (set_session anonymous w.cache) }

  unfoldable pub clear_authenticated_state : World → World
  unfolding clear_starts clear_resumes
  clear_authenticated_state w = clear_resumes (clear_starts w)

  unfoldable pub current_csrf_token : World → Option Text
  current_csrf_token w = token_of (get_session w.cache)

  unfoldable pub require_csrf : World → Outcome Text
  unfolding current_csrf_token
  require_csrf w = elim (current_csrf_token w) [
    | none ↦ thrown (record { status = some 401; envelope = none })
    | some token ↦ returned token
  ]

  -- `refetch` is the answer to the request that `invalidateQueries` makes, `none` where no view
  -- observes the session.
  unfoldable pub unwrap_privileged {ℓ} :
      {T : Type ℓ} → Option (ApiResult SessionView) → ApiResult T → World → World × Outcome T
  unfolding clear_authenticated_state unwrap
  unwrap_privileged refetch result w =
      let cleared = if is_failed_with 401 result then clear_authenticated_state w else w in
      let revalidated =
        if is_failed_with 403 result
        then record cleared { cache = invalidate_session (refetched_of refetch) cleared.cache }
        else cleared in
      (revalidated, unwrap result)

  -- What `useLogout` does with the server's answer.
  unfoldable pub finish_logout : ApiResult (Unit {0}) → World → World × Outcome (Unit {0})
  unfolding clear_authenticated_state
  finish_logout result w =
      if is_ok result || is_failed_with 401 result
      then (clear_authenticated_state w, returned tt)
      else (w, failure_of result)

  -- `useLogout`'s mutation; `answer` is what the server would say to the token.
  unfoldable pub logout : (Text → ApiResult (Unit {0})) → World → World × Outcome (Unit {0})
  unfolding current_csrf_token finish_logout clear_authenticated_state
  logout answer w = elim (current_csrf_token w) [
    | none ↦ (clear_authenticated_state w, returned tt)
    | some token ↦ finish_logout (answer token) w
  ]
