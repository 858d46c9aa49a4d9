-- ===== src/Session/Privileged.antt =====
-- What a privileged answer does to the session (`unwrapPrivileged` and `useLogout`).
use restaurant_engine.Prelude.{
  ℕ, true, false, Option, none, some, ◌≡◌, ◌≢◌, ◌⊎◌, refl, ap, inl, inr, arith, ◌==◌, Bool-cases,
  Option-cases,
}
use restaurant_engine.Prelude.Text.{Text}
use restaurant_engine.Api.{ApiFailure, ApiResult, ok, failed, Outcome, returned, thrown, unwrap}
use restaurant_engine.Session.Defs.{
  SessionView, SessionState, refetched_of, anonymous, QueryClient, World, clear_starts, session_key,
  clear_authenticated_state, clear_resumes, is_failed_with, unwrap_privileged, logout,
  finish_logout, current_csrf_token,
}
use restaurant_engine.Session.Races.{clear_resumes-IsSignedOut, IsSignedOut}

value_of : ℕ → Option ℕ → ℕ
value_of d none = d
value_of d (some n) = n

some_other : (s : ℕ) → (s == 401) ≡ false → some s ≢ some 401
unfolding value_of
some_other s h e = let same : s ≡ 401 = ap (λ o. value_of 0 o) e in ground arith

module _ (queries : QueryClient) where
  open queries use {
    Cache, get_session, entry, removed, revalidated, set_session, session_stale, invalidate_session,
  }

  -- Nothing of the signed-in user is left.
  abbrev pub IsCleared : World queries → Type 0
  IsCleared w = IsSignedOut queries w × ((k : Text) → (k ≡ session_key) ⊎ (entry k w.cache ≡ false))

  clear_authenticated_state-IsCleared :
      (w : World queries) → IsCleared (clear_authenticated_state queries w)
  unfolding clear_authenticated_state clear_resumes
  clear_authenticated_state-IsCleared w = (
    clear_resumes-IsSignedOut queries (clear_starts queries w),
    λ k. removed k (set_session anonymous (clear_starts queries w).cache),
  )

  -- The session entry is either kept and marked as outdated, or it is what the refetch yields, and
  -- no attempt to establish a session is touched.
  abbrev pub IsRevalidated : Option (ApiResult SessionView) → World queries → World queries → Type 0
  IsRevalidated refetch w next =
      (next.session_generation ≡ w.session_generation)
      × (next.in_flight ≡ w.in_flight)
      × (((get_session next.cache ≡ get_session w.cache) × (session_stale next.cache ≡ true))
          ⊎ ((s : SessionState) × (refetched_of refetch ≡ some s)
              × (get_session next.cache ≡ some s)))

  -- A privileged answer is passed on unchanged: data is returned, a failure is thrown with its status
  -- and envelope. A 401 clears every trace of the user. A 403 keeps the session entry and marks it as
  -- outdated, or replaces it by what its refetch yields, and touches no attempt to establish a
  -- session. Any other answer leaves the world alone.
  pub unwrap_privileged-IsCleared {ℓ} :
      {T : Type ℓ} (refetch : Option (ApiResult SessionView)) (result : ApiResult T)
      (w : World queries)
      → ((unwrap_privileged queries refetch result w).1 ≡ unwrap result)
        × (((is_failed_with 401 result ≡ true)
              × IsCleared (unwrap_privileged queries refetch result w).0)
            ⊎ ((is_failed_with 403 result ≡ true)
                × IsRevalidated refetch w (unwrap_privileged queries refetch result w).0)
            ⊎ ((is_failed_with 401 result ≡ false)
                × (is_failed_with 403 result ≡ false)
                × ((unwrap_privileged queries refetch result w).0 ≡ w)))
  unfolding unwrap_privileged
  unwrap_privileged-IsCleared refetch (ok s x) w = (refl, inr (inr (refl, refl, refl)))
  unwrap_privileged-IsCleared refetch (failed none e) w = (refl, inr (inr (refl, refl, refl)))
  unwrap_privileged-IsCleared refetch (failed (some s) e) w = elim (Bool-cases (s == 401)) [
    | inl dead ↦
        let denied : (s == 403) ≡ false = ground arith in
        rw (dead, denied) (refl, inl (refl, clear_authenticated_state-IsCleared w))
    | inr other ↦ elim (Bool-cases (s == 403)) [
      | inl denied ↦
          rw (other, denied)
            (refl, inr (inl (refl, (refl, refl, revalidated (refetched_of refetch) w.cache))))
      | inr unknown ↦ rw (other, unknown) (refl, inr (inr (refl, refl, refl)))
    ]
  ]

  -- Signed out, or a failure that is no 401 and changes nothing.
  abbrev pub IsLoggedOutFrom : World queries → World queries × Outcome (Unit {0}) → Type 0
  IsLoggedOutFrom w ended =
      ((ended.1 ≡ returned tt) × IsCleared ended.0)
      ⊎ ((ended.0 ≡ w) × ((f : ApiFailure) × (ended.1 ≡ thrown f) × (f.status ≢ some 401)))

  finish_logout-IsLoggedOutFrom :
      (result : ApiResult (Unit {0})) (w : World queries)
      → IsLoggedOutFrom w (finish_logout queries result w)
  unfolding finish_logout
  finish_logout-IsLoggedOutFrom (ok s x) w = inl (refl, clear_authenticated_state-IsCleared w)
  finish_logout-IsLoggedOutFrom (failed none e) w =
      inr (refl, (record { status = none; envelope = e }, refl, λ h. cc))
  finish_logout-IsLoggedOutFrom (failed (some s) e) w = elim (Bool-cases (s == 401)) [
    | inl dead ↦ rw dead (inl (refl, clear_authenticated_state-IsCleared w))
    | inr alive ↦
        rw alive (inr (refl, (record { status = some s; envelope = e }, refl, some_other s alive)))
  ]

  -- Logging out ends with every trace of the user cleared, or throws a failure other than a 401 and
  -- changes nothing.
  pub logout-IsLoggedOutFrom :
      (answer : Text → ApiResult (Unit {0})) (w : World queries)
      → IsLoggedOutFrom w (logout queries answer w)
  unfolding logout
  logout-IsLoggedOutFrom answer w = elim (Option-cases (current_csrf_token queries w)) [
    | inl absent ↦ rw (absent, logout) (inl (refl, clear_authenticated_state-IsCleared w))
    | inr (token, found) ↦ rw (found, logout) (finish_logout-IsLoggedOutFrom (answer token) w)
  ]
