-- ===== src/Session/Tests.antt =====
-- Runs of the session cache with a query client that is a pair, and the theorems at it.
use restaurant_engine.Prelude.{ℕ, true, false, none, some, [], ◌≡◌, ◌≢◌, ◌⊎◌, refl}
use restaurant_engine.Prelude.Text.{Text, codes}
use restaurant_engine.Api.{ApiResult, ok, failed, returned, unwrap}
use restaurant_engine.Session.Defs.{
  SessionView, SessionState, authenticated, World, established, stale_establishment,
  establish_starts, establish_resumes, clear_starts, clear_resumes, clear_authenticated_state,
  require_csrf, unwrap_privileged, logout, fetch_session_state, is_failed_with, current_csrf_token,
}
use restaurant_engine.Session.Steps.{here}
use restaurant_engine.Session.Races.{
  by_attempt, establish_resumes-superseded, require_csrf-establish,
}
use restaurant_engine.Session.Privileged.{
  IsCleared, IsRevalidated, IsLoggedOutFrom, unwrap_privileged-IsCleared, logout-IsLoggedOutFrom,
}
use restaurant_engine.Session.PairClient.{pair_client, invalidated_of}

abbrev view : SessionView
view = record { csrf_token = codes "t1"; is_platform_admin = false; memberships = [] }

session_runs : Unit {0}
unfolding establish_starts establish_resumes clear_starts clear_resumes clear_authenticated_state
    require_csrf unwrap_privileged logout fetch_session_state current_csrf_token unwrap
session_runs = tt

abbrev fresh : World pair_client
fresh = record { session_generation = 0; in_flight = []; cache = (none, true, false) }

abbrev view_answer : ApiResult SessionView
view_answer = ok 200 view

abbrev signed_in : World pair_client
signed_in = record fresh { cache = (some (authenticated view (codes "t1")), true, false) }

-- Two attempts: the older one is stale, the newer one is kept.
raced :
    ((establish_resumes pair_client 1 view_answer
        (establish_starts pair_client (establish_starts pair_client fresh))).1
      ≡ stale_establishment)
    × ((establish_resumes pair_client 2 view_answer
          (establish_starts pair_client (establish_starts pair_client fresh))).1
        ≡ established (authenticated view (codes "t1")))
unfolding session_runs
raced = (refl, refl)

-- A late answer after a logout writes nothing.
abbrev late : World pair_client
late =
    (establish_resumes pair_client 1 view_answer
      (clear_resumes pair_client (clear_starts pair_client (establish_starts pair_client fresh)))).0

establish_resumes-superseded_example :
    ((establish_resumes pair_client 1 view_answer
        (establish_starts pair_client (establish_starts pair_client fresh))).0.cache
      ≡ (none, true, false))
    × ((s : SessionState)
        → (establish_resumes pair_client 1 view_answer
            (establish_starts pair_client (establish_starts pair_client fresh))).1
          ≢ established s)
unfolding establish_starts
establish_resumes-superseded_example =
    establish_resumes-superseded pair_client fresh view_answer here by_attempt here

require_csrf-establish_example :
    ((establish_resumes pair_client 1 view_answer (establish_starts pair_client fresh)).1
      ≡ established (authenticated view (codes "t1")))
    × ((establish_resumes pair_client 1 view_answer (establish_starts pair_client fresh)).0.cache.0
        ≡ some (authenticated view (codes "t1")))
    × (require_csrf pair_client
          (establish_resumes pair_client 1 view_answer (establish_starts pair_client fresh)).0
        ≡ returned (codes "t1"))
require_csrf-establish_example = require_csrf-establish pair_client fresh 200 view here

abbrev expired : ApiResult ℕ
expired = failed (some 401) none

unwrap_privileged-IsCleared_example :
    ((unwrap_privileged pair_client (some view_answer) expired fresh).1 ≡ unwrap expired)
    × (((is_failed_with 401 expired ≡ true)
          × IsCleared pair_client
              (unwrap_privileged pair_client (some view_answer) expired fresh).0)
        ⊎ ((is_failed_with 403 expired ≡ true)
            × IsRevalidated pair_client
                (some view_answer)
                fresh
                (unwrap_privileged pair_client (some view_answer) expired fresh).0)
        ⊎ ((is_failed_with 401 expired ≡ false)
            × (is_failed_with 403 expired ≡ false)
            × ((unwrap_privileged pair_client (some view_answer) expired fresh).0 ≡ fresh)))
unwrap_privileged-IsCleared_example =
    unwrap_privileged-IsCleared pair_client (some view_answer) expired fresh

abbrev denied : ApiResult ℕ
denied = failed (some 403) none

-- A 403 takes the session over that the refetch brings, and marks the entry where none is made.
revalidations :
    ((unwrap_privileged pair_client (some view_answer) denied fresh).0.cache
      ≡ (some (authenticated view (codes "t1")), true, false))
    × ((unwrap_privileged pair_client none denied signed_in).0.cache
        ≡ (some (authenticated view (codes "t1")), true, true))
unfolding session_runs invalidated_of
revalidations = (refl, refl)

abbrev agreed : Text → ApiResult (Unit {0})
agreed token = ok 204 tt

logout-IsLoggedOutFrom_example :
    IsLoggedOutFrom pair_client signed_in (logout pair_client agreed signed_in)
logout-IsLoggedOutFrom_example = logout-IsLoggedOutFrom pair_client (λ t. agreed t) signed_in
