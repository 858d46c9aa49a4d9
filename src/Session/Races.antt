-- ===== src/Session/Races.antt =====
-- Which answers reach the session entry when attempts, answers and clears interleave.
use restaurant_engine.Prelude.{
  ℕ, suc, ◌≤◌, ◌<◌, true, none, some, ◌≡◌, ◌≢◌, refl, ◌∙◌, ap, arith, ◌==◌,
}
use restaurant_engine.Prelude.Text.{Text}
use restaurant_engine.Api.{ApiResult, ok, returned, thrown}
use restaurant_engine.Session.Defs.{
  SessionView, SessionState, authenticated, anonymous, QueryClient, World, established,
  establish_starts, establish_resumes, answered, commit, fetch_session_state, clear_starts,
  clear_resumes, current_csrf_token, token_of, require_csrf,
}
use restaurant_engine.Session.Steps.{
  Star, Star-keeps, Calm, answer, elsewhere, calm, clear, cleared, Step, quiet, attempt,
  settle_keeps, settle_behind,
}

lt-≢ : (g n : ℕ) → g < n → g ≢ n
lt-≢ g n h e = omega arith

module _ (queries : QueryClient) where
  open queries use {Cache, get_session, set_session, get-set, get-remove, get-cancel, remove_others}

  resumes_behind :
      (g : ℕ) (r : ApiResult SessionView) (w : World queries)
      → g ≢ w.session_generation
      → ((establish_resumes queries g r w).0.cache ≡ w.cache)
        × ((s : SessionState) → (establish_resumes queries g r w).1 ≢ established s)
  unfolding establish_resumes
  resumes_behind g r w h =
      let (same, lost) = settle_behind queries g (fetch_session_state r) (answered queries g w) h in
      (ap (λ u. u.cache) same, lost)

  abbrev pub IsSignedOut : World queries → Type 0
  IsSignedOut w = get_session w.cache ≡ some anonymous

  pub clear_resumes-IsSignedOut : (w : World queries) → IsSignedOut (clear_resumes queries w)
  unfolding clear_resumes
  clear_resumes-IsSignedOut w =
      get-remove (set_session anonymous w.cache) ∙ get-set anonymous w.cache

  pub require_csrf_anonymous :
      (w : World queries)
      → IsSignedOut w
      → require_csrf queries w ≡ thrown (record { status = some 401; envelope = none })
  unfolding require_csrf current_csrf_token
  require_csrf_anonymous w out = rw (out, require_csrf, current_csrf_token, token_of) refl

  pub require_csrf_authenticated :
      (w : World queries) (view : SessionView) (token : Text)
      → get_session w.cache ≡ some (authenticated view token)
      → require_csrf queries w ≡ returned token
  unfolding require_csrf current_csrf_token
  require_csrf_authenticated w view token signed_in =
      rw (signed_in, require_csrf, current_csrf_token, token_of) refl

  generation_grows :
      (g : ℕ) (w w' : World queries)
      → Step queries w w'
      → g ≤ w.session_generation
      → g ≤ w'.session_generation
  unfolding clear_starts clear_resumes establish_starts establish_resumes
  generation_grows g w w' (quiet (calm (answer h r m))) k =
      settle_keeps queries (λ n gs. g ≤ n) h (fetch_session_state r) (answered queries h w) k
  generation_grows g w w' (quiet (calm (elsewhere c e))) k = k
  generation_grows g w w' (quiet clear) k = omega arith
  generation_grows g w w' (quiet cleared) k = k
  generation_grows g w w' attempt k = omega arith

  -- A newer attempt or a clear.
  pub data Supersedes (w : World queries) : World queries → Type 0 where
    by_attempt : Supersedes w (establish_starts queries w)
    by_clear : Supersedes w (clear_starts queries w)

  Supersedes-lt :
      (g : ℕ) (w w' : World queries)
      → Supersedes w w'
      → g ≤ w.session_generation
      → suc g ≤ w'.session_generation
  unfolding clear_starts establish_starts
  Supersedes-lt g w w' by_attempt k = omega arith
  Supersedes-lt g w w' by_clear k = omega arith

  -- An attempt that a newer attempt or a clear has overtaken writes nothing, whatever the server
  -- answers and whatever happened before, between and since, and its caller gets no session.
  pub establish_resumes-superseded :
      (w : World queries) {w1 w2 w3 : World queries} (result : ApiResult SessionView)
      → Star (Step queries) (establish_starts queries w) w1
      → Supersedes w1 w2
      → Star (Step queries) w2 w3
      → ((establish_resumes queries (suc w.session_generation) result w3).0.cache ≡ w3.cache)
        × ((s : SessionState)
            → (establish_resumes queries (suc w.session_generation) result w3).1 ≢ established s)
  unfolding establish_starts
  establish_resumes-superseded w {w1} {w2} {w3} result before by after =
      let g = suc w.session_generation in
      let started : g ≤ w1.session_generation =
        Star-keeps (λ u. g ≤ u.session_generation) (generation_grows g) (establish_starts queries w)
          w1 before (omega arith) in
      let overtaken : suc g ≤ w3.session_generation =
        Star-keeps (λ u. suc g ≤ u.session_generation) (generation_grows (suc g)) w2 w3 after
          (Supersedes-lt g w1 w2 by started) in
      resumes_behind g result w3 (lt-≢ g w3.session_generation (omega arith))

  generation_stays :
      (g : ℕ) (w w' : World queries)
      → Calm queries w w'
      → w.session_generation ≡ g
      → w'.session_generation ≡ g
  unfolding establish_resumes
  generation_stays g w w' (answer h r m) k =
      settle_keeps queries (λ n gs. n ≡ g) h (fetch_session_state r) (answered queries h w) k
  generation_stays g w w' (elsewhere c e) k = k

  -- An attempt that nothing overtakes is committed when its session arrives, whatever older attempts
  -- are answered meanwhile: the cache holds that session, and the next request sends its token.
  pub require_csrf-establish :
      (w : World queries) {w1 : World queries} (status : ℕ) (view : SessionView)
      → Star (Calm queries) (establish_starts queries w) w1
      → ((establish_resumes queries (suc w.session_generation) (ok status view) w1).1
          ≡ established (authenticated view view.csrf_token))
        × (get_session
              (establish_resumes queries (suc w.session_generation) (ok status view) w1).0.cache
            ≡ some (authenticated view view.csrf_token))
        × (require_csrf queries
              (establish_resumes queries (suc w.session_generation) (ok status view) w1).0
            ≡ returned view.csrf_token)
  unfolding establish_starts establish_resumes fetch_session_state
  require_csrf-establish w {w1} status view calm_steps =
      let g = suc w.session_generation in
      let same : w1.session_generation ≡ g =
        Star-keeps (λ u. u.session_generation ≡ g) (generation_stays g) (establish_starts queries w)
          w1 calm_steps refl in
      let newest : (g == w1.session_generation) ≡ true = ground arith in
      let cached = get-set (authenticated view view.csrf_token) w1.cache in
      rw newest (
        refl,
        cached,
        require_csrf_authenticated
            (commit queries (answered queries g w1) (authenticated view view.csrf_token)).0 view
            view.csrf_token cached,
      )
