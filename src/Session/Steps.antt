-- ===== src/Session/Steps.antt =====
-- The interleavings of attempts, answers and clears (`establishSession` and `clearAuthenticatedState`
-- in apps/control-center/src/auth/session.ts), and the generations in flight.
use restaurant_engine.Prelude.{
  ℕ, suc, ◌≤◌, ◌<◌, Bool, false, not, Option, none, some, List, [], ◌∷◌, ◌≡◌, ◌≢◌, refl, sym, subst,
  ◌⊎◌, inl, inr, arith, ◌==◌, All, All-weaken, keep_if, Bool-cases,
}
use restaurant_engine.Api.{ApiResult}
use restaurant_engine.Session.Defs.{
  SessionView, SessionState, authenticated, anonymous, QueryClient, World, established,
  establish_starts, establish_resumes, answered, settle, clear_starts, clear_resumes,
  fetch_session_state,
}

-- Zero or more steps of one kind.
pub data Star {ℓ} {W : Type ℓ} (R : W → W → Type ℓ) (start : W) : W → Type ℓ where
  here : Star R start start
  next : {w w' : W} → Star R start w → R w w' → Star R start w'

pub Star-keeps {ℓ κ} :
    {W : Type ℓ} {R : W → W → Type ℓ} (P : W → Type κ)
    → ((w w' : W) → R w w' → P w → P w')
    → (w w' : W) → Star R w w'
    → P w
    → P w'
Star-keeps P h w w' here p = p
Star-keeps P h w w' (next {w = u} s r) p = h u w' r (Star-keeps P h w u s p)

All-keep_if {ℓ κ} :
    {A : Type ℓ} (P : A → Type κ) (p : A → Bool) (xs : List A) → All P xs → All P (keep_if p xs)
All-keep_if P p [] h = tt
All-keep_if P p (x ∷ xs) (h, hs) = elim (Bool-cases (p x)) [
  | inl kept ↦ rw (kept, keep_if) (h, All-keep_if P p xs hs)
  | inr dropped ↦ rw (dropped, keep_if) (All-keep_if P p xs hs)
]

abbrev pub IsInFlight : ℕ → List ℕ → Type 0
IsInFlight g [] = ⊥
IsInFlight g (h ∷ hs) = (g ≡ h) ⊎ IsInFlight g hs

pub All-IsInFlight : (P : ℕ → Type 0) (g : ℕ) (hs : List ℕ) → All P hs → IsInFlight g hs → P g
All-IsInFlight P g [] ps m = absurd m
All-IsInFlight P g (h ∷ hs) (p, ps) (inl e) = subst P (sym e) p
All-IsInFlight P g (h ∷ hs) (p, ps) (inr m) = All-IsInFlight P g hs ps m

module _ (queries : QueryClient) where
  open queries use {Cache, get_session}

  -- Answers, and what the other features do to the cache.
  pub data Calm (w : World queries) : World queries → Type 0 where
    answer :
        (g : ℕ) (r : ApiResult SessionView)
        → IsInFlight g w.in_flight
        → Calm w (establish_resumes queries g r w).0
    elsewhere : (c : Cache) → get_session c ≡ get_session w.cache → Calm w (record w { cache = c })

  -- And clears.
  pub data Quiet (w : World queries) : World queries → Type 0 where
    calm : {w' : World queries} → Calm w w' → Quiet w w'
    clear : Quiet w (clear_starts queries w)
    cleared : Quiet w (clear_resumes queries w)

  -- And new attempts.
  pub data Step (w : World queries) : World queries → Type 0 where
    quiet : {w' : World queries} → Quiet w w' → Step w w'
    attempt : Step w (establish_starts queries w)

  -- Every attempt in flight captured a generation up to the present one; or an older one.
  abbrev pub IsKnown : World queries → Type 0
  IsKnown w = All (λ g. g ≤ w.session_generation) w.in_flight

  abbrev pub IsBehind : World queries → Type 0
  IsBehind w = All (λ g. g < w.session_generation) w.in_flight

  pub settle_keeps :
      (P : ℕ → List ℕ → Type 0) (g : ℕ) (state : Option SessionState) (w : World queries)
      → P w.session_generation w.in_flight
      → P (settle queries state g w).0.session_generation (settle queries state g w).0.in_flight
  settle_keeps P g none w p = p
  settle_keeps P g (some anonymous) w p = elim (Bool-cases (g == w.session_generation)) [
    | inl e ↦ rw e p
    | inr e ↦ rw e p
  ]
  settle_keeps P g (some (authenticated v t)) w p = elim (Bool-cases (g == w.session_generation)) [
    | inl e ↦ rw e p
    | inr e ↦ rw e p
  ]

  -- An attempt of another generation changes no cache and establishes nothing.
  pub settle_behind :
      (g : ℕ) (state : Option SessionState) (w : World queries)
      → g ≢ w.session_generation
      → ((settle queries state g w).0 ≡ w)
        × ((s : SessionState) → (settle queries state g w).1 ≢ established s)
  settle_behind g none w h = (refl, λ s e. cc)
  settle_behind g (some state) w h =
      let other : (g == w.session_generation) ≡ false = ground arith in rw other (refl, λ s e. cc)

  answered-All :
      (P : ℕ → Type 0) (g : ℕ) (w : World queries)
      → All P w.in_flight
      → All P (answered queries g w).in_flight
  answered-All P g w h = All-keep_if P (λ k. not (k == g)) w.in_flight h

  pub Calm-IsKnown : (w w' : World queries) → Calm w w' → IsKnown w → IsKnown w'
  unfolding establish_resumes
  Calm-IsKnown w w' (answer g r m) k =
      settle_keeps (λ n gs. All (λ g. g ≤ n) gs) g (fetch_session_state r) (answered queries g w)
        (answered-All (λ g. g ≤ w.session_generation) g w k)
  Calm-IsKnown w w' (elsewhere c e) k = k

  Calm-IsBehind : (w w' : World queries) → Calm w w' → IsBehind w → IsBehind w'
  unfolding establish_resumes
  Calm-IsBehind w w' (answer g r m) k =
      settle_keeps (λ n gs. All (λ g. g < n) gs) g (fetch_session_state r) (answered queries g w)
        (answered-All (λ g. g < w.session_generation) g w k)
  Calm-IsBehind w w' (elsewhere c e) k = k

  at_most_suc : {n : ℕ} (g : ℕ) → g ≤ n → g < suc n
  at_most_suc g h = omega arith

  pub clear_starts-IsBehind : (w : World queries) → IsKnown w → IsBehind (clear_starts queries w)
  unfolding clear_starts
  clear_starts-IsBehind w k = All-weaken (λ g. at_most_suc g) w.in_flight k

  weaken_suc : {n : ℕ} (g : ℕ) → g ≤ n → g ≤ suc n
  weaken_suc g h = omega arith

  weaken_lt : {n : ℕ} (g : ℕ) → g < n → g < suc n
  weaken_lt g h = omega arith

  pub Quiet-IsBehind : (w w' : World queries) → Quiet w w' → IsBehind w → IsBehind w'
  unfolding clear_starts clear_resumes
  Quiet-IsBehind w w' (calm s) k = Calm-IsBehind w w' s k
  Quiet-IsBehind w w' clear k = All-weaken (λ g. weaken_lt g) w.in_flight k
  Quiet-IsBehind w w' cleared k = k

  pub Step-IsKnown : (w w' : World queries) → Step w w' → IsKnown w → IsKnown w'
  unfolding clear_starts clear_resumes establish_starts
  Step-IsKnown w w' (quiet (calm s)) k = Calm-IsKnown w w' s k
  Step-IsKnown w w' (quiet clear) k = All-weaken (λ g. weaken_suc g) w.in_flight k
  Step-IsKnown w w' (quiet cleared) k = k
  Step-IsKnown w w' attempt k = (omega arith, All-weaken (λ g. weaken_suc g) w.in_flight k)
