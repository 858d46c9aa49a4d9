-- ===== src/Access/Redirects.antt =====
-- Where an untrusted `next` can lead.
use restaurant_engine.Prelude.{
  true, false, Option, none, some, [], ◌∷◌, ◌++◌, ◌≡◌, ◌⊎◌, refl, sym, subst, ap, ◌∙◌, inl, inr,
  any, arith, Bool-cases, Option-cases,
}
use restaurant_engine.Prelude.Text.{Text, codes, text_eq, text_eq_sound, starts_with}
use restaurant_engine.Session.{SessionView}
use restaurant_engine.Access.Defs.{
  fallback, Url, Platform, is_login, names_token, accept, is_refused, sanitize_next, role_home_path,
  can_reach_path, landing_path, pathname_of,
}
use restaurant_engine.Prelude.Splitting.{split}

starts_with-append : (s t p : Text) → starts_with s p ≡ true → starts_with (s ++ t) p ≡ true
unfolding starts_with
starts_with-append s t [] h = cc
starts_with-append [] t (c ∷ p) h = cc
starts_with-append (x ∷ s) t (c ∷ p) h = ground (arith, starts_with-append s t p)

module _ (platform : Platform) where
  open platform use {location_origin, parse_url, path_rooted}

  -- The path and query of a URL of this origin that is no login page and names no token.
  abbrev pub IsInternal : Text → Url → Type 0
  IsInternal target url =
      (target ≡ url.pathname ++ url.search)
      × (url.origin ≡ location_origin)
      × (is_login url.pathname ≡ false)
      × (any (names_token platform) url.query_keys ≡ false)
      × (starts_with target (codes "/") ≡ true)

  -- The URL is of another origin, a login page, or names a token.
  abbrev pub IsBarred : Url → Type 0
  IsBarred url =
      (text_eq url.origin location_origin ≡ false)
      ⊎ (is_login url.pathname ≡ true)
      ⊎ (any (names_token platform) url.query_keys ≡ true)

  -- The text itself is refused, no URL, or a URL that is barred.
  abbrev pub IsUnusable : Text → Type 0
  IsUnusable raw =
      (is_refused platform raw ≡ true)
      ⊎ (parse_url raw ≡ none)
      ⊎ ((url : Url) × (parse_url raw ≡ some url) × IsBarred url)

  -- The fallback for an unusable text, or a URL that was parsed from the untrusted text.
  abbrev pub IsSafe : Text → Text → Type 0
  IsSafe raw target =
      ((target ≡ fallback) × IsUnusable raw)
      ⊎ ((url : Url) × (is_refused platform raw ≡ false)
          × (parse_url raw ≡ some url)
          × IsInternal target url)

  accept_cases :
      (url : Url)
      → ((accept platform url ≡ fallback) × IsBarred url)
        ⊎ ((accept platform url ≡ url.pathname ++ url.search)
            × (text_eq url.origin location_origin ≡ true)
            × (is_login url.pathname ≡ false)
            × (any (names_token platform) url.query_keys ≡ false))
  accept_cases url = elim (Bool-cases (text_eq url.origin location_origin)) [
    | inr foreign ↦ inl (rw foreign refl, inl foreign)
    | inl same ↦ elim (Bool-cases (is_login url.pathname)) [
      | inl login ↦ inl (rw (same, login) refl, inr (inl login))
      | inr page ↦ elim (Bool-cases (any (names_token platform) url.query_keys)) [
        | inl token ↦ inl (rw (same, page, token) refl, inr (inr token))
        | inr clean ↦ inr (rw (same, page, clean) refl, same, page, clean)
      ]
    ]
  ]

  accept-IsSafe :
      (raw : Text) (url : Url)
      → is_refused platform raw ≡ false
      → parse_url raw ≡ some url
      → IsSafe raw (accept platform url)
  accept-IsSafe raw url kept parsed = elim (accept_cases url) [
    | inl (home, barred) ↦ inl (home, inr (inr (url, parsed, barred)))
    | inr (path, same, page, clean) ↦
        let rooted =
          starts_with-append url.pathname url.search (codes "/")
            (path_rooted raw url parsed same) in
        inr (
          url,
          kept,
          parsed,
          (
            path,
            text_eq_sound url.origin location_origin same,
            page,
            clean,
            subst (λ s. starts_with s (codes "/") ≡ true) (sym path) rooted,
          ),
        )
  ]

  sanitize_cases :
      (raw : Text)
      → ((sanitize_next platform (some raw) ≡ fallback) × IsUnusable raw)
        ⊎ ((url : Url) × (is_refused platform raw ≡ false)
            × (parse_url raw ≡ some url)
            × (sanitize_next platform (some raw) ≡ accept platform url))
  unfolding sanitize_next
  sanitize_cases raw = elim (Bool-cases (is_refused platform raw)) [
    | inl refused ↦ inl (rw refused refl, inl refused)
    | inr kept ↦ elim (Option-cases (parse_url raw)) [
      | inl failed ↦ inl (rw (kept, failed) refl, inr (inl failed))
      | inr (url, parsed) ↦ inr (url, kept, parsed, rw (kept, parsed) refl)
    ]
  ]

  -- Whatever text is asked for, the result is the home, where the text is refused, is no URL, or is a
  -- URL of another origin, of a login page or with a query name that names a token; or it is the path
  -- and query of the URL that the text is parsed to: the text is not refused, the URL is of this origin,
  -- no login page and names no token, and the result starts with a slash. A result that starts with
  -- two slashes is not excluded.
  pub sanitize_next-IsSafe : (raw : Text) → IsSafe raw (sanitize_next platform (some raw))
  sanitize_next-IsSafe raw = elim (sanitize_cases raw) [
    | inl home ↦ inl home
    | inr (url, kept, parsed, e) ↦ subst (IsSafe raw) (sym e) (accept-IsSafe raw url kept parsed)
  ]

  home_reachable :
      (session : SessionView) → can_reach_path platform (role_home_path session) session ≡ some true
  unfolding can_reach_path role_home_path pathname_of split text_eq starts_with
  home_reachable session = elim (Bool-cases session.is_platform_admin) [
    | inl admin ↦ rw admin refl
    | inr other ↦ rw other refl
  ]

  -- After a sign-in, the user lands on a path that this user can reach: the wanted one if it is, and the
  -- home of the role if not. Only an identifier in the wanted path that cannot be decoded throws.
  pub landing_path-reachable :
      (raw_next : Option Text) (session : SessionView)
      → ((landing_path platform raw_next session ≡ none)
          × (can_reach_path platform (sanitize_next platform raw_next) session ≡ none))
        ⊎ ((target : Text) × (landing_path platform raw_next session ≡ some target)
            × (can_reach_path platform target session ≡ some true)
            × ((target ≡ sanitize_next platform raw_next) ⊎ (target ≡ role_home_path session)))
  unfolding landing_path
  landing_path-reachable raw_next session =
      let target = sanitize_next platform raw_next in
      elim (Option-cases (can_reach_path platform target session)) [
        | inl thrown ↦ inl (rw (thrown, landing_path) refl, thrown)
        | inr (reachable, found) ↦ elim (Bool-cases reachable) [
          | inl can ↦
              inr (target, rw (found, can, landing_path) refl, found ∙ ap some can, inl refl)
          | inr cannot ↦ inr (
            role_home_path session,
            rw (found, cannot, landing_path) refl,
            home_reachable session,
            inr refl,
          )
        ]
      ]
