-- ===== src/Transport/Exchanges.antt =====
-- How the promise of an exchange settles.
use restaurant_engine.Prelude.{
  ℕ, ◌≤◌, Bool, true, false, ◌||◌, Option, none, some, List, [], ◌∷◌, ◌++◌, map, ◌≡◌, refl, sym, ap,
  ◌∙◌, inl, inr, arith, All, concat, ltb, append-nil, append_assoc, Bool-cases, if◌then◌else◌,
}
use restaurant_engine.Prelude.Text.{Text}
use restaurant_engine.Transport.Defs.{
  Header, FailReason, Settlement, resolved, Event, response_starts, chunk, response_ends,
  response_fails, timer_fires, request_fails, Incoming, Exchange, fresh, fail, is_one_of,
  is_bodyless, stripped_response_headers, response_headers, response_of, finish, collect, break_off,
  step, run, unsupported_status, stream_error, timeout, connection_error,
}

module _ (lower_case : Text → Text) (method : Text) where
  -- A settled exchange has cleared its timer, and nothing unsettles it.
  abbrev pub IsOver : Settlement → Exchange → Type 0
  IsOver s x = (x.settled ≡ some s) × (x.timer_active ≡ false)

  fail-IsOver :
      (reason : FailReason) (s : Settlement) (x : Exchange) → IsOver s x → IsOver s (fail reason x)
  fail-IsOver reason s x (e, t) = rw (e, fail) (e, t)

  collect-IsOver :
      (bytes : Text) (o : Option Incoming) (s : Settlement) (x : Exchange)
      → IsOver s x
      → IsOver s (collect lower_case bytes x o)
  collect-IsOver bytes none s x h = h
  collect-IsOver bytes (some r) s x h = h

  finish-IsOver :
      (o : Option Incoming) (s : Settlement) (x : Exchange)
      → IsOver s x
      → IsOver s (finish lower_case method x o x.settled)
  finish-IsOver none s x h = h
  finish-IsOver (some r) s x (e, t) = rw (e, finish) (e, t)

  break-IsOver :
      (o : Option Incoming) (s : Settlement) (x : Exchange)
      → IsOver s x
      → IsOver s (break_off lower_case x o)
  break-IsOver none s x h = h
  break-IsOver (some r) s x h = fail-IsOver stream_error s x h

  expire-IsOver :
      (b : Bool) (s : Settlement) (x : Exchange)
      → IsOver s x
      → IsOver s (if b then fail timeout x else x)
  expire-IsOver true s x h = fail-IsOver timeout s x h
  expire-IsOver false s x h = h

  step-IsOver :
      (e : Event) (s : Settlement) (x : Exchange)
      → IsOver s x
      → IsOver s (step lower_case method e x)
  unfolding step
  step-IsOver (response_starts status hs) s x h =
      elim (Bool-cases (ltb status 200 || ltb 599 status)) [
        | inl bad ↦ rw bad (fail-IsOver (unsupported_status status) s x h)
        | inr good ↦ rw good h
      ]
  step-IsOver (chunk bytes) s x h = collect-IsOver bytes x.incoming s x h
  step-IsOver response_ends s x h = finish-IsOver x.incoming s x h
  step-IsOver response_fails s x h = break-IsOver x.incoming s x h
  step-IsOver timer_fires s x h = expire-IsOver x.timer_active s x h
  step-IsOver request_fails s x h = fail-IsOver connection_error s x h

  settled-IsOver :
      (es : List Event) (s : Settlement) (x : Exchange)
      → IsOver s x
      → IsOver s (run lower_case method es x)
  unfolding run
  settled-IsOver [] s x h = h
  settled-IsOver (e ∷ es) s x h =
      settled-IsOver es s (step lower_case method e x) (step-IsOver e s x h)

  -- However the events of an exchange interleave, its promise settles once: the first settlement stays,
  -- whatever is reported afterwards, and the timer stays cleared.
  pub run-IsOver :
      (es fs : List Event) (s : Settlement)
      → IsOver s (run lower_case method es fresh)
      → IsOver s (run lower_case method fs (run lower_case method es fresh))
  run-IsOver es fs s h = settled-IsOver fs s (run lower_case method es fresh) h

  abbrev collecting : Incoming → Exchange
  collecting r = record {
    settled = none;
    incoming = some r;
    timer_active = true;
    destroyed = false;
  }

  run-chunks :
      (cs : List Text) (rest : List Event) (r : Incoming)
      → IsOver
          (resolved (response_of lower_case method (record r { chunks = r.chunks ++ concat cs })))
          (run lower_case method (map chunk cs ++ (response_ends ∷ rest)) (collecting r))
  unfolding run step
  run-chunks [] rest r =
      settled-IsOver rest
        (resolved (response_of lower_case method (record r { chunks = r.chunks ++ [] })))
        (finish lower_case method (collecting r) (some r) none)
        (rw (append-nil r.chunks) refl, refl)
  run-chunks (c ∷ cs) rest r =
      rw (sym (append_assoc r.chunks c (concat cs)))
        (run-chunks cs rest (record r { chunks = r.chunks ++ c }))

  starts :
      (status : ℕ) (hs : List Header)
      → (ltb status 200 || ltb 599 status) ≡ false
      → step lower_case method (response_starts status hs) fresh
        ≡ collecting (record { status = status; raw_headers = hs; chunks = [] })
  unfolding step
  starts status hs supported = rw supported refl

  -- A response of a supported status that arrives whole resolves the promise with its status, its
  -- headers but the stripped ones, and all its bytes in order, or no body where none is allowed,
  -- whatever is reported afterwards.
  pub run-response :
      (status : ℕ) (hs : List Header) (cs : List Text) (rest : List Event)
      → 200 ≤ status
      → status ≤ 599
      → (run lower_case method
          (response_starts status hs ∷ (map chunk cs ++ (response_ends ∷ rest)))
          fresh).settled
        ≡ some (
            resolved (record {
              status = status;
              headers = response_headers lower_case hs;
              body = if is_bodyless lower_case method status then none else some (concat cs);
            }))
  unfolding run step
  run-response status hs cs rest low high =
      let supported : (ltb status 200 || ltb 599 status) ≡ false = ground arith in
      let incoming : Incoming = record { status = status; raw_headers = hs; chunks = [] } in
      ap (λ x. (run lower_case method (map chunk cs ++ (response_ends ∷ rest)) x).settled)
        (starts status hs supported)
      ∙ (run-chunks cs rest incoming).0

  -- No header that is to be stripped from a response is copied.
  pub response_headers-All :
      (hs : List Header)
      → All
          (λ h. is_one_of stripped_response_headers (lower_case h.name) ≡ false)
          (response_headers lower_case hs)
  unfolding response_headers
  response_headers-All [] = tt
  response_headers-All (h ∷ hs) =
      elim (Bool-cases (is_one_of stripped_response_headers (lower_case h.name))) [
        | inl hidden ↦ rw hidden (response_headers-All hs)
        | inr free ↦ rw free (free, response_headers-All hs)
      ]
