-- ===== src/Fetch/Provenance.antt =====
-- Where the answers of `fetch_schedule_data` come from, and what its breaker makes of a source
-- that answers with an error.
use voltyk_bot_v3_python.Prelude.{
  ℕ, ◌+◌, ◌<◌, ◌≤◌, ◌≡◌, refl, sym, ap, ◌∙◌, Bool, true, false, Option, none, some, arith, ltb,
  if-either, if-then, if-else,
}
use voltyk_bot_v3_python.Prelude.Dict
use voltyk_bot_v3_python.Prelude.Dict.{Dict}
use voltyk_bot_v3_python.CircuitBreaker.{
  Breaker, Admission, rejected, admitted, is_opened, get_state, enter, on_success, settle,
}
use voltyk_bot_v3_python.Fetch.{
  bad_status, Fetched, fetched, nothing, failed, network, other, do_fetch, attempts, Ticks, Source,
  Answer, answer, move_to_end, fresh_entry, stale, after_fetch, call_breaker, fetch_upstream,
  fetch_unless, fetch_schedule_data,
}

-- a breaker that is not open lets a call in, and stays as it is
enter-admitted :
    (now later : ℕ) (b : Breaker) → is_opened b.state ≡ false → enter now later b ≡ (b, admitted)
unfolding enter get_state
enter-admitted now later b h = ground arith

-- an entry that is fresh is the one found, is younger than the ttl, and no refresh is forced
fresh_entry-young :
    {K D : Type 0} (dec : Discrete K) (force_refresh : Bool) (ttl now : ℕ) (o : Option (ℕ × D))
    (entry : ℕ × D)
    → fresh_entry dec force_refresh ttl now o ≡ some entry
    → (o ≡ some entry) × (force_refresh ≡ false) × (now < entry.0 + ttl)
fresh_entry-young dec force_refresh ttl now none entry h = cc
fresh_entry-young dec force_refresh ttl now (some found) entry h = ground arith

-- where no entry is fresh, one that is found is as old as the ttl unless a refresh is forced
fresh_entry-old :
    {K D : Type 0} (dec : Discrete K) (force_refresh : Bool) (ttl now : ℕ) (o : Option (ℕ × D))
    (entry : ℕ × D)
    → fresh_entry dec force_refresh ttl now o ≡ none
    → o ≡ some entry
    → force_refresh ≡ false
    → entry.0 + ttl ≤ now
fresh_entry-old dec force_refresh ttl now none entry h e unforced = cc
fresh_entry-old dec force_refresh ttl now (some found) entry h e unforced = ground arith

module _ {K D : Type 0} (dec : Discrete K) (region : K) (now : ℕ) (ticks : Ticks)
    (result : Fetched D) where
  -- the cache may not be asked alone: a refresh is forced, or its entry is as old as the ttl
  abbrev pub IsDue : Bool → ℕ → Dict K (ℕ × D) → Type 0
  IsDue force_refresh ttl cache =
      (entry : ℕ × D)
      → Dict.get dec region cache ≡ some entry
      → force_refresh ≡ false
      → entry.0 + ttl ≤ now

  -- Where data comes from: a fetch that the breaker has let run, an entry that is young enough,
  -- or, while the breaker is open, an entry of any age.
  pub data IsKnown (force_refresh : Bool) (ttl : ℕ) (b : Breaker) (cache : Dict K (ℕ × D)) (d : D)
      : Type 0 where
    just_fetched :
        result ≡ fetched d
        → is_opened b.state ≡ false
        → IsDue force_refresh ttl cache
        → IsKnown force_refresh ttl b cache d
    fresh :
        (at_time : ℕ)
        → Dict.get dec region cache ≡ some (at_time, d)
        → force_refresh ≡ false
        → now < at_time + ttl
        → IsKnown force_refresh ttl b cache d
    out_of_date :
        (at_time : ℕ)
        → Dict.get dec region cache ≡ some (at_time, d)
        → is_opened b.state ≡ true
        → IsDue force_refresh ttl cache
        → IsKnown force_refresh ttl b cache d

  stale-found :
      (o : Option (ℕ × D)) (d : D) → stale dec o ≡ some d → (at_time : ℕ) × (o ≡ some (at_time, d))
  stale-found none d h = cc
  stale-found (some entry) d h = (entry.0, ap (λ x. some (entry.0, x)) (cc h))

  after_fetch-fetched :
      (f : Fetched D) (b : Breaker) (c : Dict K (ℕ × D)) (d : D)
      → (after_fetch dec region now ticks result f b c).1 ≡ answer (some d)
      → f ≡ fetched d
  unfolding after_fetch
  after_fetch-fetched (fetched x) b c d h = ap fetched (cc h)
  after_fetch-fetched nothing b c d h = cc
  after_fetch-fetched (failed network) b c d h = cc
  after_fetch-fetched (failed other) b c d h = cc

  call_breaker-admitted :
      (a : Breaker × Admission) (b : Breaker) (c : Dict K (ℕ × D)) (d : D)
      → a ≡ (b, admitted)
      → (call_breaker dec region now ticks result a c).1 ≡ answer (some d)
      → result ≡ fetched d
  unfolding call_breaker
  call_breaker-admitted (b', rejected r) b c d e h = cc
  call_breaker-admitted (b', admitted) b c d e h = after_fetch-fetched result b' c d h

  fetch_upstream-IsKnown :
      (force_refresh : Bool) (ttl : ℕ) (b : Breaker) (c : Dict K (ℕ × D)) (d : D)
      → IsDue force_refresh ttl c
      → (fetch_upstream dec region now ticks result b c).1 ≡ answer (some d)
      → IsKnown force_refresh ttl b c d
  unfolding fetch_upstream
  fetch_upstream-IsKnown force_refresh ttl b c d due h =
      if-either
        (λ (x : Source K D × Answer D). x.1 ≡ answer (some d) → IsKnown force_refresh ttl b c d)
        (is_opened b.state)
        (record { cache = c; breaker = b }, answer (stale dec (Dict.get dec region c)))
        (call_breaker dec region now ticks result (enter ticks.at_call ticks.at_reject b) c)
        (λ e. λ k.
          let (at_time, held) = stale-found (Dict.get dec region c) d (cc k) in
          out_of_date at_time held e due)
        (λ e. λ k.
          just_fetched
            (call_breaker-admitted _ b c d (enter-admitted ticks.at_call ticks.at_reject b e) k) e
            due)
        h

  fetch_unless-IsKnown :
      (force_refresh : Bool) (ttl : ℕ) (o found : Option (ℕ × D)) (s : Source K D) (d : D)
      → Dict.get dec region s.cache ≡ found
      → fresh_entry dec force_refresh ttl now found ≡ o
      → (fetch_unless dec region now ticks result o s).1 ≡ answer (some d)
      → IsKnown force_refresh ttl (get_state ticks.at_state s.breaker) s.cache d
  unfolding fetch_unless
  fetch_unless-IsKnown force_refresh ttl (some entry) found s d e f h =
      let (same, unforced, young) = fresh_entry-young dec force_refresh ttl now found entry f in
      fresh entry.0 (e ∙ same ∙ ap (λ x. some (entry.0, x)) (cc h)) unforced young
  fetch_unless-IsKnown force_refresh ttl none found s d e f h =
      fetch_upstream-IsKnown force_refresh ttl (get_state ticks.at_state s.breaker) s.cache d
        (λ entry held unforced.
          fresh_entry-old dec force_refresh ttl now found entry f (sym e ∙ held) unforced)
        h

  -- Data that is returned comes from one of three places: the cache's entry of the region, where
  -- no refresh is forced and the entry is younger than the ttl; else, where the breaker is not
  -- open, from the fetch; else, while the breaker is open, from the cache's entry of any age.
  pub fetch_schedule_data-IsKnown :
      (force_refresh : Bool) (ttl : ℕ) (s : Source K D) (d : D)
      → (fetch_schedule_data dec region now ticks result force_refresh ttl s).1 ≡ answer (some d)
      → IsKnown force_refresh ttl (get_state ticks.at_state s.breaker) s.cache d
  unfolding fetch_schedule_data
  fetch_schedule_data-IsKnown force_refresh ttl s d h =
      let found = Dict.get dec region s.cache in
      fetch_unless-IsKnown force_refresh ttl (fresh_entry dec force_refresh ttl now found) found s d
        refl refl h

  -- A region that the cache has had for less than the ttl is answered from it unless a refresh
  -- is forced: the breaker is not asked and stays as it is, and the entry stays.
  pub fetch_schedule_data-fresh :
      (ttl at_time : ℕ) (d : D) (s : Source K D)
      → Dict.get dec region s.cache ≡ some (at_time, d)
      → now < at_time + ttl
      → (fetch_schedule_data dec region now ticks result false ttl s)
        ≡ (record s { cache = move_to_end dec region (at_time, d) s.cache }, answer (some d))
  unfolding fetch_schedule_data fetch_unless
  fetch_schedule_data-fresh ttl at_time d s held young =
      ap (λ o. fetch_unless dec region now ticks result (fresh_entry dec false ttl now o) s) held
      ∙ ap (λ o. fetch_unless dec region now ticks result o s)
          (if-then (ltb now (at_time + ttl)) (some (at_time, d)) none (ground arith))

fresh_entry-forced :
    {K D : Type 0} (dec : Discrete K) (ttl now : ℕ) (o : Option (ℕ × D))
    → fresh_entry dec true ttl now o ≡ none
fresh_entry-forced dec ttl now none = refl
fresh_entry-forced dec ttl now (some entry) = refl

-- A source that answers each attempt with a status other than 200 gives None, and counts as a
-- success: where the breaker is not open it is closed, and its failures are forgotten.
pub fetch_schedule_data-bad_status :
    {K D : Type 0} (dec : Discrete K) (region : K) (now : ℕ) (ticks : Ticks) (ttl : ℕ)
    (s : Source K D)
    → is_opened (get_state ticks.at_state s.breaker).state ≡ false
    → fetch_schedule_data dec region now ticks
        (do_fetch bad_status bad_status bad_status)
        true
        ttl
        s
      ≡ (
        record { cache = s.cache; breaker = on_success (get_state ticks.at_state s.breaker) },
        answer none,
      )
unfolding fetch_schedule_data fetch_unless fetch_upstream call_breaker after_fetch attempts settle
fetch_schedule_data-bad_status dec region now ticks ttl s h =
    let b = get_state ticks.at_state s.breaker in
    ap (λ o. fetch_unless dec region now ticks nothing o s)
      (fresh_entry-forced dec ttl now (Dict.get dec region s.cache))
    ∙ if-else (is_opened b.state) _ _ h
    ∙ ap (λ a. call_breaker dec region now ticks nothing a s.cache)
        (enter-admitted ticks.at_call ticks.at_reject b h)
