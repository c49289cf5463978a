-- ===== src/Fetch.antt =====
-- bot/services/api.py: `fetch_schedule_data`, with its cache and its circuit breaker. The type of
-- regions and that of what json.loads returns are parameters. Wall clock readings are seconds,
-- those of the breaker are ticks. What the HTTP client answers at each attempt is an argument.
pub mod Caching
pub mod Provenance
mod Tests
use voltyk_bot_v3_python.Prelude.{
  ℕ, ◌+◌, ◌-◌, max, Bool, true, false, not, ◌&&◌, Option, none, some, List, [], ◌∷◌, ◌++◌, ltb, leb,
  ◌==◌, if◌then◌else◌, length, drop, is_empty,
}
use voltyk_bot_v3_python.Prelude.Dict
use voltyk_bot_v3_python.Prelude.Dict.{Dict}
use voltyk_bot_v3_python.CircuitBreaker.{
  Breaker, is_opened, get_state, Admission, rejected, admitted, enter, Outcome, returned, raised,
  settle,
}

-- `MAX_CACHE_SIZE`
abbrev pub max_cache_size : ℕ
max_cache_size = 100

-- What one attempt meets: a readable body, one that is too large or malformed, a status other
-- than 200, a TimeoutError or ClientError, or another exception.
pub data Reply (D : Type 0) : Type 0 where
  body : D → Reply D
  too_large malformed bad_status network_error other_error : Reply D

-- TimeoutError and ClientError, or any other Exception; neither is the excluded CancelledError
pub data Error : Type 0 where
  network other : Error

-- How `_do_fetch` ends.
pub data Fetched (D : Type 0) : Type 0 where
  fetched : D → Fetched D
  nothing : Fetched D
  failed : Error → Fetched D

-- the attempts of `_do_fetch`, of which the last one re-raises
unfoldable pub attempts : {D : Type 0} → List (Reply D) → Fetched D
attempts [] = nothing
attempts (body d ∷ rest) = fetched d
attempts (too_large ∷ rest) = nothing
attempts (malformed ∷ rest) = nothing
attempts (bad_status ∷ rest) = attempts rest
attempts (network_error ∷ []) = failed network
attempts (network_error ∷ r ∷ rest) = attempts (r ∷ rest)
attempts (other_error ∷ rest) = failed other

-- `retry_delays` has two entries, so that there are three attempts.
abbrev pub do_fetch : {D : Type 0} → Reply D → Reply D → Reply D → Fetched D
do_fetch first second third = attempts (first ∷ second ∷ third ∷ [])

-- what the breaker sees of it
abbrev pub outcome_of : {D : Type 0} → Fetched D → Outcome Error
outcome_of (fetched d) = returned
outcome_of nothing = returned
outcome_of (failed e) = raised e

-- what `fetch_schedule_data` returns or raises
pub data Answer (D : Type 0) : Type 0 where
  answer : Option D → Answer D
  propagated : Error → Answer D

-- `effective_ttl`; a requested zero is taken for None
abbrev pub effective_ttl : ℕ → Option ℕ → ℕ
effective_ttl default none = max (default - 5) 10
effective_ttl default (some cache_ttl_s) =
    max ((if cache_ttl_s == 0 then default else cache_ttl_s) - 5) 10

-- The readings of the breaker's clock: for `state`, two in `call`, and when the fetch has ended.
pub record Ticks : Type 0 where
  pub at_state : ℕ
  pub at_call : ℕ
  pub at_reject : ℕ
  pub at_finish : ℕ

-- `_schedule_cache`, from the one used longest ago, and `_schedule_api_breaker`
pub record Source (K D : Type 0) : Type 0 where
  pub cache : Dict K (ℕ × D)
  pub breaker : Breaker

module _ {K D : Type 0} (dec : Discrete K) where
  -- `cache.move_to_end(key)`, where the key is there with this value
  abbrev pub move_to_end : K → ℕ × D → Dict K (ℕ × D) → Dict K (ℕ × D)
  move_to_end key entry cache = Dict.remove dec key cache ++ ((key, entry) ∷ [])

  -- `if len(cache) >= MAX_CACHE_SIZE: cache.popitem(last=False)`
  abbrev pub make_room : Dict K (ℕ × D) → Dict K (ℕ × D)
  make_room cache = if leb max_cache_size (length cache) then drop 1 cache else cache

  abbrev pub store : K → ℕ → D → Dict K (ℕ × D) → Dict K (ℕ × D)
  store key now data' cache = move_to_end key (now, data') (make_room cache)

  -- the entry that the first lock finds young enough
  abbrev pub fresh_entry : Bool → ℕ → ℕ → Option (ℕ × D) → Option (ℕ × D)
  fresh_entry force_refresh ttl now none = none
  fresh_entry force_refresh ttl now (some entry) =
      if not force_refresh && ltb now (entry.0 + ttl) then some entry else none

  -- the data of an entry of any age
  abbrev pub stale : Option (ℕ × D) → Option D
  stale none = none
  stale (some entry) = some entry.1

  module _ (region : K) (now : ℕ) (ticks : Ticks) (result : Fetched D) where
    abbrev pub settled : Breaker → Breaker
    settled b = settle (λ e. λ es. false) [] ticks.at_finish (outcome_of result) b

    -- the end of `fetch_schedule_data`, when the breaker has let the fetch run
    unfoldable pub after_fetch : Fetched D → Breaker → Dict K (ℕ × D) → Source K D × Answer D
    after_fetch (fetched d) b cache =
        (record { cache = store region now d cache; breaker = settled b }, answer (some d))
    after_fetch nothing b cache = (record { cache = cache; breaker = settled b }, answer none)
    after_fetch (failed network) b cache =
        (record { cache = cache; breaker = settled b }, answer none)
    after_fetch (failed other) b cache =
        (record { cache = cache; breaker = settled b }, propagated other)

    unfoldable pub call_breaker : Breaker × Admission → Dict K (ℕ × D) → Source K D × Answer D
    call_breaker (b, rejected retry_after) cache =
        (record { cache = cache; breaker = b }, answer (stale (Dict.get dec region cache)))
    call_breaker (b, admitted) cache = after_fetch result b cache

    unfoldable pub fetch_upstream : Breaker → Dict K (ℕ × D) → Source K D × Answer D
    fetch_upstream b cache =
        if is_opened b.state
        then (record { cache = cache; breaker = b }, answer (stale (Dict.get dec region cache)))
        else call_breaker (enter ticks.at_call ticks.at_reject b) cache

    unfoldable pub fetch_unless : Option (ℕ × D) → Source K D → Source K D × Answer D
    fetch_unless (some entry) s =
        (record s { cache = move_to_end region entry s.cache }, answer (some entry.1))
    fetch_unless none s = fetch_upstream (get_state ticks.at_state s.breaker) s.cache

    -- `fetch_schedule_data`, with what `_do_fetch` would give
    unfoldable pub fetch_schedule_data : Bool → ℕ → Source K D → Source K D × Answer D
    fetch_schedule_data force_refresh ttl s =
        fetch_unless (fresh_entry force_refresh ttl now (Dict.get dec region s.cache)) s
