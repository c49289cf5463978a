-- ===== src/Fetch/Tests.antt =====
-- `fetch_schedule_data` on concrete caches.
use native.Mathlib.Decide.{ℕ_discrete}
use voltyk_bot_v3_python.Prelude.{ℕ, ◌≡◌, refl, true, false, none, some, [], ◌∷◌, arith}
use voltyk_bot_v3_python.Prelude.Dict
use voltyk_bot_v3_python.Prelude.Dict.{Dict}
use voltyk_bot_v3_python.CircuitBreaker.{init, is_opened, get_state, enter, settle, on_success}
use voltyk_bot_v3_python.Fetch.{
  bad_status, body, fetched, do_fetch, attempts, Ticks, Source, answer, fetch_schedule_data,
  fetch_unless, fetch_upstream, call_breaker, after_fetch,
}
use voltyk_bot_v3_python.Fetch.Caching.{IsBounded}
use voltyk_bot_v3_python.Fetch.Provenance.{
  IsKnown, fetch_schedule_data-IsKnown, fetch_schedule_data-bad_status,
}

abbrev ticks : Ticks
ticks = record { at_state = 50; at_call = 50; at_reject = 50; at_finish = 51 }

-- regions 3 and 4 with the data 30 and 40
abbrev source : Source ℕ ℕ
source = record { cache = (3, (100, 30)) ∷ (4, (200, 40)) ∷ []; breaker = init 5 60 }

source_IsBounded : IsBounded ℕ_discrete source.cache
unfolding ℕ_discrete
source_IsBounded = ((refl, (refl, tt)), omega arith)

-- the second attempt succeeds, and the data goes to the end of the cache
refetched :
    fetch_schedule_data ℕ_discrete 3 220 ticks
      (do_fetch bad_status (body 31) bad_status)
      false
      115
      source
    ≡ (record source { cache = (4, (200, 40)) ∷ (3, (220, 31)) ∷ [] }, answer (some 31))
unfolding fetch_schedule_data fetch_unless fetch_upstream call_breaker after_fetch attempts
    get_state enter settle on_success ℕ_discrete
refetched = refl

known_answer :
    (fetch_schedule_data ℕ_discrete 3 220 ticks (fetched 31) false 115 source).1 ≡ answer (some 31)
unfolding fetch_schedule_data fetch_unless fetch_upstream call_breaker after_fetch get_state enter
    settle on_success ℕ_discrete
known_answer = refl

fetch_schedule_data-IsKnown_example :
    IsKnown ℕ_discrete 3 220 ticks
      (fetched 31)
      false
      115
      (get_state 50 source.breaker)
      source.cache
      31
fetch_schedule_data-IsKnown_example =
    fetch_schedule_data-IsKnown ℕ_discrete 3 220 ticks (fetched 31) false 115 source 31 known_answer

held_4 : Dict.get ℕ_discrete 4 source.cache ≡ some (200, 40)
unfolding ℕ_discrete
held_4 = refl

not_open : is_opened (get_state 50 source.breaker).state ≡ false
unfolding get_state
not_open = refl

fetch_schedule_data-bad_status_example :
    fetch_schedule_data ℕ_discrete 3 220 ticks
      (do_fetch bad_status bad_status bad_status)
      true
      115
      source
    ≡ (
      record { cache = source.cache; breaker = on_success (get_state 50 source.breaker) },
      answer none,
    )
fetch_schedule_data-bad_status_example =
    fetch_schedule_data-bad_status ℕ_discrete 3 220 ticks 115 source not_open
