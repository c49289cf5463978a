-- ===== src/CircuitBreaker/Tests.antt =====
-- Runs of the circuit breaker, and its theorems at concrete events.
use voltyk_bot_v3_python.Prelude.{
  ℕ, ◌+◌, ◌<◌, ◌≡◌, refl, ◌↔◌, Bool, List, [], ◌∷◌, arith, All, ◌==◌, any,
}
use voltyk_bot_v3_python.CircuitBreaker.{
  closed, opened, Breaker, Event, begin, finish, raised, rejected, init, enter, run,
}
use voltyk_bot_v3_python.CircuitBreaker.Calls.{IsValid, init-IsValid, run-IsValid}
use voltyk_bot_v3_python.CircuitBreaker.Trips.{failures_of, run-closed_iff}
use voltyk_bot_v3_python.CircuitBreaker.Outage.{IsRejected, admissions, admissions-opened}

-- exceptions by number, and a tuple of types as the numbers that it covers
abbrev isinstance : ℕ → List ℕ → Bool
isinstance e excluded = any (λ x. x == e) excluded

abbrev excluded : List ℕ
excluded = 404 ∷ []

abbrev fresh : Breaker
fresh = init 2 60

abbrev failing : List (Event ℕ)
failing =
    begin 1 1
    ∷ begin 2 2
    ∷ finish 3 (raised 404)
    ∷ finish 4 (raised 500)
    ∷ begin 5 5
    ∷ finish 6 (raised 500)
    ∷ []

abbrev tripped : Breaker
tripped = record fresh { state = opened; failures = 2; opened_at = 6 }

run-failing : run isinstance excluded fresh failing ≡ tripped
unfolding run
run-failing = refl

enter-tripped : enter 10 11 tripped ≡ (tripped, rejected 55)
unfolding enter
enter-tripped = refl

run-IsValid_example : IsValid (run isinstance excluded fresh failing)
run-IsValid_example =
    run-IsValid isinstance excluded failing fresh (omega arith) (init-IsValid 2 60 (omega arith))

run-closed_iff_example :
    ((run isinstance excluded fresh failing).state ≡ closed)
    ↔ (0 + failures_of isinstance excluded failing < 2)
run-closed_iff_example =
    run-closed_iff isinstance excluded failing fresh (omega arith) (init-IsValid 2 60 (omega arith))
      (ground arith)

abbrev outage : List (Event ℕ)
outage = begin 7 7 ∷ finish 20 (raised 500) ∷ begin 65 65 ∷ []

admissions-opened_example : All IsRejected (admissions isinstance excluded tripped outage)
admissions-opened_example =
    admissions-opened isinstance excluded 6 outage tripped refl (omega arith) (ground arith)
