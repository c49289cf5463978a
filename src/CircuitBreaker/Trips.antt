-- ===== src/CircuitBreaker/Trips.antt =====
-- When the breaker opens.
use voltyk_bot_v3_python.Prelude.{
  ℕ, suc, ◌+◌, ◌<◌, ◌≡◌, ◌↔◌, Bool, List, [], ◌∷◌, arith, if◌then◌else◌, All,
}
use voltyk_bot_v3_python.CircuitBreaker.{
  closed, Breaker, Event, begin, finish, returned, raised, interrupted, enter, settle, counts, run,
}
use voltyk_bot_v3_python.CircuitBreaker.Calls.{IsValid, run-IsValid}

abbrev pub IsReturn : {Exc : Type 0} → Event Exc → Type 0
IsReturn (finish now returned) = Unit
IsReturn _ = ⊥

module _ {Exc : Type 0} (isinstance : Exc → List Exc → Bool) (exclude : List Exc) where
  -- the failures of a sequence of events that count
  abbrev pub failures_of : List (Event Exc) → ℕ
  failures_of [] = 0
  failures_of (finish now (raised exc) ∷ es) =
      if counts isinstance exclude exc then suc (failures_of es) else failures_of es
  failures_of (_ ∷ es) = failures_of es

  pub failures-run :
      (es : List (Event Exc)) (b : Breaker)
      → All (λ e. ¬ IsReturn e) es
      → ((run isinstance exclude b es).failures ≡ b.failures + failures_of es)
        × ((run isinstance exclude b es).fail_max ≡ b.fail_max)
  unfolding run enter settle
  failures-run [] b h = omega arith
  failures-run (begin now later ∷ es) b h =
      ground (arith, failures-run es (enter now later b).0 h.1)
  failures-run (finish now returned ∷ es) b h = absurd (h.0 tt)
  failures-run (finish now (raised exc) ∷ es) b h =
      ground (arith, failures-run es (settle isinstance exclude now (raised exc) b) h.1)
  failures-run (finish now interrupted ∷ es) b h = ground (arith, failures-run es b h.1)

  -- As long as no call succeeds, the breaker stays closed exactly until the failures that count,
  -- with those counted before, reach `fail_max`, however the calls interleave.
  pub run-closed_iff :
      (es : List (Event Exc)) (b : Breaker)
      → 0 < b.fail_max
      → IsValid b
      → All (λ e. ¬ IsReturn e) es
      → ((run isinstance exclude b es).state ≡ closed) ↔ (b.failures + failures_of es < b.fail_max)
  run-closed_iff es b p v h =
      let (f, m) = failures-run es b h in
      let valid = run-IsValid isinstance exclude es b p v in
      (λ c. omega (arith, valid.counted.0 c), λ lt. valid.counted.1 (omega arith))
