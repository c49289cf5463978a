-- ===== src/CircuitBreaker/Calls.antt =====
-- What one call does to the breaker, and the invariant of its fields.
use voltyk_bot_v3_python.Prelude.{ℕ, ◌+◌, ◌-◌, ◌≤◌, ◌<◌, ◌≡◌, ◌↔◌, Bool, List, [], ◌∷◌, arith}
use voltyk_bot_v3_python.CircuitBreaker.{
  closed, opened, Breaker, Event, begin, finish, Outcome, returned, raised, interrupted, rejected,
  admitted, init, enter, settle, step, run,
}

-- The failure count tells whether the breaker is closed.
pub record IsValid (b : Breaker) : Type 0 where
  pub counted : (b.state ≡ closed) ↔ (b.failures < b.fail_max)

-- A call is turned away with `retry_after` r exactly when the breaker is open, its timeout has not
-- passed, and r is the time left at the second clock reading. Then the breaker does not change.
pub enter-rejected_iff :
    (now later r : ℕ) (b : Breaker)
    → (enter now later b ≡ (b, rejected r)) ↔ (
        (b.state ≡ opened)
        × (now < b.opened_at + b.reset_timeout)
        × (r ≡ b.opened_at + b.reset_timeout - later))
unfolding enter
enter-rejected_iff now later r b = ground arith

-- Once the timeout has passed, a call is let through whatever the state, and if it returns, the
-- breaker is closed with no failures.
pub recovery :
    {Exc : Type 0} (isinstance : Exc → List Exc → Bool) (exclude : List Exc) (now later end : ℕ)
    (b : Breaker)
    → b.opened_at + b.reset_timeout ≤ now
    → let (b', admission) = enter now later b in
      (admission ≡ admitted)
      × (settle isinstance exclude end returned b' ≡ record b { state = closed; failures = 0 })
unfolding enter settle
recovery isinstance exclude now later end b h = ground arith

pub init-IsValid :
    (fail_max reset_timeout : ℕ) → 0 < fail_max → IsValid (init fail_max reset_timeout)
init-IsValid fail_max reset_timeout h = record { counted = ground arith }

enter-IsValid : (now later : ℕ) (b : Breaker) → IsValid b → IsValid (enter now later b).0
unfolding enter
enter-IsValid now later b v = record { counted = ground (arith, v.counted) }

module _ {Exc : Type 0} (isinstance : Exc → List Exc → Bool) (exclude : List Exc) where
  settle-IsValid :
      (now : ℕ) (o : Outcome Exc) (b : Breaker)
      → 0 < b.fail_max
      → IsValid b
      → IsValid (settle isinstance exclude now o b)
  unfolding settle
  settle-IsValid now returned b p v = record { counted = ground arith }
  settle-IsValid now (raised exc) b p v = record { counted = ground (arith, v.counted) }
  settle-IsValid now interrupted b p v = v

  fail_max-step :
      (e : Event Exc) (b : Breaker) → (step isinstance exclude b e).fail_max ≡ b.fail_max
  unfolding enter settle
  fail_max-step (begin now later) b = ground arith
  fail_max-step (finish now returned) b = ground arith
  fail_max-step (finish now (raised exc)) b = ground arith
  fail_max-step (finish now interrupted) b = ground arith

  pub step-IsValid :
      (e : Event Exc) (b : Breaker)
      → 0 < b.fail_max
      → IsValid b
      → IsValid (step isinstance exclude b e) × (0 < (step isinstance exclude b e).fail_max)
  step-IsValid (begin now later) b p v =
      (enter-IsValid now later b v, omega (arith, fail_max-step (begin now later) b))
  step-IsValid (finish now o) b p v =
      (settle-IsValid now o b p v, omega (arith, fail_max-step (finish now o) b))

  -- However calls of concurrent callers interleave, a breaker with a positive `fail_max` is closed
  -- exactly when it has counted fewer failures than `fail_max`.
  pub run-IsValid :
      (es : List (Event Exc)) (b : Breaker)
      → 0 < b.fail_max
      → IsValid b
      → IsValid (run isinstance exclude b es)
  unfolding run
  run-IsValid [] b p v = v
  run-IsValid (e ∷ es) b p v =
      let (v', p') = step-IsValid e b p v in run-IsValid es (step isinstance exclude b e) p' v'
