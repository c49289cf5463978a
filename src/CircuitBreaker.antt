-- ===== src/CircuitBreaker.antt =====
-- bot/utils/circuit_breaker.py: `CircuitBreaker`. Clock readings are numbers of ticks; the source
-- compares differences of readings, which is written here as a sum on the other side. The type
-- of exceptions and Python's `isinstance` test against a tuple of types are parameters.
pub mod Calls
pub mod Outage
pub mod Trips
mod Tests
use voltyk_bot_v3_python.Prelude.{
  ℕ, ◌+◌, ◌-◌, Bool, true, false, not, ◌&&◌, ◌||◌, List, [], ◌∷◌, leb, if◌then◌else◌, is_empty,
}

-- `_CLOSED`, `_OPEN`, `_HALF_OPEN`
pub data State : Type 0 where
  closed opened half_open : State

abbrev pub is_opened : State → Bool
is_opened opened = true
is_opened _ = false

abbrev pub is_half_open : State → Bool
is_half_open half_open = true
is_half_open _ = false

pub record Breaker : Type 0 where
  pub fail_max : ℕ
  pub reset_timeout : ℕ
  pub state : State
  pub failures : ℕ
  pub opened_at : ℕ

-- `__init__`
abbrev pub init : ℕ → ℕ → Breaker
init fail_max reset_timeout = record {
  fail_max = fail_max;
  reset_timeout = reset_timeout;
  state = closed;
  failures = 0;
  opened_at = 0;
}

-- `_get_state` at the reading `now`; the state that it returns is the field of the result
unfoldable pub get_state : ℕ → Breaker → Breaker
get_state now b =
    if is_opened b.state && leb (b.opened_at + b.reset_timeout) now
    then record b { state = half_open }
    else b

-- `CircuitBreakerOpen` with its `retry_after`, or the call of `fn`
pub data Admission : Type 0 where
  rejected : ℕ → Admission
  admitted : Admission

-- the first block of `call`; `later` is the second clock reading, for `retry_after`, and
-- `max(0.0, ...)` is the subtraction that stops at zero
unfoldable pub enter : ℕ → ℕ → Breaker → Breaker × Admission
unfolding get_state
enter now later b =
    let b' = get_state now b in
    if is_opened b'.state
    then (b', rejected (b'.opened_at + b'.reset_timeout - later))
    else (b', admitted)

-- `_on_success`
unfoldable pub on_success : Breaker → Breaker
on_success b = record b { state = closed; failures = 0 }

-- `_on_failure`
pub on_failure : ℕ → Breaker → Breaker
on_failure now b =
    if is_half_open b.state || leb b.fail_max (b.failures + 1)
    then record b { failures = b.failures + 1; state = opened; opened_at = now }
    else record b { failures = b.failures + 1 }

-- How the awaited `fn` ends. What is no `Exception`, such as a cancellation, passes `call` by.
pub data Outcome (Exc : Type 0) : Type 0 where
  returned : Outcome Exc
  raised : Exc → Outcome Exc
  interrupted : Outcome Exc

-- What happens to a breaker shared by concurrent callers: a call comes in, and an admitted one ends.
pub data Event (Exc : Type 0) : Type 0 where
  begin : ℕ → ℕ → Event Exc
  finish : ℕ → Outcome Exc → Event Exc

module _ {Exc : Type 0} (isinstance : Exc → List Exc → Bool) (exclude : List Exc) where
  -- `not self.exclude or not isinstance(exc, self.exclude)`
  abbrev pub counts : Exc → Bool
  counts exc = is_empty exclude || not (isinstance exc exclude)

  -- the rest of `call`, once `fn` has ended
  unfoldable pub settle : ℕ → Outcome Exc → Breaker → Breaker
  unfolding on_success on_failure
  settle now returned b = on_success b
  settle now (raised exc) b = if counts exc then on_failure now b else b
  settle now interrupted b = b

  abbrev pub step : Breaker → Event Exc → Breaker
  step b (begin now later) = (enter now later b).0
  step b (finish now outcome) = settle now outcome b

  pub run : Breaker → List (Event Exc) → Breaker
  unfolding enter settle
  run b [] = b
  run b (e ∷ es) = run (step b e) es
