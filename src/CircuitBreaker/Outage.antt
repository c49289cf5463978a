-- ===== src/CircuitBreaker/Outage.antt =====
-- While the breaker is open.
use voltyk_bot_v3_python.Prelude.{ℕ, ◌+◌, ◌≤◌, ◌<◌, ◌≡◌, refl, Bool, List, [], ◌∷◌, arith, All}
use voltyk_bot_v3_python.CircuitBreaker.{
  opened, Breaker, Event, begin, finish, returned, raised, interrupted, Admission, rejected,
  admitted, enter, settle,
}
use voltyk_bot_v3_python.CircuitBreaker.Trips.{IsReturn}

abbrev pub IsRejected : Admission → Type 0
IsRejected (rejected _) = Unit
IsRejected admitted = ⊥

abbrev pub at : {Exc : Type 0} → Event Exc → ℕ
at (begin now later) = now
at (finish now outcome) = now

module _ {Exc : Type 0} (isinstance : Exc → List Exc → Bool) (exclude : List Exc) where
  -- what the calls that come in are told
  pub admissions : Breaker → List (Event Exc) → List Admission
  unfolding enter
  admissions b [] = []
  admissions b (begin now later ∷ es) = (enter now later b).1 ∷ admissions (enter now later b).0 es
  admissions b (finish now outcome ∷ es) = admissions (settle isinstance exclude now outcome b) es

  opened_until :
      (start limit : ℕ) (es : List (Event Exc)) (b : Breaker)
      → b.state ≡ opened
      → start ≤ b.opened_at
      → start + b.reset_timeout ≡ limit
      → All (λ e. (¬ IsReturn e) × (start ≤ at e) × (at e < limit)) es
      → All IsRejected (admissions b es)
  unfolding admissions enter settle
  opened_until start limit [] b o s r h = tt
  opened_until start limit (begin now later ∷ es) b o s r h =
      ground (arith, opened_until start limit es b o s r h.1)
  opened_until start limit (finish now returned ∷ es) b o s r h = absurd (h.0.0 tt)
  opened_until start limit (finish now (raised exc) ∷ es) b o s r h =
      opened_until start limit es (settle isinstance exclude now (raised exc) b) (ground arith)
        (ground arith) (ground arith) h.1
  opened_until start limit (finish now interrupted ∷ es) b o s r h =
      opened_until start limit es b o s r h.1

  -- Calls that were let in before the breaker opened may still end: if none of them succeeds, an
  -- open breaker turns every call away, at any time from `start` until `reset_timeout` later,
  -- where it opened at `start` or after.
  pub admissions-opened :
      (start : ℕ) (es : List (Event Exc)) (b : Breaker)
      → b.state ≡ opened
      → start ≤ b.opened_at
      → All (λ e. (¬ IsReturn e) × (start ≤ at e) × (at e < start + b.reset_timeout)) es
      → All IsRejected (admissions b es)
  admissions-opened start es b o s h = opened_until start (start + b.reset_timeout) es b o s refl h
