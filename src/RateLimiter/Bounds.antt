-- ===== src/RateLimiter/Bounds.antt =====
-- How many tokens the limiter can give out.
use voltyk_bot_v3_python.Prelude.{
  ℕ, ◌+◌, ◌-◌, ◌*◌, ◌≤◌, ◌<◌, ◌≡◌, ◌↔◌, List, [], ◌∷◌, arith, length, ap,
}
use voltyk_bot_v3_python.RateLimiter.{one, Limiter, slept, refill, acquire, update_rate}

-- A request reads the clock at `now`, and its sleep, if it has one, ends at `woke`.
-- A sleep lasts at least as long as asked for: the tokens that flow meanwhile make up for those
-- that were missing.
abbrev pub IsTimed : ℕ → ℕ → Limiter → Type 0
IsTimed now woke l =
    (l.last_refill ≤ now) × (now ≤ woke) × (one ≤ (refill now l).tokens + (woke - now) * l.rate)

pub acquire_all : List (ℕ × ℕ) → Limiter → Limiter
acquire_all [] l = l
acquire_all ((now, woke) ∷ rs) l = acquire_all rs (acquire now woke l).0

abbrev pub AllTimed : List (ℕ × ℕ) → Limiter → Type 0
AllTimed [] l = Unit
AllTimed ((now, woke) ∷ rs) l = IsTimed now woke l × AllTimed rs (acquire now woke l).0

span : (a b c r : ℕ) → a ≤ b → b ≤ c → (c - a) * r ≡ (b - a) * r + (c - b) * r
span a b c r h k =
    let e : c - a ≡ (b - a) + (c - b) = omega arith in omega (arith, ap (λ (t : ℕ). t * r) e)

-- One token more is paid for by what was in the bucket and what flowed in.
acquire_pays :
    (now woke : ℕ) (l : Limiter)
    → 0 < l.last_refill
    → 0 < l.rate
    → IsTimed now woke l
    → let l' = (acquire now woke l).0 in
      (l.last_refill ≤ l'.last_refill)
      × (l'.rate ≡ l.rate)
      × (l'.tokens + one ≤ l.tokens + (l'.last_refill - l.last_refill) * l.rate)
unfolding acquire
acquire_pays now woke l p q h = ground (arith, span l.last_refill now woke l.rate h.0 h.1)

acquire_all_pays :
    (rs : List (ℕ × ℕ)) (l : Limiter)
    → 0 < l.last_refill
    → 0 < l.rate
    → AllTimed rs l
    → let l' = acquire_all rs l in
      (l.last_refill ≤ l'.last_refill)
      × (l'.tokens + length rs * one ≤ l.tokens + (l'.last_refill - l.last_refill) * l.rate)
unfolding acquire_all
acquire_all_pays [] l p q h = omega arith
acquire_all_pays ((now, woke) ∷ rs) l p q h =
    let m = (acquire now woke l).0 in
    let (later, same, paid) = acquire_pays now woke l p q h.0 in
    let (later', paid') = acquire_all_pays rs m (omega arith) (omega arith) h.1 in
    let end = (acquire_all rs m).last_refill in
    let paid_on : (acquire_all rs m).tokens + length rs * one
        ≤ m.tokens + (end - m.last_refill) * l.rate =
      omega (arith, ap (λ (t : ℕ). (end - m.last_refill) * t) same) in
    omega (arith, span l.last_refill m.last_refill end l.rate later later')

-- From a bucket that is not over-full and whose clock has started, any number of `acquire` calls,
-- one after the other and with a rate that is not zero, are granted at most as many tokens as the
-- burst and the flow from the first refill to the last grant allow, if every sleep lasts as long
-- as asked for.
pub acquire_all_bounded :
    (rs : List (ℕ × ℕ)) (l : Limiter)
    → 0 < l.last_refill
    → 0 < l.rate
    → l.tokens ≤ l.burst
    → AllTimed rs l
    → length rs * one ≤ l.burst + ((acquire_all rs l).last_refill - l.last_refill) * l.rate
acquire_all_bounded rs l p q full h = omega (arith, acquire_all_pays rs l p q h)

-- The bucket never holds more than its burst after an `acquire`, also where `update_rate` has made
-- the burst smaller than what was in it.
pub acquire-le-burst :
    (now woke rate : ℕ) (l : Limiter)
    → ((acquire now woke l).0.tokens ≤ l.burst)
      × ((acquire now woke (update_rate rate l)).0.tokens ≤ rate * one)
unfolding acquire update_rate
acquire-le-burst now woke rate l = ground arith

-- A caller sleeps exactly when less than a whole token is left after the refill, and for as much
-- as is missing; no caller is refused unless the rate is zero.
pub acquire-slept_iff :
    (now woke missing : ℕ) (l : Limiter)
    → 0 < l.rate
    → ((acquire now woke l).1 ≡ slept missing)
      ↔ ((0 < missing) × (missing + (refill now l).tokens ≡ one))
unfolding acquire
acquire-slept_iff now woke missing l h = ground arith
