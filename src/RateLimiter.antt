-- ===== src/RateLimiter.antt =====
-- bot/utils/rate_limiter.py: `TokenBucketRateLimiter`. The source's floats are scaled: a clock
-- reading is a number of microseconds and a token a million parts, so that a rate in tokens per
-- second is a number of parts per microsecond and refilling is exact.
pub mod Bounds
mod Tests
use voltyk_bot_v3_python.Prelude.{
  ℕ, ◌+◌, ◌-◌, ◌*◌, min, Option, none, some, ltb, ◌==◌, if◌then◌else◌,
}

-- 1.0, in parts of a token
abbrev pub one : ℕ
one = 1_000_000

pub record Limiter : Type 0 where
  pub rate : ℕ
  pub burst : ℕ
  pub tokens : ℕ
  pub last_refill : ℕ

-- `__init__`, the optional burst in parts of a token
abbrev pub init : ℕ → Option ℕ → Limiter
init rate none = record { rate = rate; burst = rate * one; tokens = rate * one; last_refill = 0 }
init rate (some burst) = record { rate = rate; burst = burst; tokens = burst; last_refill = 0 }

-- How `acquire` ends: at once, after a sleep of `missing / rate`, or by the `ZeroDivisionError` of
-- that quotient.
pub data Grant : Type 0 where
  immediate : Grant
  slept : ℕ → Grant
  zero_division : Grant

-- the lazy start of the clock and the refill, at the reading `now`
pub refill : ℕ → Limiter → Limiter
refill now l =
    let last = if l.last_refill == 0 then now else l.last_refill in
    record l { tokens = min l.burst (l.tokens + (now - last) * l.rate); last_refill = now }

-- `acquire`; `woke` is the clock after the sleep
pub acquire : ℕ → ℕ → Limiter → Limiter × Grant
unfolding refill
acquire now woke l =
    let r = refill now l in
    if ltb r.tokens one
    then (if r.rate == 0
        then (r, zero_division)
        else (record r { tokens = 0; last_refill = woke }, slept (one - r.tokens)))
    else (record r { tokens = r.tokens - one }, immediate)

pub update_rate : ℕ → Limiter → Limiter
update_rate rate l = record l { rate = rate; burst = rate * one }
