-- ===== src/RateLimiter/Tests.antt =====
-- Runs of the rate limiter, and its theorems at concrete requests.
use voltyk_bot_v3_python.Prelude.{
  ℕ, ◌+◌, ◌-◌, ◌*◌, ◌≤◌, ◌≡◌, refl, none, List, [], ◌∷◌, arith, length,
}
use voltyk_bot_v3_python.RateLimiter.{
  one, Limiter, immediate, zero_division, init, refill, acquire, update_rate,
}
use voltyk_bot_v3_python.RateLimiter.Bounds.{acquire_all, acquire_all_bounded}

-- two tokens a second, one of them left
abbrev limiter : Limiter
limiter = record (init 2 none) { tokens = one; last_refill = 1_000_000 }

abbrev requests : List (ℕ × ℕ)
requests = (1_000_000, 1_000_000) ∷ (1_100_000, 1_500_000) ∷ (1_600_000, 2_000_007) ∷ []

acquire-first :
    acquire 5 5 (init 2 none) ≡ (record (init 2 none) { tokens = one; last_refill = 5 }, immediate)
unfolding acquire
acquire-first = refl

acquire-zero : (acquire 5 5 (init 0 none)).1 ≡ zero_division
unfolding acquire
acquire-zero = refl

acquire-update_rate : (acquire 1_000_000 0 (update_rate 1 limiter)).1 ≡ immediate
unfolding acquire update_rate
acquire-update_rate = refl

acquire_all_bounded_example :
    length requests * one
    ≤ limiter.burst + ((acquire_all requests limiter).last_refill - limiter.last_refill) * 2
unfolding acquire refill
acquire_all_bounded_example =
    acquire_all_bounded requests limiter (omega arith) (omega arith) (omega arith) (omega arith)
