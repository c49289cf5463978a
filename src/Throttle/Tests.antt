-- ===== src/Throttle/Tests.antt =====
-- Runs of the throttle, and its theorems at concrete events.
use native.Mathlib.Decide.{ℕ_discrete}
use voltyk_bot_v3_python.Prelude.{◌≡◌, ◌≢◌, refl, true, false, some, [], ◌∷◌, arith, All}
use voltyk_bot_v3_python.Prelude.Dict
use voltyk_bot_v3_python.Throttle.{Throttle, call}
use voltyk_bot_v3_python.Throttle.Spacing.{passed, passed-spaced, call-noted}

abbrev throttle : Throttle
throttle = record { rate_limit = 500; last_call = (7, 1000) ∷ (8, 900) ∷ []; last_cleanup = 0 }

call-dropped : call 9 1400 (some 7) throttle ≡ (throttle, false)
unfolding call ℕ_discrete
call-dropped = refl

-- 7 is old enough to go, and of the two that are left the cap drops the older
call-cleanup :
    call 1 300_001
      (some 5)
      (record throttle { last_call = (7, 1000) ∷ (8, 250_000) ∷ (9, 240_002) ∷ [] })
    ≡ (
      record throttle { last_call = (8, 250_000) ∷ (5, 300_001) ∷ []; last_cleanup = 300_001 },
      true,
    )
unfolding call ℕ_discrete
call-cleanup = refl

passed-spaced_example : All (λ u. u ≢ 7) (passed 9 ((1100, 8) ∷ (1499, 7) ∷ []) throttle)
unfolding ℕ_discrete
passed-spaced_example =
    passed-spaced 9 7 1000 ((1100, 8) ∷ (1499, 7) ∷ []) throttle (refl, (refl, tt)) refl
      (omega arith) (omega arith) (omega arith)

call-noted_example : Dict.get ℕ_discrete 7 (call 9 1500 (some 7) throttle).0.last_call ≡ some 1500
unfolding call ℕ_discrete
call-noted_example = call-noted 9 1500 7 throttle refl
