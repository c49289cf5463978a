-- ===== src/Heartbeat/Tests.antt =====
-- Runs of the heartbeat module, and its theorems at concrete tasks.
use native.Mathlib.Decide.{ℕ_discrete as dec}
use voltyk_bot_v3_python.Prelude.{ℕ, ◌≡◌, refl, none, some, [], ◌∷◌}
use voltyk_bot_v3_python.Heartbeat.{
  Heartbeat, unset, given, reset, register, beat, snapshot, stale_tasks,
}
use voltyk_bot_v3_python.Heartbeat.Staleness.{mentions, stale_tasks-register}

-- task 1 on the global threshold, task 2 on its own
abbrev tasks : Heartbeat ℕ
tasks = record { beats = (1, 100) ∷ (2, 100) ∷ []; thresholds = (1, none) ∷ (2, some 5000) ∷ [] }

register-tasks : register dec 100 2 (given (some 5000)) (register dec 100 1 unset reset) ≡ tasks
unfolding register dec
register-tasks = refl

snapshot-tasks : snapshot dec 130 tasks ≡ (1, 30) ∷ (2, 30) ∷ []
unfolding snapshot
snapshot-tasks = refl

stale-tasks : stale_tasks dec 500 300 tasks ≡ 1 ∷ []
unfolding stale_tasks dec
stale-tasks = refl

stale_tasks-register_example :
    (mentions dec 2 (stale_tasks dec 700 300 (register dec 450 2 unset tasks))
      ≡ mentions dec 2 (stale_tasks dec 700 300 (beat dec 450 2 tasks)))
    × (mentions dec 2 (stale_tasks dec 700 300 (register dec 450 2 (given (some 0)) tasks))
        ≡ mentions dec 2 (stale_tasks dec 700 300 (register dec 450 2 (given none) tasks)))
unfolding dec
stale_tasks-register_example = stale_tasks-register dec 450 700 300 tasks 2 2 (refl, (refl, tt))
