-- ===== src/PowerMonitor/Runs.antt =====
-- A run of the monitor: checks and tasks that wake, in any order.
use voltyk_bot_v3_python.Prelude.{ℕ, ◌≡◌, refl, Bool, false, Option, some, List, [], ◌∷◌, sym, ◌∙◌}
use voltyk_bot_v3_python.PowerMonitor.{Task, Monitor, get_task}
use voltyk_bot_v3_python.PowerMonitor.Machine.{Tracking, check_user_power, wake}
use voltyk_bot_v3_python.PowerMonitor.Validity.{IsValid}
use voltyk_bot_v3_python.PowerMonitor.Debounce.{check_user_power-IsValid, wake-IsValid}

-- One step: a check of a user, or the event loop's turn for a task.
pub data Event : Type 0 where
  check : (now later delay_s tid : ℕ) → Option Tracking → Option Bool → Event
  tick : (now id : ℕ) → Event

abbrev pub step : Event → Monitor → Monitor
step (check now later delay_s tid tracking ping) m =
    (check_user_power now later delay_s tid tracking ping m).0
step (tick now id) m = (wake now id m).0

-- the monitor after the events, in their order
unfoldable pub run_events : List Event → Monitor → Monitor
run_events [] m = m
run_events (e ∷ es) m = run_events es (step e m)

-- the process as it starts
abbrev pub empty_monitor : Monitor
empty_monitor = record { user_states = []; dirty_states = []; tasks = []; next_task = 0 }

pub empty_monitor-IsValid : IsValid empty_monitor
empty_monitor-IsValid = record {
  owned = λ id t found live. cc;
  fresh = λ id h. refl;
  apart = λ tid us found. cc;
}

step-IsValid : (e : Event) (m : Monitor) → IsValid m → IsValid (step e m)
step-IsValid (check now later delay_s tid tracking ping) m v =
    check_user_power-IsValid now later delay_s tid tracking ping m v
step-IsValid (tick now id) m v = wake-IsValid now id m v

-- Checks and tasks that wake, in any order, keep a valid monitor valid: each task that is alive
-- is the one that its user's state names and is about that state's pending change, and a pending
-- change is never to the current state.
pub run_events-IsValid : (es : List Event) (m : Monitor) → IsValid m → IsValid (run_events es m)
unfolding run_events
run_events-IsValid [] m v = v
run_events-IsValid (e ∷ es) m v = run_events-IsValid es (step e m) (step-IsValid e m v)

-- After any run from the start, no user has two debounce tasks that are alive.
pub run_events-one_task :
    (es : List Event) (i j : ℕ) (t u : Task)
    → get_task i (run_events es empty_monitor) ≡ some t
    → get_task j (run_events es empty_monitor) ≡ some u
    → t.is_done ≡ false
    → u.is_done ≡ false
    → t.owner ≡ u.owner
    → i ≡ j
run_events-one_task es i j t u found found' live live' same =
    let v = run_events-IsValid es empty_monitor empty_monitor-IsValid in
    let (us, there, named, _) = v.owned i t found live in
    let (us', there', named', _) = v.owned j u found' live' in
    let both : some us ≡ some us' = sym there ∙ rw same there' in cc
