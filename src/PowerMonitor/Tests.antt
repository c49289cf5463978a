-- ===== src/PowerMonitor/Tests.antt =====
-- The state machine of the power monitor on concrete runs.
use native.Mathlib.Decide.{ℕ_discrete}
use voltyk_bot_v3_python.Prelude.{
  ◌≡◌, ◌≤◌, refl, true, false, none, some, List, [], ◌∷◌, arith, length,
}
use voltyk_bot_v3_python.Prelude.Dict
use voltyk_bot_v3_python.PowerMonitor.{
  on, off, UserState, Task, Monitor, get_task, get_state, or_created, get_user_state, cancel,
}
use voltyk_bot_v3_python.PowerMonitor.Machine.{
  unchanged, unchanged_from, changed, advance, with_ping, check_user_power, wake, wake_task,
  wake_with, Confirmation,
}
use voltyk_bot_v3_python.PowerMonitor.Validity.{IsValid}
use voltyk_bot_v3_python.PowerMonitor.Flapping.{check_user_power-calms, check_user_power-arms}
use voltyk_bot_v3_python.PowerMonitor.Runs.{
  Event, run_events, empty_monitor, empty_monitor-IsValid, run_events-IsValid,
}
use voltyk_bot_v3_python.PowerMonitor.Memory.{evict_stale_entries}
use voltyk_bot_v3_python.PowerMonitor.Eviction.{evict_stale_entries-IsValid}

-- user 7 is on at 10, and off at 20, which the database knows at 21
abbrev events : List Event
events = Event.check 10 10 300 7 none (some true) ∷ Event.check 20 21 300 7 none (some false) ∷ []

abbrev seen_on : Monitor
seen_on = run_events (Event.check 10 10 300 7 none (some true) ∷ []) empty_monitor

abbrev waiting : Monitor
waiting = run_events events empty_monitor

abbrev user_on : UserState
user_on = record {
  current_state = some on;
  last_change_at = none;
  consecutive_checks = 0;
  is_first_check = false;
  pending_state = none;
  pending_state_time = none;
  original_change_time = none;
  debounce_task = none;
  instability_start = none;
  switch_count = 0;
  last_stable_state = some on;
  last_stable_at = none;
  last_ping_time = some 10;
  last_ping_success = some true;
  last_notification_at = none;
}

abbrev user_waiting : UserState
user_waiting = record user_on {
  pending_state = some off;
  pending_state_time = some 20;
  original_change_time = some 20;
  debounce_task = some 0;
  instability_start = some 20;
  switch_count = 1;
  last_ping_time = some 20;
  last_ping_success = some false;
}

abbrev debounce : Task
debounce = record {
  owner = 7;
  new_state = off;
  old_state = some on;
  wake_at = 321;
  restored = false;
  orig_dt = none;
  is_done = false;
}

abbrev ended_debounce : Task
ended_debounce = record debounce { is_done = true }

abbrev outage : Confirmation
outage = record { user = 7; new_state = off; old_state = some on; change_time = some 20 }

seen_on_state : get_state 7 seen_on ≡ some user_on
unfolding run_events check_user_power with_ping get_user_state or_created advance ℕ_discrete
seen_on_state = refl

waiting_state : get_state 7 waiting ≡ some user_waiting
unfolding run_events check_user_power with_ping get_user_state or_created advance changed cancel
    ℕ_discrete
waiting_state = refl

waiting_task : get_task 0 waiting ≡ some debounce
unfolding run_events check_user_power with_ping get_user_state or_created advance changed cancel
    ℕ_discrete
waiting_task = refl

waiting_IsDict : Dict.IsDict ℕ_discrete waiting.user_states
unfolding run_events check_user_power with_ping get_user_state or_created advance changed cancel
    ℕ_discrete
waiting_IsDict = (refl, tt)

cancelled_task :
    get_task 0 (check_user_power 30 30 300 7 none (some true) waiting).0 ≡ some ended_debounce
unfolding run_events check_user_power with_ping get_user_state or_created advance changed unchanged
    unchanged_from cancel ℕ_discrete
cancelled_task = refl

asleep : (wake 320 0 waiting).1 ≡ none
unfolding run_events check_user_power with_ping get_user_state or_created advance changed cancel
    wake wake_task wake_with ℕ_discrete
asleep = refl

run_events-IsValid_example : IsValid (run_events events empty_monitor)
run_events-IsValid_example = run_events-IsValid events empty_monitor empty_monitor-IsValid

check_user_power-calms_example : ended_debounce.is_done ≡ true
check_user_power-calms_example =
    check_user_power-calms 30 30 300 7 none true user_waiting waiting
      (run_events-IsValid events empty_monitor empty_monitor-IsValid) waiting_state refl refl 0
      ended_debounce cancelled_task refl

check_user_power-arms_example :
    (wake 400 seen_on.next_task (check_user_power 20 21 300 7 none (some false) seen_on).0).1
    ≡ some outage
check_user_power-arms_example =
    check_user_power-arms 20 21 300 7 none false user_on seen_on seen_on_state refl refl refl 400
      (omega arith)

evict_stale_entries-IsValid_example :
    IsValid (evict_stale_entries 0 86400 500 waiting)
    × (length (evict_stale_entries 0 86400 500 waiting).user_states ≤ 0)
evict_stale_entries-IsValid_example =
    evict_stale_entries-IsValid 0 86400 500 waiting
      (run_events-IsValid events empty_monitor empty_monitor-IsValid) waiting_IsDict
