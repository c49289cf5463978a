-- ===== src/PowerMonitor/Machine.antt =====
-- `_check_user_power` and the debounce tasks.
use native.Mathlib.Decide.{ℕ_discrete}
use voltyk_bot_v3_python.Prelude.{
  ℕ, ◌+◌, Bool, false, not, ◌&&◌, ◌||◌, Option, none, some, List, [], ◌∷◌, ltb, ◌==◌, if◌then◌else◌,
}
use voltyk_bot_v3_python.Prelude.Dict
use voltyk_bot_v3_python.PowerMonitor.{
  Power, power_eq, is_power, power_of, UserState, Task, Monitor, get_task, get_state, mark_dirty,
  put_state, get_user_state, finish, cancel, is_waiting, create_task,
}

-- `user.power_tracking`, as far as the first check reads it
pub record Tracking : Type 0 where
  pub power_state : Option Power
  pub power_changed_at : Option ℕ

-- What `_check_user_power` writes to the user's row, where the database answers.
pub data DbWrite : Type 0 where
  initial_state : ℕ → Power → ℕ → DbWrite
  clear_pending : ℕ → DbWrite
  set_pending : ℕ → Power → ℕ → DbWrite

-- "First check: seed from DB without sending notification"
abbrev pub seed_from : Power → ℕ → UserState → UserState
seed_from power changed_at us = record us {
  current_state = some power;
  last_stable_state = some power;
  last_stable_at = elim us.last_stable_at [ none ↦ some changed_at | some t ↦ some t ];
  is_first_check = false;
}

abbrev pub seed_new : Power → UserState → UserState
seed_new new_state us = record us {
  current_state = some new_state;
  last_stable_state = some new_state;
  last_stable_at = none;
  is_first_check = false;
  consecutive_checks = 0;
}

abbrev pub seed_without : ℕ → ℕ → Power → UserState → Monitor → Monitor × List DbWrite
seed_without now tid new_state us m =
    (put_state tid (seed_new new_state us) m, DbWrite.initial_state tid new_state now ∷ [])

abbrev pub seed_by :
    Option Power → Option ℕ → ℕ → ℕ → Power → UserState → Monitor → Monitor × List DbWrite
seed_by none changed_at now tid new_state us m = seed_without now tid new_state us m
seed_by (some power) none now tid new_state us m = seed_without now tid new_state us m
seed_by (some power) (some changed_at) now tid new_state us m =
    (put_state tid (seed_from power changed_at us) m, [])

abbrev pub first_check :
    ℕ → ℕ → Option Tracking → Power → UserState → Monitor → Monitor × List DbWrite
first_check now tid none new_state us m = seed_without now tid new_state us m
first_check now tid (some tracking) new_state us m =
    seed_by tracking.power_state tracking.power_changed_at now tid new_state us m

-- `if task and not task.done(): task.cancel(); user_state["debounce_task"] = None`
abbrev pub after_cancel : UserState → Monitor → Option ℕ
after_cancel us m = if is_waiting us.debounce_task m.tasks then none else us.debounce_task

abbrev pub with_cancelled : UserState → Monitor → Monitor
with_cancelled us m = record m { tasks = cancel us.debounce_task m.tasks }

-- "State unchanged", by what is pending: a change to the other state is cancelled.
unfoldable pub unchanged_from :
    Option Power → ℕ → Power → UserState → Monitor → Monitor × List DbWrite
unchanged_from none tid new_state us m =
    (put_state tid (record us { consecutive_checks = 0 }) m, [])
unchanged_from (some pending) tid new_state us m =
    if power_eq pending new_state
    then (put_state tid (record us { consecutive_checks = 0 }) m, [])
    else (
      mark_dirty tid (
          put_state tid
            (record us {
              consecutive_checks = 0;
              debounce_task = after_cancel us m;
              switch_count = us.switch_count + 1;
              pending_state = none;
              pending_state_time = none;
              original_change_time = none;
            })
            (with_cancelled us m)),
      DbWrite.clear_pending tid ∷ [],
    )

unfoldable pub unchanged : ℕ → Power → UserState → Monitor → Monitor × List DbWrite
unchanged tid new_state us m = unchanged_from us.pending_state tid new_state us m

-- `debounce_s`, with the fallback for a delay of zero
abbrev pub delay : ℕ → ℕ → ℕ
delay debounce_s min_stabilization = if debounce_s == 0 then min_stabilization else debounce_s

-- "New state differs from current and from pending": the timer starts at `later`, once the
-- database has answered.
unfoldable pub changed : ℕ → ℕ → ℕ → ℕ → Power → UserState → Monitor → Monitor × List DbWrite
changed now later delay_s tid new_state us m = (
  create_task
      (record {
        owner = tid;
        new_state = new_state;
        old_state = us.current_state;
        wake_at = later + delay_s;
        restored = false;
        orig_dt = none;
        is_done = false;
      })
      (mark_dirty tid (
        put_state tid
          (record us {
            debounce_task = some m.next_task;
            instability_start = elim us.pending_state [
              | none ↦ some now
              | some _ ↦ us.instability_start
            ];
            switch_count = elim us.pending_state [ none ↦ 1 | some _ ↦ us.switch_count + 1 ];
            pending_state = some new_state;
            pending_state_time = some now;
            original_change_time = some now;
          })
          (with_cancelled us m))),
  DbWrite.set_pending tid new_state now ∷ [],
)

-- the state machine, on the state that the ping has been noted in
unfoldable pub advance :
    ℕ → ℕ → ℕ → ℕ → Option Tracking → Power → UserState → Monitor → Monitor × List DbWrite
unfolding unchanged changed
advance now later delay_s tid tracking new_state us m =
    if us.is_first_check
    then first_check now tid tracking new_state us m
    else if is_power new_state us.current_state
    then unchanged tid new_state us m
    else if is_power new_state us.pending_state
    then (m, [])
    else changed now later delay_s tid new_state us m

-- the first block: the ping is noted
abbrev pub note_ping : ℕ → Bool → UserState → UserState
note_ping now is_available us = record us {
  last_ping_time = some now;
  last_ping_success = some is_available;
}

unfoldable pub with_ping :
    ℕ → ℕ → ℕ → ℕ → Option Tracking → Bool → UserState × Monitor → Monitor × List DbWrite
with_ping now later delay_s tid tracking is_available (us, m) =
    advance now later delay_s tid tracking (power_of is_available) (note_ping now is_available us)
      (mark_dirty tid (put_state tid (note_ping now is_available us) m))

-- `_check_user_power`, with the router's answer; None is a user with no address. The database
-- answers between `now` and `later`.
unfoldable pub check_user_power :
    ℕ → ℕ → ℕ → ℕ → Option Tracking → Option Bool → Monitor → Monitor × List DbWrite
check_user_power now later delay_s tid tracking none m = (m, [])
check_user_power now later delay_s tid tracking (some is_available) m =
    with_ping now later delay_s tid tracking is_available (get_user_state tid m)

-- What a task hands to `_handle_power_state_change`.
pub record Confirmation : Type 0 where
  pub user : ℕ
  pub new_state : Power
  pub old_state : Option Power
  pub change_time : Option ℕ

-- the block under the lock of `_confirm_state` and of `_confirm_restored`
abbrev pub confirmed : Power → UserState → UserState
confirmed new_state us = record us {
  current_state = some new_state;
  consecutive_checks = 0;
  debounce_task = none;
  pending_state = none;
  pending_state_time = none;
  original_change_time = none;
}

-- `orig_dt`, captured or read
abbrev pub change_time_of : Task → UserState → Option ℕ
change_time_of t us = if t.restored then t.orig_dt else us.original_change_time

abbrev pub confirm : ℕ → Task → UserState → Monitor → Monitor × Option Confirmation
confirm id t us m = (
  mark_dirty t.owner (
      put_state t.owner (confirmed t.new_state us)
        (record m { tasks = Dict.insert ℕ_discrete id (finish t) m.tasks })),
  some (record {
    user = t.owner;
    new_state = t.new_state;
    old_state = t.old_state;
    change_time = change_time_of t us;
  }),
)

abbrev pub end_task : ℕ → Task → Monitor → Monitor × Option Confirmation
end_task id t m = (record m { tasks = Dict.insert ℕ_discrete id (finish t) m.tasks }, none)

-- A task that wakes with the state of its user: a restored one goes on only if its change is
-- still pending; the other one trusts that it would have been cancelled. The source's closure
-- holds the state itself; here it is looked up, and a task that is alive has one (Validity).
unfoldable pub wake_with : Option UserState → ℕ → Task → Monitor → Monitor × Option Confirmation
wake_with none id t m = end_task id t m
wake_with (some us) id t m =
    if t.restored && not (is_power t.new_state us.pending_state)
    then end_task id t m
    else confirm id t us m

unfoldable pub wake_task : Option Task → ℕ → ℕ → Monitor → Monitor × Option Confirmation
wake_task none now id m = (m, none)
wake_task (some t) now id m =
    if t.is_done || ltb now t.wake_at then (m, none) else wake_with (get_state t.owner m) id t m

-- the event loop runs task `id` at `now`
unfoldable pub wake : ℕ → ℕ → Monitor → Monitor × Option Confirmation
wake now id m = wake_task (get_task id m) now id m
