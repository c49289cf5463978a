-- ===== src/PowerMonitor/Restart.antt =====
-- How the states survive a restart: the rows that `_save_all_user_states` writes, the statements
-- of bot/db/queries/power.py on user_power_states, `_restore_user_states` and
-- `_restart_pending_debounce_tasks`. Moments are seconds; a time that the source takes through
-- isoformat and back is one number.
use native.Mathlib.Decide.{ℕ_discrete}
use voltyk_bot_v3_python.Prelude.{
  ℕ, ◌+◌, ◌-◌, Bool, true, false, Option, none, some, List, [], ◌∷◌, ltb, select, is_empty,
  if◌then◌else◌,
}
use voltyk_bot_v3_python.Prelude.Dict
use voltyk_bot_v3_python.Prelude.Dict.{Dict}
use voltyk_bot_v3_python.PowerMonitor.{
  Power, UserState, Task, Monitor, put_state, discard, create_task,
}
use voltyk_bot_v3_python.PowerMonitor.Memory.{after_save}

-- a row of user_power_states
pub record StateRow : Type 0 where
  pub telegram_id : ℕ
  pub current_state : Option Power
  pub pending_state : Option Power
  pub pending_state_time : Option ℕ
  pub last_stable_state : Option Power
  pub last_stable_at : Option ℕ
  pub instability_start : Option ℕ
  pub switch_count : ℕ
  pub last_notification_at : Option ℕ
  pub updated_at : ℕ

-- the row of a state, as it is inserted at `now`
abbrev pub row_of : ℕ → ℕ → UserState → StateRow
row_of now tid us = record {
  telegram_id = tid;
  current_state = us.current_state;
  pending_state = us.pending_state;
  pending_state_time = us.pending_state_time;
  last_stable_state = us.last_stable_state;
  last_stable_at = us.last_stable_at;
  instability_start = us.instability_start;
  switch_count = us.switch_count;
  last_notification_at = us.last_notification_at;
  updated_at = now;
}

-- `rows`, from the snapshot of the ids that have a state
abbrev pub row_if : ℕ → ℕ → Option UserState → List StateRow → List StateRow
row_if now tid none rows = rows
row_if now tid (some us) rows = row_of now tid us ∷ rows

unfoldable pub rows_of : ℕ → List ℕ → Dict ℕ UserState → List StateRow
rows_of now [] states = []
rows_of now (tid ∷ tids) states =
    row_if now tid (Dict.get ℕ_discrete tid states) (rows_of now tids states)

-- the row that stays after a conflict: `update_cols` has the keys of the dict, and SQLAlchemy
-- documents that a column's `onupdate` takes no part in ON CONFLICT DO UPDATE
abbrev pub upserted : Option StateRow → StateRow → StateRow
upserted none row = row
upserted (some old) row = record row { updated_at = old.updated_at }

-- `batch_upsert_user_power_states`
unfoldable pub batch_upsert_user_power_states : List StateRow → Dict ℕ StateRow → Dict ℕ StateRow
batch_upsert_user_power_states [] table = table
batch_upsert_user_power_states (row ∷ rows) table = batch_upsert_user_power_states rows (
    Dict.insert ℕ_discrete row.telegram_id
      (upserted (Dict.get ℕ_discrete row.telegram_id table) row) table)

-- `_save_all_user_states`, by whether the write succeeds: `m` is the monitor when the snapshot is
-- taken, `answered` the one that the database's answer finds
unfoldable pub save_all_user_states :
    ℕ → Bool → Monitor → Monitor → Dict ℕ StateRow → Monitor × Dict ℕ StateRow
save_all_user_states now is_written m answered table =
    let rows = rows_of now m.dirty_states m.user_states in
    if is_empty rows then (answered, table) else (
      after_save is_written m.dirty_states answered,
      if is_written then batch_upsert_user_power_states rows table else table,
    )

-- `get_recent_user_power_states`: updated within the last hour
abbrev pub is_recent : ℕ → ℕ × StateRow → Bool
is_recent now e = ltb now (e.1.updated_at + 3600)

abbrev pub values : Dict ℕ StateRow → List StateRow
values [] = []
values (e ∷ d) = e.1 ∷ values d

unfoldable pub get_recent_user_power_states : ℕ → Dict ℕ StateRow → List StateRow
get_recent_user_power_states now table = values (select (is_recent now) table)

-- the dict that `_restore_user_states` makes of a row
abbrev pub restored_state : StateRow → UserState
restored_state row = record {
  current_state = row.current_state;
  last_change_at = none;
  consecutive_checks = 0;
  is_first_check = false;
  pending_state = row.pending_state;
  pending_state_time = row.pending_state_time;
  original_change_time = row.pending_state_time;
  debounce_task = none;
  instability_start = row.instability_start;
  switch_count = row.switch_count;
  last_stable_state = row.last_stable_state;
  last_stable_at = row.last_stable_at;
  last_ping_time = none;
  last_ping_success = none;
  last_notification_at = row.last_notification_at;
}

-- `_restore_user_states`
unfoldable pub restore_user_states : List StateRow → Monitor → Monitor
restore_user_states [] m = m
restore_user_states (row ∷ rows) m =
    restore_user_states rows (record (put_state row.telegram_id (restored_state row) m) {
      dirty_states = discard row.telegram_id m.dirty_states;
    })

-- `remaining_s`
abbrev pub remaining : ℕ → ℕ → Option ℕ → ℕ
remaining now debounce_s none = debounce_s
remaining now debounce_s (some pending_at) = (pending_at + debounce_s) - now

-- `user_state.get("original_change_time") or pending_state_time`
abbrev pub first_of : Option ℕ → Option ℕ → Option ℕ
first_of none o = o
first_of (some t) o = some t

abbrev pub restored_task : ℕ → ℕ → ℕ → Power → UserState → Task
restored_task now debounce_s tid pending us = record {
  owner = tid;
  new_state = pending;
  old_state = us.current_state;
  wake_at = now + remaining now debounce_s us.pending_state_time;
  restored = true;
  orig_dt = first_of us.original_change_time us.pending_state_time;
  is_done = false;
}

-- the body of the loop of `_restart_pending_debounce_tasks`, by what is pending and by the task
unfoldable pub restart_one : ℕ → ℕ → ℕ → Option Power → Option ℕ → UserState → Monitor → Monitor
restart_one now debounce_s tid none task us m = m
restart_one now debounce_s tid (some pending) (some id) us m = m
restart_one now debounce_s tid (some pending) none us m =
    create_task (restored_task now debounce_s tid pending us)
      (put_state tid (record us { debounce_task = some m.next_task }) m)

-- `_restart_pending_debounce_tasks`, over the snapshot of the items
unfoldable pub restart_pending_debounce_tasks : ℕ → ℕ → Dict ℕ UserState → Monitor → Monitor
restart_pending_debounce_tasks now debounce_s [] m = m
restart_pending_debounce_tasks now debounce_s ((tid, us) ∷ items) m =
    restart_pending_debounce_tasks now debounce_s items
      (restart_one now debounce_s tid us.pending_state us.debounce_task us m)
