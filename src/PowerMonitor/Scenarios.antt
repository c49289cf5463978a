-- ===== src/PowerMonitor/Scenarios.antt =====
-- Restarts and notices of the power monitor on concrete states.
use native.Mathlib.Decide.{ℕ_discrete}
use voltyk_bot_v3_python.Prelude.{ℕ, ◌≡◌, refl, true, false, none, some, [], ◌∷◌, arith, is_empty}
use voltyk_bot_v3_python.Prelude.Text.{codes}
use voltyk_bot_v3_python.Prelude.Dict
use voltyk_bot_v3_python.Prelude.Dict.{Dict}
use voltyk_bot_v3_python.PowerMonitor.{on, off, UserState, new_user_state, Monitor, get_state}
use voltyk_bot_v3_python.PowerMonitor.Validity.{IsValid}
use voltyk_bot_v3_python.PowerMonitor.Runs.{empty_monitor}
use voltyk_bot_v3_python.PowerMonitor.Restart.{
  StateRow, row_of, batch_upsert_user_power_states, get_recent_user_power_states,
  restore_user_states, save_all_user_states, restart_pending_debounce_tasks,
}
use voltyk_bot_v3_python.PowerMonitor.Saving.{contains}
use voltyk_bot_v3_python.PowerMonitor.Restoring.{restore_user_states-first_saved}
use voltyk_bot_v3_python.PowerMonitor.Reloading.{IsBack, IsRecent, save_all_user_states-restored}
use voltyk_bot_v3_python.PowerMonitor.Resuming.{
  Snapshots, Resumed, restart_pending_debounce_tasks-Resumed,
}
use voltyk_bot_v3_python.PowerMonitor.Notice.{
  Loaded, loaded, World, sent, forbidden, handle_power_state_change, handle_loaded, send_all,
}
use voltyk_bot_v3_python.PowerMonitor.Cooldown.{handle_power_state_change-cooldown}

-- user 7 was on, and has been off since 1000, which is not confirmed yet
abbrev pending_off : UserState
pending_off = record new_user_state {
  current_state = some on;
  is_first_check = false;
  pending_state = some off;
  pending_state_time = some 1000;
  original_change_time = some 1000;
  switch_count = 1;
  last_stable_state = some on;
}

abbrev users : Dict ℕ UserState
users = (7, pending_off) ∷ []

-- the monitor that a restart finds before the timers are started
abbrev before : Monitor
before = record empty_monitor { user_states = users }

before_state : get_state 7 before ≡ some pending_off
unfolding ℕ_discrete
before_state = refl

before-IsValid : IsValid before
unfolding ℕ_discrete
before-IsValid = record {
  owned = λ id t found live. cc;
  fresh = λ id h. refl;
  apart = λ tid us found p e. ground (arith, found);
}

users_snapshot : Snapshots users before
unfolding ℕ_discrete
users_snapshot = (refl, tt)

users-IsDict : Dict.IsDict ℕ_discrete users
users-IsDict = (refl, tt)

restart_pending_debounce_tasks-Resumed_example :
    IsValid (restart_pending_debounce_tasks 1100 300 users before)
    × Resumed 1100 300 7 pending_off off 1000 (restart_pending_debounce_tasks 1100 300 users before)
restart_pending_debounce_tasks-Resumed_example =
    restart_pending_debounce_tasks-Resumed 1100 300 users before 7 1000 pending_off off
      before-IsValid users_snapshot users-IsDict before_state refl refl refl

-- The row was first inserted at 1000; the change that is saved at 9000 is not seen at 9100.
abbrev table : Dict ℕ StateRow
table = (7, row_of 1000 7 pending_off) ∷ []

table_row : Dict.get ℕ_discrete 7 table ≡ some (row_of 1000 7 pending_off)
unfolding ℕ_discrete
table_row = refl

-- a save at 1050, while whose write runs the user comes back on
abbrev dirty : Monitor
dirty = record before { dirty_states = 7 ∷ [] }

abbrev dirty_again : Monitor
dirty_again = record dirty { user_states = (7, record pending_off { pending_state = none }) ∷ [] }

dirty_state : get_state 7 dirty ≡ some pending_off
unfolding ℕ_discrete
dirty_state = refl

table-IsRecent : IsRecent 7 1100 table
unfolding ℕ_discrete
table-IsRecent = record {
  keyed = (refl, tt);
  distinct = (refl, tt);
  recent = λ row found. ground arith;
}

save_all_user_states-restored_example :
    (contains 7 (save_all_user_states 1050 true dirty dirty_again table).0.dirty_states ≡ false)
    × (us' : UserState) × (get_state 7 (
          restore_user_states
            (get_recent_user_power_states 1100
              (save_all_user_states 1050 true dirty dirty_again table).1)
            empty_monitor)
        ≡ some us')
    × IsBack pending_off us'
save_all_user_states-restored_example =
    save_all_user_states-restored 1050 1100 7 pending_off dirty dirty_again empty_monitor table refl
      dirty_state table-IsRecent (omega arith)

restore_user_states-first_saved_example :
    get_state 7 (
      restore_user_states
        (get_recent_user_power_states 9100
          (batch_upsert_user_power_states (row_of 9000 7 pending_off ∷ []) table))
        empty_monitor)
    ≡ get_state 7 empty_monitor
restore_user_states-first_saved_example =
    restore_user_states-first_saved 7 9100 (row_of 1000 7 pending_off)
      (row_of 9000 7 pending_off ∷ []) table empty_monitor (refl, tt) (refl, tt) table_row
      (omega arith)

-- Telegram delivers the message to the user, who has no channel.
abbrev world : World
world = record {
  now = 2000;
  cooldown = 60;
  time_str = codes "12:00";
  next_event = none;
  bot_reply = sent 5;
  channel_reply = forbidden;
}

abbrev plain_user : Loaded
plain_user = loaded (record { notification_settings = none; channel_config = none }) none

abbrev handled : UserState
handled = (handle_power_state_change world 7 off (some 1900) plain_user pending_off).state

told :
    is_empty (handle_power_state_change world 7 off (some 1900) plain_user pending_off).sends
    ≡ false
unfolding handle_power_state_change handle_loaded send_all
told = refl

handle_power_state_change-cooldown_example :
    (handle_power_state_change
      (record world { now = 2030 })
      7
      on
      (some 2029)
      plain_user
      handled).sends
    ≡ []
handle_power_state_change-cooldown_example =
    handle_power_state_change-cooldown world (record world { now = 2030 }) 7 off on (some 1900)
      (some 2029) plain_user plain_user pending_off told (omega arith)

abbrev blocked_world : World
blocked_world = record world { bot_reply = forbidden }

blocked :
    (handle_power_state_change blocked_world 7 off (some 1900) plain_user pending_off).deactivated
    ≡ true
unfolding handle_power_state_change handle_loaded send_all
blocked = refl
