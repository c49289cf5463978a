-- ===== src/PowerMonitor.antt =====
-- bot/services/power_monitor.py: the states of the users' electricity in memory, and the machine
-- that debounces them. Moments are numbers of seconds, telegram ids are numbers, and a user's
-- dict is a record. The awaited database and network calls enter as arguments: what they return.
-- An asyncio task is an entry of `tasks`; `cancel` takes effect at once.
pub mod Machine
pub mod Validity
pub mod Debounce
pub mod Flapping
pub mod Confirming
pub mod Runs
pub mod Memory
pub mod Eviction
pub mod Saving
pub mod Sweep
pub mod Interleaved
pub mod Hearing
pub mod Sweeping
pub mod Cycles
pub mod Restart
pub mod Restoring
pub mod SavedRows
pub mod Reloading
pub mod Resuming
pub mod Notice
pub mod Cooldown
mod Tests
mod CycleTests
mod Scenarios
use native.Mathlib.Decide.{ℕ_discrete}
use voltyk_bot_v3_python.Prelude.{
  ℕ, zero, suc, ◌+◌, ◌-◌, ◌*◌, Bool, true, false, not, ◌&&◌, ◌||◌, Option, none, some, List, [],
  ◌∷◌, ltb, leb, ◌==◌, if◌then◌else◌, any, select,
}
use voltyk_bot_v3_python.Prelude.Dict
use voltyk_bot_v3_python.Prelude.Dict.{Dict}

pub data Power : Type 0 where
  on off : Power

abbrev pub power_eq : Power → Power → Bool
power_eq on on = true
power_eq off off = true
power_eq on off = false
power_eq off on = false

-- `state == p`, where the state may be None
abbrev pub is_power : Power → Option Power → Bool
is_power p none = false
is_power p (some q) = power_eq q p

-- `new_state = "on" if is_available else "off"`
abbrev pub power_of : Bool → Power
power_of true = on
power_of false = off

-- the dict that `_get_user_state` creates
pub record UserState : Type 0 where
  pub current_state : Option Power
  pub last_change_at : Option ℕ
  pub consecutive_checks : ℕ
  pub is_first_check : Bool
  pub pending_state : Option Power
  pub pending_state_time : Option ℕ
  pub original_change_time : Option ℕ
  pub debounce_task : Option ℕ
  pub instability_start : Option ℕ
  pub switch_count : ℕ
  pub last_stable_state : Option Power
  pub last_stable_at : Option ℕ
  pub last_ping_time : Option ℕ
  pub last_ping_success : Option Bool
  pub last_notification_at : Option ℕ

abbrev pub new_user_state : UserState
new_user_state = record {
  current_state = none;
  last_change_at = none;
  consecutive_checks = 0;
  is_first_check = true;
  pending_state = none;
  pending_state_time = none;
  original_change_time = none;
  debounce_task = none;
  instability_start = none;
  switch_count = 0;
  last_stable_state = none;
  last_stable_at = none;
  last_ping_time = none;
  last_ping_success = none;
  last_notification_at = none;
}

-- A debounce task that sleeps until `wake_at`, with the variables that its closure captures;
-- `restored` tells `_confirm_restored` from `_confirm_state`, and `orig_dt` is what the former
-- captures (the latter reads the state when it wakes).
pub record Task : Type 0 where
  pub owner : ℕ
  pub new_state : Power
  pub old_state : Option Power
  pub wake_at : ℕ
  pub restored : Bool
  pub orig_dt : Option ℕ
  pub is_done : Bool

-- `_user_states`, `_dirty_states`, and the tasks of the event loop by number
pub record Monitor : Type 0 where
  pub user_states : Dict ℕ UserState
  pub dirty_states : List ℕ
  pub tasks : Dict ℕ Task
  pub next_task : ℕ

abbrev pub get_task : ℕ → Monitor → Option Task
get_task id m = Dict.get ℕ_discrete id m.tasks

abbrev pub get_state : ℕ → Monitor → Option UserState
get_state tid m = Dict.get ℕ_discrete tid m.user_states

-- `s.add(x)` and `s.discard(x)`
abbrev pub add : ℕ → List ℕ → List ℕ
add x s = if any (λ y. y == x) s then s else x ∷ s

abbrev pub discard : ℕ → List ℕ → List ℕ
discard x s = select (λ y. not (y == x)) s

-- `_mark_dirty`
abbrev pub mark_dirty : ℕ → Monitor → Monitor
mark_dirty tid m = record m { dirty_states = add tid m.dirty_states }

abbrev pub put_state : ℕ → UserState → Monitor → Monitor
put_state tid us m = record m { user_states = Dict.insert ℕ_discrete tid us m.user_states }

-- `_get_user_state`: the state, beside the monitor that has it
unfoldable pub or_created : Option UserState → ℕ → Monitor → UserState × Monitor
or_created none tid m = (new_user_state, mark_dirty tid (put_state tid new_user_state m))
or_created (some us) tid m = (us, m)

unfoldable pub get_user_state : ℕ → Monitor → UserState × Monitor
get_user_state tid m = or_created (get_state tid m) tid m

-- a task that has ended, or was cancelled
abbrev pub finish : Task → Task
finish t = record t { is_done = true }

-- `task = user_state.get("debounce_task"); if task and not task.done(): task.cancel()`
unfoldable pub cancel : Option ℕ → Dict ℕ Task → Dict ℕ Task
cancel none tasks = tasks
cancel (some id) tasks = elim (Dict.get ℕ_discrete id tasks) [
  | none ↦ tasks
  | some t ↦ Dict.insert ℕ_discrete id (finish t) tasks
]

-- whether that `if` is taken
abbrev pub is_waiting : Option ℕ → Dict ℕ Task → Bool
is_waiting none tasks = false
is_waiting (some id) tasks = elim (Dict.get ℕ_discrete id tasks) [
  | none ↦ false
  | some t ↦ not t.is_done
]

-- `asyncio.create_task`: the number of the task, and the monitor that has it
abbrev pub create_task : Task → Monitor → Monitor
create_task t m = record m {
  tasks = Dict.insert ℕ_discrete m.next_task t m.tasks;
  next_task = m.next_task + 1;
}
