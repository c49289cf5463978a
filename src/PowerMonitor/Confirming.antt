-- ===== src/PowerMonitor/Confirming.antt =====
-- A task that confirms a change.
use voltyk_bot_v3_python.Prelude.{ℕ, ◌≤◌, ◌≡◌, false, some}
use voltyk_bot_v3_python.Prelude.Dict
use voltyk_bot_v3_python.PowerMonitor.{is_power, UserState, Task, Monitor, get_task, get_state}
use voltyk_bot_v3_python.PowerMonitor.Machine.{Confirmation, confirmed}
use voltyk_bot_v3_python.PowerMonitor.Flapping.{confirmation}

-- The task and the state that a confirmation at `now` comes from, and the state afterwards.
abbrev pub Confirms : ℕ → ℕ → Confirmation → Monitor → Monitor → Type 0
Confirms now id c m m' =
    (t : Task) × (get_task id m ≡ some t)
    × (t.wake_at ≤ now)
    × (us : UserState) × (get_state t.owner m ≡ some us)
    × (us.pending_state ≡ some t.new_state)
    × (is_power t.new_state us.current_state ≡ false)
    × (c ≡ confirmation t us)
    × (get_state t.owner m' ≡ some (confirmed t.new_state us))
