-- ===== src/PowerMonitor/Memory.antt =====
-- What bounds the memory: `_state_last_touch_ts`, `_evict_stale_entries` and the eviction of
-- inactive users in `_check_all_ips`; and what is saved: `_save_all_user_states`.
use native.Mathlib.Decide.{ℕ_discrete}
use voltyk_bot_v3_python.Prelude.{
  ℕ, ◌+◌, ◌-◌, Bool, true, false, not, ◌&&◌, Option, none, some, List, [], ◌∷◌, ltb, ◌==◌, any,
  select, take, length,
}
use voltyk_bot_v3_python.Prelude.Dict
use voltyk_bot_v3_python.Prelude.Dict.{Dict}
use voltyk_bot_v3_python.Prelude.Sort.{sort_by}
use voltyk_bot_v3_python.PowerMonitor.{UserState, Monitor, get_state, discard, cancel}

-- `_state_last_touch_ts`; 0 is a state that has no timestamp
abbrev pub state_last_touch_ts : UserState → ℕ
state_last_touch_ts us = elim us.last_change_at [
  | some t ↦ t
  | none ↦ elim us.last_ping_time [ some t ↦ t | none ↦ 0 ]
]

-- `_user_states.pop(tid)`, `_dirty_states.discard(tid)`, and the cancellation of its task
unfoldable pub pop_state : Option UserState → ℕ → Monitor → Monitor
pop_state none tid m = m
pop_state (some us) tid m = record m {
  user_states = Dict.remove ℕ_discrete tid m.user_states;
  dirty_states = discard tid m.dirty_states;
  tasks = cancel us.debounce_task m.tasks;
}

unfoldable pub pop_states : List ℕ → Monitor → Monitor
pop_states [] m = m
pop_states (tid ∷ tids) m = pop_states tids (pop_state (get_state tid m) tid m)

abbrev pub keys : Dict ℕ UserState → List ℕ
keys [] = []
keys (e ∷ d) = e.0 ∷ keys d

-- "TTL eviction first"
abbrev pub is_stale_state : ℕ → ℕ → ℕ × UserState → Bool
is_stale_state stale_after now e =
    not (state_last_touch_ts e.1 == 0) && ltb (state_last_touch_ts e.1 + stale_after) now

-- the victims of the cap: those touched longest ago
abbrev pub overflow : ℕ → Dict ℕ UserState → Dict ℕ UserState
overflow max d = take (length d - max) (sort_by (λ e. state_last_touch_ts e.1) d)

abbrev pub evict_old : ℕ → ℕ → Monitor → Monitor
evict_old stale_after now m =
    pop_states (keys (select (is_stale_state stale_after now) m.user_states)) m

abbrev pub evict_overflow : ℕ → Monitor → Monitor
evict_overflow max m = pop_states (keys (overflow max m.user_states)) m

-- `_evict_stale_entries`
unfoldable pub evict_stale_entries : ℕ → ℕ → ℕ → Monitor → Monitor
evict_stale_entries max stale_after now m = evict_overflow max (evict_old stale_after now m)

-- "Evict _user_states entries for users no longer in the active set"
unfoldable pub evict_inactive : List ℕ → Monitor → Monitor
evict_inactive active m =
    pop_states (keys (select (λ e. not (any (λ tid. tid == e.0) active)) m.user_states)) m

-- The end of `_save_all_user_states`, by whether the write succeeded: the ids of the snapshot are
-- taken out of the set as it is then, and stay in it where the write failed.
unfoldable pub after_save : Bool → List ℕ → Monitor → Monitor
after_save false save_ids m = m
after_save true save_ids m = record m {
  dirty_states = select (λ tid. not (any (λ x. x == tid) save_ids)) m.dirty_states;
}
