-- ===== src/PowerMonitor/Eviction.antt =====
-- Eviction keeps the invariant of the debounce tasks, and the bound on the memory.
use native.Mathlib.Decide.{ℕ_discrete}
use voltyk_bot_v3_python.Prelude.{
  ℕ, ◌-◌, ◌≤◌, ◌≡◌, refl, sym, ap, ◌∙◌, not, Option, none, some, List, [], ◌∷◌, arith, length,
  select, any, ◌==◌,
}
use voltyk_bot_v3_python.Prelude.Dict
use voltyk_bot_v3_python.Prelude.Dict.{Dict}
use voltyk_bot_v3_python.PowerMonitor.{UserState, Monitor, get_state}
use voltyk_bot_v3_python.PowerMonitor.Memory.{
  state_last_touch_ts, pop_state, pop_states, keys, overflow, is_stale_state, evict_old,
  evict_overflow, evict_stale_entries, evict_inactive,
}
use voltyk_bot_v3_python.PowerMonitor.Validity.{IsValid, cancel-live, cancel-fresh}

module _ (m : Monitor) (v : IsValid m) (tid : ℕ) where
  -- whoever is found once `tid` is gone was there before, and is another
  kept :
      (j : ℕ) (us : UserState)
      → Dict.get ℕ_discrete j (Dict.remove ℕ_discrete tid m.user_states) ≡ some us
      → get_state j m ≡ some us
  kept j us found = ground (arith, Dict.get-remove ℕ_discrete j tid m.user_states)

  pop_state-IsValid : (o : Option UserState) → get_state tid m ≡ o → IsValid (pop_state o tid m)
  unfolding pop_state
  pop_state-IsValid none e = v
  pop_state-IsValid (some us) e = record {
    owned = λ id t found live.
        let (before, ne) = cancel-live us.debounce_task m.tasks id t found live in
        let (old, there, named, pending) = v.owned id t before live in
        elim (ℕ_discrete t.owner tid) [
          | yes same ↦
              let both : some old ≡ some us = sym there ∙ rw same e in absurd (ne (ground arith))
          | no other ↦ (
            old,
            ground (arith, Dict.get-remove ℕ_discrete t.owner tid m.user_states),
            named,
            pending,
          )
        ];
    fresh = λ id h. cancel-fresh us.debounce_task m.tasks id (v.fresh id h);
    apart = λ j us' found. v.apart j us' (kept j us' found);
  }

pop_states-IsValid : (tids : List ℕ) (m : Monitor) → IsValid m → IsValid (pop_states tids m)
unfolding pop_states
pop_states-IsValid [] m v = v
pop_states-IsValid (tid ∷ tids) m v =
    pop_states-IsValid tids (pop_state (get_state tid m) tid m)
      (pop_state-IsValid m v tid (get_state tid m) refl)

remove-absent :
    (k : ℕ) (d : Dict ℕ UserState) → Dict.get ℕ_discrete k d ≡ none → Dict.remove ℕ_discrete k d ≡ d
remove-absent k [] h = refl
remove-absent k (e ∷ d) h = ground (arith, remove-absent k d)

pop_state-user_states :
    (o : Option UserState) (tid : ℕ) (m : Monitor)
    → get_state tid m ≡ o
    → (pop_state o tid m).user_states ≡ Dict.remove ℕ_discrete tid m.user_states
unfolding pop_state
pop_state-user_states none tid m e = sym (remove-absent tid m.user_states e)
pop_state-user_states (some us) tid m e = refl

pub pop_states-user_states :
    (victims : Dict ℕ UserState) (m : Monitor)
    → (pop_states (keys victims) m).user_states ≡ Dict.remove_all ℕ_discrete victims m.user_states
unfolding pop_states
pop_states-user_states [] m = refl
pop_states-user_states (e ∷ victims) m =
    pop_states-user_states victims (pop_state (get_state e.0 m) e.0 m)
    ∙ ap (Dict.remove_all ℕ_discrete victims) (pop_state-user_states (get_state e.0 m) e.0 m refl)

evict_overflow_bounded :
    (max : ℕ) (m : Monitor)
    → Dict.IsDict ℕ_discrete m.user_states
    → length (evict_overflow max m).user_states ≤ max
evict_overflow_bounded max m d = rw (pop_states-user_states (overflow max m.user_states) m) (
    rw
      (Dict.length-evict ℕ_discrete (λ e. state_last_touch_ts e.1) (length m.user_states - max)
        m.user_states d)
      (omega arith))

-- In a valid monitor whose users differ, evicting keeps it valid (no task outlives its user's
-- state) and leaves at most `max` states.
pub evict_stale_entries-IsValid :
    (max stale_after now : ℕ) (m : Monitor)
    → IsValid m
    → Dict.IsDict ℕ_discrete m.user_states
    → IsValid (evict_stale_entries max stale_after now m)
      × (length (evict_stale_entries max stale_after now m).user_states ≤ max)
unfolding evict_stale_entries
evict_stale_entries-IsValid max stale_after now m v d = (
  pop_states-IsValid _ _ (pop_states-IsValid _ m v),
  evict_overflow_bounded max (evict_old stale_after now m) (
      rw (pop_states-user_states (select (is_stale_state stale_after now) m.user_states) m) (
        Dict.remove_all-IsDict ℕ_discrete (select (is_stale_state stale_after now) m.user_states)
          m.user_states d)),
)

pub evict_inactive-IsValid :
    (active : List ℕ) (m : Monitor) → IsValid m → IsValid (evict_inactive active m)
unfolding evict_inactive
evict_inactive-IsValid active m v =
    pop_states-IsValid (keys (select (λ e. not (any (λ tid. tid == e.0) active)) m.user_states)) m v

pub evict_inactive-IsDict :
    (active : List ℕ) (m : Monitor)
    → Dict.IsDict ℕ_discrete m.user_states
    → Dict.IsDict ℕ_discrete (evict_inactive active m).user_states
unfolding evict_inactive
evict_inactive-IsDict active m d =
    let gone = select (λ e. not (any (λ tid. tid == e.0) active)) m.user_states in
    rw (pop_states-user_states gone m) (Dict.remove_all-IsDict ℕ_discrete gone m.user_states d)
