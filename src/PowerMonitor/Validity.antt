-- ===== src/PowerMonitor/Validity.antt =====
-- The invariant of the debounce tasks, and the one lemma by which the operations keep it.
use native.Mathlib.Decide.{ℕ_discrete}
use voltyk_bot_v3_python.Prelude.{
  ℕ, ◌≤◌, ◌≡◌, ◌≢◌, sym, subst, ◌∙◌, false, Option, none, some, List, arith, inl, inr, Option-cases,
}
use voltyk_bot_v3_python.Prelude.Dict
use voltyk_bot_v3_python.Prelude.Dict.{Dict}
use voltyk_bot_v3_python.PowerMonitor.{
  Power, is_power, UserState, Task, Monitor, get_task, get_state, finish, cancel,
}

-- A pending change is never to the state that is current already, nor before the first check.
abbrev pub IsApart : UserState → Type 0
IsApart us =
    (p : Power)
    → us.pending_state ≡ some p
    → (is_power p us.current_state ≡ false) × (us.is_first_check ≡ false)

-- what a task that is alive rests on
abbrev pub IsOwned : Monitor → ℕ → Task → Type 0
IsOwned m id t =
    (us : UserState) × (get_state t.owner m ≡ some us)
    × (us.debounce_task ≡ some id)
    × (us.pending_state ≡ some t.new_state)

-- A task that is alive is the one that its user's state names, and is about the pending change
-- of that state: so no user has two.
pub record IsValid (m : Monitor) : Type 0 where
  pub owned : (id : ℕ) (t : Task) → get_task id m ≡ some t → t.is_done ≡ false → IsOwned m id t
  pub fresh : (id : ℕ) → m.next_task ≤ id → get_task id m ≡ none
  pub apart : (tid : ℕ) (us : UserState) → get_state tid m ≡ some us → IsApart us

-- A live task after a change of one user's state: another user's, as before, or that user's own.
pub data Fits (m : Monitor) (tid : ℕ) (us : UserState) (id : ℕ) (t : Task) : Type 0 where
  other : t.owner ≢ tid → get_task id m ≡ some t → Fits m tid us id t
  own :
      t.owner ≡ tid
      → us.debounce_task ≡ some id
      → us.pending_state ≡ some t.new_state
      → Fits m tid us id t

module _ (m : Monitor) (v : IsValid m) (tid : ℕ) (us : UserState) (tasks : Dict ℕ Task) (next : ℕ)
    (dirty : List ℕ) where
  abbrev pub replaced : Monitor
  replaced = record {
    user_states = Dict.insert ℕ_discrete tid us m.user_states;
    dirty_states = dirty;
    tasks = tasks;
    next_task = next;
  }

  replaced-IsOwned :
      (id : ℕ) (t : Task) → t.is_done ≡ false → Fits m tid us id t → IsOwned replaced id t
  replaced-IsOwned id t live (other ne found) =
      let (old, at, named, pending) = v.owned id t found live in
      (old, Dict.get-insert_ne ℕ_discrete t.owner tid us m.user_states ne ∙ at, named, pending)
  replaced-IsOwned id t live (own e named pending) =
      (us, rw e (Dict.get-insert_self ℕ_discrete tid us m.user_states), named, pending)

  pub replaced-IsValid :
      ((id : ℕ) (t : Task)
        → Dict.get ℕ_discrete id tasks ≡ some t
        → t.is_done ≡ false
        → Fits m tid us id t)
      → ((id : ℕ) → next ≤ id → Dict.get ℕ_discrete id tasks ≡ none)
      → IsApart us
      → IsValid replaced
  replaced-IsValid fits fresh apart = record {
    owned = λ id t found live. replaced-IsOwned id t live (fits id t found live);
    fresh = fresh;
    apart = λ j old found. elim (ℕ_discrete j tid) [
      | yes e ↦
          let same : some us ≡ some old =
            sym (rw e (Dict.get-insert_self ℕ_discrete tid us m.user_states)) ∙ found in
          let same' : us ≡ old = cc same in subst IsApart same' apart
      | no ne ↦
          v.apart j old (sym (Dict.get-insert_ne ℕ_discrete j tid us m.user_states ne) ∙ found)
    ];
  }

-- A task that is alive after a cancellation was alive before, and is not the one cancelled.
pub cancel-live :
    (o : Option ℕ) (tasks : Dict ℕ Task) (id : ℕ) (t : Task)
    → Dict.get ℕ_discrete id (cancel o tasks) ≡ some t
    → t.is_done ≡ false
    → (Dict.get ℕ_discrete id tasks ≡ some t) × (o ≢ some id)
unfolding cancel
cancel-live none tasks id t found live = (found, λ e. cc)
cancel-live (some c) tasks id t found live = elim (Option-cases (Dict.get ℕ_discrete c tasks)) [
  | inl none' ↦ ground arith
  | inr (old, at) ↦ ground (arith, Dict.get-insert ℕ_discrete id c (finish old) tasks)
]

pub cancel-fresh :
    (o : Option ℕ) (tasks : Dict ℕ Task) (id : ℕ)
    → Dict.get ℕ_discrete id tasks ≡ none
    → Dict.get ℕ_discrete id (cancel o tasks) ≡ none
unfolding cancel
cancel-fresh none tasks id h = h
cancel-fresh (some c) tasks id h = elim (Option-cases (Dict.get ℕ_discrete c tasks)) [
  | inl none' ↦ ground arith
  | inr (old, at) ↦ ground (arith, Dict.get-insert ℕ_discrete id c (finish old) tasks)
]
