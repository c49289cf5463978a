-- ===== src/PowerMonitor/Resuming.antt =====
-- The timers that a restart starts again.
use native.Mathlib.Decide.{ℕ_discrete}
use voltyk_bot_v3_python.Prelude.{
  ℕ, ◌+◌, ◌≡◌, ◌≢◌, refl, sym, subst, ap, ◌∙◌, false, Option, none, some, [], ◌∷◌, arith, max,
}
use voltyk_bot_v3_python.Prelude.Dict
use voltyk_bot_v3_python.Prelude.Dict.{Dict}
use voltyk_bot_v3_python.PowerMonitor.{
  Power, UserState, Task, Monitor, get_state, get_task, put_state, cancel, create_task,
}
use voltyk_bot_v3_python.PowerMonitor.Machine.{with_cancelled}
use voltyk_bot_v3_python.PowerMonitor.Validity.{IsValid}
use voltyk_bot_v3_python.PowerMonitor.Debounce.{start}
use voltyk_bot_v3_python.PowerMonitor.Restart.{
  remaining, restored_task, restart_one, restart_pending_debounce_tasks,
}

-- the deadline survives: the task wakes when the change has been pending for the delay
pub wake_at-restored :
    (now debounce_s tid at_time : ℕ) (p : Power) (us : UserState)
    → us.pending_state_time ≡ some at_time
    → (restored_task now debounce_s tid p us).wake_at ≡ max now (at_time + debounce_s)
wake_at-restored now debounce_s tid at_time p us e =
    ap (λ o. now + remaining now debounce_s o) e ∙ omega arith

-- the items of a snapshot: no key twice, and each is what the monitor has
abbrev pub Snapshots : Dict ℕ UserState → Monitor → Type 0
Snapshots [] m = Unit
Snapshots (e ∷ items) m = (get_state e.0 m ≡ some e.1) × Snapshots items m

no_cancel :
    (us : UserState) (m : Monitor) → us.debounce_task ≡ none → (with_cancelled us m).tasks ≡ m.tasks
unfolding cancel
no_cancel us m e = ap (λ o. cancel o m.tasks) e

restart_one-IsValid :
    (now debounce_s tid : ℕ) (o : Option Power) (task : Option ℕ) (us : UserState) (m : Monitor)
    → us.pending_state ≡ o
    → us.debounce_task ≡ task
    → IsValid m
    → get_state tid m ≡ some us
    → IsValid (restart_one now debounce_s tid o task us m)
unfolding restart_one
restart_one-IsValid now debounce_s tid none task us m e f v held = v
restart_one-IsValid now debounce_s tid (some p) (some id) us m e f v held = v
restart_one-IsValid now debounce_s tid (some p) none us m e f v held =
    let us' = record us { debounce_task = some m.next_task } in
    let new = restored_task now debounce_s tid p us in
    subst (λ tasks. IsValid (create_task new (put_state tid us' (record m { tasks = tasks }))))
      (no_cancel us m f)
      (start m v tid us held us' new m.dirty_states refl refl e (v.apart tid us held))

-- a task that there is, and another user's state, are left alone
restart_one-task :
    (now debounce_s tid : ℕ) (o : Option Power) (task : Option ℕ) (us : UserState) (m : Monitor)
    (id : ℕ) (t : Task)
    → IsValid m
    → get_task id m ≡ some t
    → get_task id (restart_one now debounce_s tid o task us m) ≡ some t
unfolding restart_one
restart_one-task now debounce_s tid none task us m id t v found = found
restart_one-task now debounce_s tid (some p) (some x) us m id t v found = found
restart_one-task now debounce_s tid (some p) none us m id t v found =
    Dict.get-insert_ne ℕ_discrete id m.next_task (restored_task now debounce_s tid p us) m.tasks
      (λ e.
        let clash : none ≡ some t = sym (v.fresh m.next_task (omega arith)) ∙ rw (← e) found in cc)
    ∙ found

restart_one-state :
    (now debounce_s tid : ℕ) (o : Option Power) (task : Option ℕ) (us : UserState) (m : Monitor)
    (j : ℕ)
    → j ≢ tid
    → get_state j (restart_one now debounce_s tid o task us m) ≡ get_state j m
unfolding restart_one
restart_one-state now debounce_s tid none task us m j ne = refl
restart_one-state now debounce_s tid (some p) (some x) us m j ne = refl
restart_one-state now debounce_s tid (some p) none us m j ne =
    Dict.get-insert_ne ℕ_discrete j tid (record us { debounce_task = some m.next_task })
      m.user_states ne

restart_one-Snapshots :
    (now debounce_s tid : ℕ) (o : Option Power) (task : Option ℕ) (us : UserState) (m : Monitor)
    (items : Dict ℕ UserState)
    → Dict.get ℕ_discrete tid items ≡ none
    → Snapshots items m
    → Snapshots items (restart_one now debounce_s tid o task us m)
restart_one-Snapshots now debounce_s tid o task us m [] absent s = tt
restart_one-Snapshots now debounce_s tid o task us m (x ∷ items) absent s =
    elim (ℕ_discrete tid x.0) [
      | yes same ↦ ground arith
      | no ne ↦ (
        restart_one-state now debounce_s tid o task us m x.0 (λ e. ne (sym e)) ∙ s.0,
        restart_one-Snapshots now debounce_s tid o task us m items (ground arith) s.1,
      )
    ]

-- A task that will confirm the pending change of a user when it has been pending for the delay.
abbrev pub Resumed : ℕ → ℕ → ℕ → UserState → Power → ℕ → Monitor → Type 0
Resumed now debounce_s tid us p at_time m =
    (id : ℕ) × (t : Task) × (get_task id m ≡ some t)
    × (t.is_done ≡ false)
    × (t.owner ≡ tid)
    × (t.new_state ≡ p)
    × (t.old_state ≡ us.current_state)
    × (t.wake_at ≡ max now (at_time + debounce_s))

module _ (now debounce_s : ℕ) where
  -- the rest of the loop leaves a task alone
  restart-task :
      (items : Dict ℕ UserState) (m : Monitor) (id : ℕ) (t : Task)
      → IsValid m
      → Snapshots items m
      → Dict.IsDict ℕ_discrete items
      → get_task id m ≡ some t
      → get_task id (restart_pending_debounce_tasks now debounce_s items m) ≡ some t
  unfolding restart_pending_debounce_tasks
  restart-task [] m id t v s d found = found
  restart-task ((tid, us) ∷ items) m id t v s d found =
      restart-task items (restart_one now debounce_s tid us.pending_state us.debounce_task us m) id
        t
        (restart_one-IsValid now debounce_s tid us.pending_state us.debounce_task us m refl refl v
          s.0)
        (restart_one-Snapshots now debounce_s tid us.pending_state us.debounce_task us m items d.0
          s.1)
        d.1
        (restart_one-task now debounce_s tid us.pending_state us.debounce_task us m id t v found)

  restart-IsValid :
      (items : Dict ℕ UserState) (m : Monitor)
      → IsValid m
      → Snapshots items m
      → Dict.IsDict ℕ_discrete items
      → IsValid (restart_pending_debounce_tasks now debounce_s items m)
  unfolding restart_pending_debounce_tasks
  restart-IsValid [] m v s d = v
  restart-IsValid ((tid, us) ∷ items) m v s d =
      restart-IsValid items (restart_one now debounce_s tid us.pending_state us.debounce_task us m)
        (restart_one-IsValid now debounce_s tid us.pending_state us.debounce_task us m refl refl v
          s.0)
        (restart_one-Snapshots now debounce_s tid us.pending_state us.debounce_task us m items d.0
          s.1)
        d.1

  restart_one-Resumed :
      (tid at_time : ℕ) (us : UserState) (p : Power) (o : Option Power) (task : Option ℕ)
      (m : Monitor)
      → o ≡ some p
      → task ≡ none
      → us.pending_state_time ≡ some at_time
      → Resumed now debounce_s tid us p at_time (restart_one now debounce_s tid o task us m)
  unfolding restart_one
  restart_one-Resumed tid at_time us p none task m e f g = cc
  restart_one-Resumed tid at_time us p (some q) (some x) m e f g = cc
  restart_one-Resumed tid at_time us p (some q) none m e f g = (
    m.next_task,
    restored_task now debounce_s tid q us,
    Dict.get-insert_self ℕ_discrete m.next_task (restored_task now debounce_s tid q us) m.tasks,
    refl,
    refl,
    cc,
    refl,
    wake_at-restored now debounce_s tid at_time q us g,
  )

  restart-Resumed :
      (items : Dict ℕ UserState) (m : Monitor) (tid at_time : ℕ) (us : UserState) (p : Power)
      → IsValid m
      → Snapshots items m
      → Dict.IsDict ℕ_discrete items
      → Dict.get ℕ_discrete tid items ≡ some us
      → us.pending_state ≡ some p
      → us.debounce_task ≡ none
      → us.pending_state_time ≡ some at_time
      → Resumed now debounce_s tid us p at_time
          (restart_pending_debounce_tasks now debounce_s items m)
  unfolding restart_pending_debounce_tasks
  restart-Resumed [] m tid at_time us p v s d found e f g = cc
  restart-Resumed ((j, u) ∷ items) m tid at_time us p v s d found e f g =
      let m' = restart_one now debounce_s j u.pending_state u.debounce_task u m in
      let v' =
        restart_one-IsValid now debounce_s j u.pending_state u.debounce_task u m refl refl v s.0 in
      let s' =
        restart_one-Snapshots now debounce_s j u.pending_state u.debounce_task u m items d.0 s.1 in
      elim (ℕ_discrete tid j) [
        | yes same ↦
            let it : u ≡ us = ground arith in
            let (id, t, here, live, mine, state, old, wakes) =
              restart_one-Resumed j at_time u p u.pending_state u.debounce_task m
                (ap (λ (x : UserState). x.pending_state) it ∙ e)
                (ap (λ (x : UserState). x.debounce_task) it ∙ f)
                (ap (λ (x : UserState). x.pending_state_time) it ∙ g) in
            (
              id,
              t,
              restart-task items m' id t v' s' d.1 here,
              live,
              mine ∙ sym same,
              state,
              old ∙ ap (λ (x : UserState). x.current_state) it,
              wakes,
            )
        | no ne ↦ restart-Resumed items m' tid at_time us p v' s' d.1 (ground arith) e f g
      ]

  -- Restarting the timers of a valid monitor, over its own states, keeps it valid, and each user
  -- with a pending change, its time and no task then has a live task for that change that wakes
  -- when it has been pending for the delay, at once if that time has passed.
  pub restart_pending_debounce_tasks-Resumed :
      (items : Dict ℕ UserState) (m : Monitor) (tid at_time : ℕ) (us : UserState) (p : Power)
      → IsValid m
      → Snapshots items m
      → Dict.IsDict ℕ_discrete items
      → Dict.get ℕ_discrete tid items ≡ some us
      → us.pending_state ≡ some p
      → us.debounce_task ≡ none
      → us.pending_state_time ≡ some at_time
      → IsValid (restart_pending_debounce_tasks now debounce_s items m)
        × Resumed now debounce_s tid us p at_time
            (restart_pending_debounce_tasks now debounce_s items m)
  restart_pending_debounce_tasks-Resumed items m tid at_time us p v s d found e f g =
      (restart-IsValid items m v s d, restart-Resumed items m tid at_time us p v s d found e f g)
