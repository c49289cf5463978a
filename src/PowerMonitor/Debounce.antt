-- ===== src/PowerMonitor/Debounce.antt =====
-- Every operation of the state machine keeps the invariant of the debounce tasks.
use native.Mathlib.Decide.{ℕ_discrete}
use voltyk_bot_v3_python.Prelude.{
  ℕ, ◌+◌, ◌≤◌, ◌≡◌, ◌≢◌, refl, sym, ◌∙◌, Bool, true, false, Option, none, some, List, arith, inl,
  inr, Option-cases, Bool-cases, if-either,
}
use voltyk_bot_v3_python.Prelude.Dict
use voltyk_bot_v3_python.Prelude.Dict.{Dict}
use voltyk_bot_v3_python.PowerMonitor.{
  Power, power_eq, is_power, power_of, UserState, new_user_state, Task, Monitor, get_task,
  get_state, add, mark_dirty, put_state, or_created, get_user_state, finish, cancel, create_task,
}
use voltyk_bot_v3_python.PowerMonitor.Machine.{
  Tracking, first_check, seed_by, seed_from, seed_new, with_cancelled, unchanged, unchanged_from,
  changed, advance, note_ping, with_ping, check_user_power, confirmed, confirm, wake_with,
  wake_task, wake, DbWrite, Confirmation,
}
use voltyk_bot_v3_python.PowerMonitor.Validity.{
  IsApart, IsValid, Fits, other, own, replaced-IsValid, cancel-live, cancel-fresh,
}

module _ (m : Monitor) (v : IsValid m) (tid : ℕ) (us : UserState)
    (held : get_state tid m ≡ some us) where
  -- a live task of this user is the one that the state names
  mine :
      (id : ℕ) (t : Task)
      → get_task id m ≡ some t
      → t.is_done ≡ false
      → t.owner ≡ tid
      → (us.debounce_task ≡ some id) × (us.pending_state ≡ some t.new_state)
  mine id t found live e =
      let (old, there, named, pending) = v.owned id t found live in
      let same : some old ≡ some us = sym there ∙ rw e held in (ground arith, ground arith)

  -- A change of the state that leaves its task and its pending change alone.
  pub keep :
      (us' : UserState)
      → us'.debounce_task ≡ us.debounce_task
      → us'.pending_state ≡ us.pending_state
      → IsApart us'
      → (dirty : List ℕ) → IsValid (record (put_state tid us' m) { dirty_states = dirty })
  keep us' named pending apart dirty =
      replaced-IsValid m v tid us' m.tasks m.next_task dirty
        (λ id t found live. elim (ℕ_discrete t.owner tid) [
          | yes e ↦ let (n, p) = mine id t found live e in own e (named ∙ n) (pending ∙ p)
          | no ne ↦ other ne found
        ])
        v.fresh apart

  -- Once its task is cancelled, the state may change in any way.
  cancelled-Fits :
      (us' : UserState) (id : ℕ) (t : Task)
      → Dict.get ℕ_discrete id (cancel us.debounce_task m.tasks) ≡ some t
      → t.is_done ≡ false
      → Fits m tid us' id t
  cancelled-Fits us' id t found live =
      let (before, ne) = cancel-live us.debounce_task m.tasks id t found live in
      elim (ℕ_discrete t.owner tid) [
        | yes e ↦ absurd (ne (mine id t before live e).0)
        | no other' ↦ other other' before
      ]

  release :
      (us' : UserState) (dirty : List ℕ)
      → IsApart us'
      → IsValid (record (put_state tid us' (with_cancelled us m)) { dirty_states = dirty })
  release us' dirty apart =
      replaced-IsValid m v tid us' (cancel us.debounce_task m.tasks) m.next_task dirty
        (cancelled-Fits us') (λ id h. cancel-fresh us.debounce_task m.tasks id (v.fresh id h)) apart

  pub start :
      (us' : UserState) (task : Task) (dirty : List ℕ)
      → task.owner ≡ tid
      → us'.debounce_task ≡ some m.next_task
      → us'.pending_state ≡ some task.new_state
      → IsApart us'
      → IsValid (record (create_task task (put_state tid us' (with_cancelled us m))) {
        dirty_states = dirty;
      })
  start us' task dirty mine' named pending apart =
      replaced-IsValid m v tid us'
        (Dict.insert ℕ_discrete m.next_task task (cancel us.debounce_task m.tasks))
        (m.next_task + 1) dirty fits fresh apart
    where
      fits :
          (id : ℕ) (t : Task)
          → Dict.get ℕ_discrete id
              (Dict.insert ℕ_discrete m.next_task task (cancel us.debounce_task m.tasks))
            ≡ some t
          → t.is_done ≡ false
          → Fits m tid us' id t
      fits id t found live = elim (ℕ_discrete id m.next_task) [
        | yes new ↦
            let here : some task ≡ some t =
              sym (
                rw new (
                  Dict.get-insert_self ℕ_discrete m.next_task task
                    (cancel us.debounce_task m.tasks)))
              ∙ found in
            let same : task ≡ t = cc here in
            own (rw (← same) mine') (rw new named) (rw (← same) pending)
        | no old ↦
            cancelled-Fits us' id t
              (sym (
                  Dict.get-insert_ne ℕ_discrete id m.next_task task
                    (cancel us.debounce_task m.tasks) old)
                ∙ found)
              live
      ]

      fresh :
          (id : ℕ)
          → m.next_task + 1 ≤ id
          → Dict.get ℕ_discrete id
              (Dict.insert ℕ_discrete m.next_task task (cancel us.debounce_task m.tasks))
            ≡ none
      fresh id h =
          Dict.get-insert_ne ℕ_discrete id m.next_task task (cancel us.debounce_task m.tasks)
            (omega arith)
          ∙ cancel-fresh us.debounce_task m.tasks id (v.fresh id (omega arith))

  unchanged_from-IsValid :
      (o : Option Power) → (p : Power) → IsApart us → IsValid (unchanged_from o tid p us m).0
  unfolding unchanged_from
  unchanged_from-IsValid none p apart =
      keep (record us { consecutive_checks = 0 }) refl refl apart m.dirty_states
  unchanged_from-IsValid (some q) p apart = elim (Bool-cases (power_eq q p)) [
    | inl same ↦
        rw same (keep (record us { consecutive_checks = 0 }) refl refl apart m.dirty_states)
    | inr other' ↦ rw other' (release _ _ (λ r e. cc))
  ]

  changed-IsValid :
      (now later delay_s : ℕ) (p : Power)
      → is_power p us.current_state ≡ false
      → us.is_first_check ≡ false
      → IsValid (changed now later delay_s tid p us m).0
  unfolding changed
  changed-IsValid now later delay_s p new seeded =
      start _ _ _ refl refl refl (λ q e. let same : p ≡ q = cc e in (rw (← same) new, seeded))

  -- A state that has seen no check has nothing pending.
  idle : IsApart us → us.is_first_check ≡ true → us.pending_state ≡ none
  idle apart first = elim (Option-cases us.pending_state) [
    | inl none' ↦ none'
    | inr (q, some') ↦ let (_, seeded) = apart q some' in cc
  ]

  seeded_IsApart : (us' : UserState) → us'.pending_state ≡ none → IsApart us'
  seeded_IsApart us' none' q some' = cc

  seed_by-IsValid :
      (o : Option Power) (c : Option ℕ) (now : ℕ) (p : Power)
      → us.pending_state ≡ none
      → IsValid (seed_by o c now tid p us m).0
  seed_by-IsValid none c now p nothing =
      keep (seed_new p us) refl refl (seeded_IsApart (seed_new p us) nothing) m.dirty_states
  seed_by-IsValid (some q) none now p nothing =
      keep (seed_new p us) refl refl (seeded_IsApart (seed_new p us) nothing) m.dirty_states
  seed_by-IsValid (some q) (some c) now p nothing =
      keep (seed_from q c us) refl refl (seeded_IsApart (seed_from q c us) nothing) m.dirty_states

  first_check-IsValid :
      (now : ℕ) (tracking : Option Tracking) (p : Power)
      → us.pending_state ≡ none
      → IsValid (first_check now tid tracking p us m).0
  first_check-IsValid now none p nothing = seed_by-IsValid none none now p nothing
  first_check-IsValid now (some tracking) p nothing =
      seed_by-IsValid tracking.power_state tracking.power_changed_at now p nothing

  pub advance-IsValid :
      (now later delay_s : ℕ) (tracking : Option Tracking) (p : Power)
      → IsApart us
      → IsValid (advance now later delay_s tid tracking p us m).0
  unfolding advance unchanged
  advance-IsValid now later delay_s tracking p apart =
      if-either Holds us.is_first_check _ _
        (λ first. first_check-IsValid now tracking p (idle apart first))
        (λ seeded.
          if-either Holds (is_power p us.current_state) _ _
            (λ same. unchanged_from-IsValid us.pending_state p apart)
            (λ new.
              if-either Holds (is_power p us.pending_state) _ _ (λ waiting. v)
                (λ other'. changed-IsValid now later delay_s p new seeded)))
    where
      Holds : Monitor × List DbWrite → Type 0
      Holds x = IsValid x.0

-- the first access to a user's state
or_created-IsValid :
    (o : Option UserState) (tid : ℕ) (m : Monitor)
    → IsValid m
    → get_state tid m ≡ o
    → IsValid (or_created o tid m).1
      × (get_state tid (or_created o tid m).1 ≡ some (or_created o tid m).0)
unfolding or_created
or_created-IsValid none tid m v e = (
  replaced-IsValid m v tid new_user_state m.tasks m.next_task (add tid m.dirty_states)
      (λ id t found live. elim (ℕ_discrete t.owner tid) [
        | yes same ↦
            let (us, there, _, _) = v.owned id t found live in
            let clash : none ≡ some us = sym e ∙ rw (← same) there in cc
        | no ne ↦ other ne found
      ])
      v.fresh (λ p e. cc),
  Dict.get-insert_self ℕ_discrete tid new_user_state m.user_states,
)
or_created-IsValid (some us) tid m v e = (v, e)

-- the state with the ping noted
noted-IsValid :
    (now : ℕ) (b : Bool) (tid : ℕ) (us : UserState) (m : Monitor)
    → IsValid m
    → get_state tid m ≡ some us
    → IsValid (mark_dirty tid (put_state tid (note_ping now b us) m))
noted-IsValid now b tid us m v held =
    keep m v tid us held (note_ping now b us) refl refl (v.apart tid us held) _

pub check_user_power-IsValid :
    (now later delay_s tid : ℕ) (tracking : Option Tracking) (ping : Option Bool) (m : Monitor)
    → IsValid m
    → IsValid (check_user_power now later delay_s tid tracking ping m).0
unfolding check_user_power with_ping get_user_state
check_user_power-IsValid now later delay_s tid tracking none m v = v
check_user_power-IsValid now later delay_s tid tracking (some b) m v =
    let (v', held) = or_created-IsValid (get_state tid m) tid m v refl in
    advance-IsValid _ (noted-IsValid now b tid _ _ v' held) tid _
      (Dict.get-insert_self ℕ_discrete tid _ _) now later delay_s tracking (power_of b)
      (v'.apart tid _ held)

module _ (m : Monitor) (v : IsValid m) (id : ℕ) (t : Task) (found : get_task id m ≡ some t) where
  -- the tasks once this one has ended
  abbrev ended : Dict ℕ Task
  ended = Dict.insert ℕ_discrete id (finish t) m.tasks

  ended-live :
      (j : ℕ) (u : Task)
      → Dict.get ℕ_discrete j ended ≡ some u
      → u.is_done ≡ false
      → (get_task j m ≡ some u) × (j ≢ id)
  ended-live j u here live = elim (ℕ_discrete j id) [
    | yes e ↦ ground (arith, Dict.get-insert_self ℕ_discrete id (finish t) m.tasks)
    | no ne ↦ (sym (Dict.get-insert_ne ℕ_discrete j id (finish t) m.tasks ne) ∙ here, ne)
  ]

  ended-fresh : (j : ℕ) → m.next_task ≤ j → Dict.get ℕ_discrete j ended ≡ none
  ended-fresh j h = elim (ℕ_discrete j id) [
    | yes e ↦ let clash : none ≡ some t = sym (v.fresh j h) ∙ rw e found in cc
    | no ne ↦ Dict.get-insert_ne ℕ_discrete j id (finish t) m.tasks ne ∙ v.fresh j h
  ]

  finished-IsValid : IsValid (record m { tasks = ended })
  finished-IsValid = record {
    owned = λ j u here live. v.owned j u (ended-live j u here live).0 live;
    fresh = ended-fresh;
    apart = v.apart;
  }

  confirm-IsValid : (us : UserState) → t.is_done ≡ false → IsValid (confirm id t us m).0
  confirm-IsValid us live =
      replaced-IsValid m v t.owner (confirmed t.new_state us) ended m.next_task _
        (λ j u here live'.
          let (before, ne) = ended-live j u here live' in
          elim (ℕ_discrete u.owner t.owner) [
            | yes same ↦
                let (old, there, named, pending) = v.owned j u before live' in
                let (old', there', named', pending') = v.owned id t found live in
                let both : some old ≡ some old' = sym there ∙ rw same there' in absurd (ne (cc))
            | no other' ↦ other other' before
          ])
        ended-fresh (λ p e. cc)

  wake_with-IsValid : (o : Option UserState) → t.is_done ≡ false → IsValid (wake_with o id t m).0
  unfolding wake_with
  wake_with-IsValid none live = finished-IsValid
  wake_with-IsValid (some us) live =
      if-either (λ (x : Monitor × Option Confirmation). IsValid x.0) _ _ _ (λ e. finished-IsValid)
        (λ e. confirm-IsValid us live)

wake_task-IsValid :
    (o : Option Task) (now id : ℕ) (m : Monitor)
    → IsValid m
    → get_task id m ≡ o
    → IsValid (wake_task o now id m).0
unfolding wake_task
wake_task-IsValid none now id m v e = v
wake_task-IsValid (some t) now id m v e =
    if-either (λ (x : Monitor × Option Confirmation). IsValid x.0) _ _ _ (λ asleep. v)
      (λ awake. wake_with-IsValid m v id t e (get_state t.owner m) (ground arith))

pub wake-IsValid : (now id : ℕ) (m : Monitor) → IsValid m → IsValid (wake now id m).0
unfolding wake
wake-IsValid now id m v = wake_task-IsValid (get_task id m) now id m v refl
