-- ===== src/PowerMonitor/Flapping.antt =====
-- What a check and a task that wakes do, in a monitor that keeps the invariant.
use native.Mathlib.Decide.{ℕ_discrete}
use voltyk_bot_v3_python.Prelude.{
  ℕ, ◌+◌, ◌≤◌, ◌≡◌, refl, sym, ap, ◌∙◌, Bool, true, false, not, ◌&&◌, ◌||◌, Option, none, some,
  List, arith, inl, inr, Bool-cases, if-either, if-then, if-else, ltb,
}
use voltyk_bot_v3_python.Prelude.Dict
use voltyk_bot_v3_python.PowerMonitor.{
  Power, on, off, power_eq, is_power, power_of, UserState, Task, Monitor, get_task, get_state,
  mark_dirty, put_state, or_created, get_user_state,
}
use voltyk_bot_v3_python.PowerMonitor.Machine.{
  Tracking, DbWrite, unchanged, unchanged_from, changed, advance, note_ping, with_ping,
  check_user_power, Confirmation, change_time_of, wake_with, wake_task, wake,
}
use voltyk_bot_v3_python.PowerMonitor.Validity.{IsApart, IsValid}
use voltyk_bot_v3_python.PowerMonitor.Debounce.{check_user_power-IsValid}

power_eq_refl : (p : Power) → power_eq p p ≡ true
power_eq_refl on = refl
power_eq_refl off = refl

power_eq_comm : (p q : Power) → power_eq p q ≡ power_eq q p
power_eq_comm on on = refl
power_eq_comm off off = refl
power_eq_comm on off = refl
power_eq_comm off on = refl

-- what `advance` works on: the monitor where the ping is noted
abbrev noted : ℕ → ℕ → Bool → UserState → Monitor → Monitor
noted now tid b us m = mark_dirty tid (put_state tid (note_ping now b us) m)

check_user_power-known :
    (now later delay_s tid : ℕ) (tracking : Option Tracking) (b : Bool) (us : UserState)
    (m : Monitor)
    → get_state tid m ≡ some us
    → check_user_power now later delay_s tid tracking (some b) m
      ≡ advance now later delay_s tid tracking
          (power_of b)
          (note_ping now b us)
          (noted now tid b us m)
unfolding check_user_power with_ping get_user_state or_created
check_user_power-known now later delay_s tid tracking b us m held =
    ap (λ o. with_ping now later delay_s tid tracking b (or_created o tid m)) held

module _ (now later delay_s tid : ℕ) (tracking : Option Tracking) (p : Power) (us : UserState)
    (m : Monitor) (seeded : us.is_first_check ≡ false) where
  advance-same :
      is_power p us.current_state ≡ true
      → advance now later delay_s tid tracking p us m ≡ unchanged tid p us m
  unfolding advance
  advance-same same = if-else _ _ _ seeded ∙ if-then _ _ _ same

  advance-new :
      is_power p us.current_state ≡ false
      → is_power p us.pending_state ≡ false
      → advance now later delay_s tid tracking p us m ≡ changed now later delay_s tid p us m
  unfolding advance
  advance-new new other = if-else _ _ _ seeded ∙ if-else _ _ _ new ∙ if-else _ _ _ other

-- nothing is pending for this user
abbrev IsIdle : ℕ → Monitor → Type 0
IsIdle tid m = (us : UserState) × (get_state tid m ≡ some us) × (us.pending_state ≡ none)

unchanged_from-IsIdle :
    (o : Option Power) (p : Power) (tid : ℕ) (us : UserState) (m : Monitor)
    → us.pending_state ≡ o
    → IsApart us
    → us.current_state ≡ some p
    → IsIdle tid (unchanged_from o tid p us m).0
unfolding unchanged_from
unchanged_from-IsIdle none p tid us m e apart same = (_, Dict.get-insert_self ℕ_discrete tid _ _, e)
unchanged_from-IsIdle (some q) p tid us m e apart same =
    if-either (λ (x : Monitor × List DbWrite). IsIdle tid x.0) (power_eq q p) _ _
      (λ eq.
        let clash : power_eq p q ≡ false = ap (is_power q) (sym same) ∙ (apart q e).0 in
        let comm = power_eq_comm p q in cc)
      (λ ne. (_, Dict.get-insert_self ℕ_discrete tid _ _, refl))

-- After a check of a valid monitor in which a user who has been seen before is found again in
-- the state that is current, no debounce task of this user is alive: a flap is forgotten, and
-- no notification follows from it.
pub check_user_power-calms :
    (now later delay_s tid : ℕ) (tracking : Option Tracking) (b : Bool) (us : UserState)
    (m : Monitor)
    → IsValid m
    → get_state tid m ≡ some us
    → us.is_first_check ≡ false
    → us.current_state ≡ some (power_of b)
    → (id : ℕ) (t : Task)
    → get_task id (check_user_power now later delay_s tid tracking (some b) m).0 ≡ some t
    → t.owner ≡ tid
    → t.is_done ≡ true
unfolding unchanged
check_user_power-calms now later delay_s tid tracking b us m v held seeded same id t found mine =
    elim (Bool-cases t.is_done) [
      | inl done ↦ done
      | inr live ↦
          let v' = check_user_power-IsValid now later delay_s tid tracking (some b) m v in
          let (old, there, _, pending) = v'.owned id t found live in
          let at_rest : IsIdle tid (check_user_power now later delay_s tid tracking (some b) m).0 =
            rw (check_user_power-known now later delay_s tid tracking b us m held) (
              rw
                (advance-same now later delay_s tid tracking (power_of b) (note_ping now b us)
                  (noted now tid b us m) seeded (rw same (power_eq_refl (power_of b))))
                (unchanged_from-IsIdle us.pending_state (power_of b) tid (note_ping now b us) _ refl
                  (v.apart tid us held) same)) in
          let (us', here, idle) = at_rest in
          let both : some old ≡ some us' = sym there ∙ rw mine here in cc
    ]

abbrev pub confirmation : Task → UserState → Confirmation
confirmation t us = record {
  user = t.owner;
  new_state = t.new_state;
  old_state = t.old_state;
  change_time = change_time_of t us;
}

-- a task of this run, when its time has come
wake_task-due :
    (now id : ℕ) (t : Task) (us : UserState) (m : Monitor)
    → t.is_done ≡ false
    → t.restored ≡ false
    → t.wake_at ≤ now
    → get_state t.owner m ≡ some us
    → (wake_task (some t) now id m).1 ≡ some (confirmation t us)
unfolding wake_task wake_with
wake_task-due now id t us m live fresh due held =
    ap (λ x. x.1)
      (if-else (t.is_done || ltb now t.wake_at) _ _ (ground arith)
        ∙ ap (λ o. wake_with o id t m) held
        ∙ if-else (t.restored && not (is_power t.new_state us.pending_state)) _ _ (ground arith))

-- A check of a monitor in which a user who has been seen before is found in a state that is
-- neither the current one nor the pending one starts a task that, when it wakes at any time after
-- the delay and nothing else has happened, confirms this change, with the time of this check.
pub check_user_power-arms :
    (now later delay_s tid : ℕ) (tracking : Option Tracking) (b : Bool) (us : UserState)
    (m : Monitor)
    → get_state tid m ≡ some us
    → us.is_first_check ≡ false
    → is_power (power_of b) us.current_state ≡ false
    → is_power (power_of b) us.pending_state ≡ false
    → (wake_time : ℕ) → later + delay_s ≤ wake_time
    → (wake wake_time m.next_task (check_user_power now later delay_s tid tracking (some b) m).0).1
      ≡ some (record {
        user = tid;
        new_state = power_of b;
        old_state = us.current_state;
        change_time = some now;
      })
unfolding changed wake
check_user_power-arms now later delay_s tid tracking b us m held seeded new other wake_time late =
    rw (check_user_power-known now later delay_s tid tracking b us m held) (
      rw
        (advance-new now later delay_s tid tracking (power_of b) (note_ping now b us)
          (noted now tid b us m) seeded new other)
        (ap
            (λ o.
              (wake_task o wake_time m.next_task
                (changed now later delay_s tid (power_of b) (note_ping now b us)
                  (noted now tid b us m)).0).1)
            (Dict.get-insert_self ℕ_discrete m.next_task _ _)
          ∙ wake_task-due wake_time m.next_task _ _ _ refl refl late
              (Dict.get-insert_self ℕ_discrete tid _ _)))
