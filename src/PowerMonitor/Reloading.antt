-- ===== src/PowerMonitor/Reloading.antt =====
-- What a save keeps, of the state that it is given, over a restart.
use native.Mathlib.Decide.{ℕ_discrete}
use voltyk_bot_v3_python.Prelude.{
  ℕ, ◌+◌, ◌<◌, ◌≡◌, refl, sym, ap, ◌∙◌, true, false, not, Option, none, some, List, [], ◌∷◌, arith,
  select, Option-cases, inl, inr, is_empty, if-else,
}
use voltyk_bot_v3_python.Prelude.Dict
use voltyk_bot_v3_python.Prelude.Dict.{Dict}
use voltyk_bot_v3_python.PowerMonitor.{UserState, Monitor, get_state}
use voltyk_bot_v3_python.PowerMonitor.Memory.{after_save}
use voltyk_bot_v3_python.PowerMonitor.Saving.{contains, contains-select}
use voltyk_bot_v3_python.PowerMonitor.Restart.{
  StateRow, row_of, rows_of, upserted, batch_upsert_user_power_states, is_recent, values,
  get_recent_user_power_states, restore_user_states, save_all_user_states,
}
use voltyk_bot_v3_python.PowerMonitor.Restoring.{
  IsKeyed, insert-IsKeyed, select-IsKeyed, upserted-telegram_id,
}
use voltyk_bot_v3_python.PowerMonitor.SavedRows.{
  reloaded, restore-values, batch_upsert-listed, rows_of-not_empty,
}

-- What comes back of a state: all that the user is told from. A pending change comes back with
-- the time since when it is pending for that of the change, and without a task.
pub record IsBack (us us' : UserState) : Type 0 where
  current_state : us'.current_state ≡ us.current_state
  pending_state : us'.pending_state ≡ us.pending_state
  pending_state_time : us'.pending_state_time ≡ us.pending_state_time
  original_change_time : us'.original_change_time ≡ us.pending_state_time
  instability_start : us'.instability_start ≡ us.instability_start
  switch_count : us'.switch_count ≡ us.switch_count
  last_stable_state : us'.last_stable_state ≡ us.last_stable_state
  last_stable_at : us'.last_stable_at ≡ us.last_stable_at
  last_notification_at : us'.last_notification_at ≡ us.last_notification_at
  is_first_check : us'.is_first_check ≡ false
  consecutive_checks : us'.consecutive_checks ≡ 0
  debounce_task : us'.debounce_task ≡ none

reloaded-IsBack : (tid : ℕ) (us : UserState) → IsBack us (reloaded tid us)
reloaded-IsBack tid us = record {
  current_state = refl;
  pending_state = refl;
  pending_state_time = refl;
  original_change_time = refl;
  instability_start = refl;
  switch_count = refl;
  last_stable_state = refl;
  last_stable_at = refl;
  last_notification_at = refl;
  is_first_check = refl;
  consecutive_checks = refl;
  debounce_task = refl;
}

-- a table in which each row stands under its user, each user has one, and the row of this user
-- is young enough at `later` to be restored
pub record IsRecent (tid later : ℕ) (table : Dict ℕ StateRow) : Type 0 where
  pub keyed : IsKeyed table
  pub distinct : Dict.IsDict ℕ_discrete table
  pub recent :
      (row : StateRow) → Dict.get ℕ_discrete tid table ≡ some row → later < row.updated_at + 3600

upserted-recent :
    (later : ℕ) (row : StateRow) (o : Option StateRow)
    → later < row.updated_at + 3600
    → ((old : StateRow) → o ≡ some old → later < old.updated_at + 3600)
    → later < (upserted o row).updated_at + 3600
upserted-recent later row none young h = young
upserted-recent later row (some old) young h = h old refl

insert-IsRecent :
    (tid later : ℕ) (row : StateRow) (table : Dict ℕ StateRow)
    → later < row.updated_at + 3600
    → IsRecent tid later table
    → IsRecent tid later (
        Dict.insert ℕ_discrete row.telegram_id
          (upserted (Dict.get ℕ_discrete row.telegram_id table) row)
          table)
insert-IsRecent tid later row table young v =
    let there = Dict.get ℕ_discrete row.telegram_id table in
    let row' = upserted there row in
    record {
      keyed = insert-IsKeyed row.telegram_id row' table (upserted-telegram_id there row) v.keyed;
      distinct = Dict.insert-IsDict ℕ_discrete row.telegram_id row' table v.distinct;
      recent = λ r found. elim (ℕ_discrete row.telegram_id tid) [
        | yes same ↦
            let held : some row' ≡ some r =
              sym (Dict.get-insert_self ℕ_discrete row.telegram_id row' table)
              ∙ ap (λ k. Dict.get ℕ_discrete k (Dict.insert ℕ_discrete row.telegram_id row' table))
                  same
              ∙ found in
            let kept =
              upserted-recent later row there young
                (λ old e. v.recent old (ap (λ k. Dict.get ℕ_discrete k table) (sym same) ∙ e)) in
            let same_row : row' ≡ r = cc held in rw (← same_row) kept
        | no ne ↦ v.recent r (
            sym (Dict.get-insert_ne ℕ_discrete tid row.telegram_id row' table (λ e. ne (sym e)))
            ∙ found)
      ];
    }

batch_upsert-IsRecent :
    (now tid later : ℕ) (ids : List ℕ) (states : Dict ℕ UserState) (table : Dict ℕ StateRow)
    → later < now + 3600
    → IsRecent tid later table
    → IsRecent tid later (batch_upsert_user_power_states (rows_of now ids states) table)
unfolding batch_upsert_user_power_states rows_of
batch_upsert-IsRecent now tid later [] states table young v = v
batch_upsert-IsRecent now tid later (id ∷ ids) states table young v =
    elim (Option-cases (Dict.get ℕ_discrete id states)) [
      | inl none' ↦ rw none' (batch_upsert-IsRecent now tid later ids states table young v)
      | inr (us, some') ↦ rw some' (
          batch_upsert-IsRecent now tid later ids states _ young
            (insert-IsRecent tid later (row_of now id us) table young v))
    ]

-- What a save of dirty users leaves of one of them, whose state at the snapshot is `us`: in the
-- memory the user is dirty no more, also if marked dirty again before the database answers; and
-- a restart less than an hour later finds this state in the table, where each row stands under
-- its user, each user has one, and a row of this user from before was first inserted less than
-- an hour before the restart. What comes back is the current, the pending and the last stable
-- state with their times, the flaps counted and since when, and the time of the last
-- notification; it is no first check, and no task runs.
pub save_all_user_states-restored :
    (now later tid : ℕ) (us : UserState) (m answered m' : Monitor) (table : Dict ℕ StateRow)
    → contains tid m.dirty_states ≡ true
    → get_state tid m ≡ some us
    → IsRecent tid later table
    → later < now + 3600
    → (contains tid (save_all_user_states now true m answered table).0.dirty_states ≡ false)
      × (us' : UserState) × (get_state tid (
            restore_user_states
              (get_recent_user_power_states later
                (save_all_user_states now true m answered table).1)
              m')
          ≡ some us')
      × IsBack us us'
unfolding save_all_user_states get_recent_user_power_states after_save
save_all_user_states-restored now later tid us m answered m' table dirty held v young =
    let written = batch_upsert_user_power_states (rows_of now m.dirty_states m.user_states) table in
    let saves : save_all_user_states now true m answered table
        ≡ (after_save true m.dirty_states answered, written) =
      if-else (is_empty (rows_of now m.dirty_states m.user_states)) (answered, table)
        (after_save true m.dirty_states answered, written)
        (rows_of-not_empty now tid us m.dirty_states m.user_states held dirty) in
    let cleared =
      contains-select (λ x. not (contains x m.dirty_states)) tid answered.dirty_states in
    let (row, found, content) =
      batch_upsert-listed now tid us m.dirty_states m.user_states table held dirty in
    let w = batch_upsert-IsRecent now tid later m.dirty_states m.user_states table young v in
    let shown =
      restore-values tid row (select (is_recent later) written) m'
        (select-IsKeyed (is_recent later) written w.keyed)
        (Dict.select-IsDict ℕ_discrete (is_recent later) written w.distinct)
        (Dict.get-select-some ℕ_discrete (is_recent later) tid row written found
          (ground (arith, w.recent row found))) in
    (
      ap (λ x. contains tid x.0.dirty_states) saves ∙ cleared ∙ ground arith,
      reloaded tid us,
      ap (λ x. get_state tid (restore_user_states (values (select (is_recent later) x.1)) m')) saves
          ∙ shown
          ∙ ap some content,
      reloaded-IsBack tid us,
    )
