-- ===== src/PowerMonitor/Restoring.antt =====
-- Which saved states a restart does not see, and lemmas on the table of the states.
use native.Mathlib.Decide.{ℕ_discrete}
use voltyk_bot_v3_python.Prelude.{
  ℕ, ◌+◌, ◌≤◌, ◌≡◌, ◌≢◌, refl, sym, ap, ◌∙◌, Bool, Option, none, some, List, [], ◌∷◌, arith, select,
}
use voltyk_bot_v3_python.Prelude.Dict
use voltyk_bot_v3_python.Prelude.Dict.{Dict}
use voltyk_bot_v3_python.PowerMonitor.{Monitor, get_state}
use voltyk_bot_v3_python.PowerMonitor.Restart.{
  StateRow, upserted, batch_upsert_user_power_states, is_recent, values,
  get_recent_user_power_states, restored_state, restore_user_states,
}

-- each row is found under its user
abbrev pub IsKeyed : Dict ℕ StateRow → Type 0
IsKeyed [] = Unit
IsKeyed (e ∷ d) = (e.0 ≡ e.1.telegram_id) × IsKeyed d

pub insert-IsKeyed :
    (k : ℕ) (row : StateRow) (d : Dict ℕ StateRow)
    → k ≡ row.telegram_id
    → IsKeyed d
    → IsKeyed (Dict.insert ℕ_discrete k row d)
insert-IsKeyed k row [] e h = (e, tt)
insert-IsKeyed k row (x ∷ d) e h = ground (arith, insert-IsKeyed k row d e h.1)

pub select-IsKeyed :
    (p : ℕ × StateRow → Bool) (d : Dict ℕ StateRow) → IsKeyed d → IsKeyed (select p d)
select-IsKeyed p [] h = h
select-IsKeyed p (e ∷ d) h = ground (arith, select-IsKeyed p d h.1)

-- no row of the table is of this user
abbrev AllOther : ℕ → List StateRow → Type 0
AllOther tid [] = Unit
AllOther tid (r ∷ rs) = (r.telegram_id ≢ tid) × AllOther tid rs

pub values-AllOther :
    (tid : ℕ) (d : Dict ℕ StateRow)
    → IsKeyed d
    → Dict.get ℕ_discrete tid d ≡ none
    → AllOther tid (values d)
values-AllOther tid [] h e = tt
values-AllOther tid (x ∷ d) h e = ground (arith, values-AllOther tid d h.1)

pub restore-AllOther :
    (tid : ℕ) (rows : List StateRow) (m : Monitor)
    → AllOther tid rows
    → get_state tid (restore_user_states rows m) ≡ get_state tid m
unfolding restore_user_states
restore-AllOther tid [] m h = refl
restore-AllOther tid (r ∷ rs) m h =
    restore-AllOther tid rs _ h.1
    ∙ Dict.get-insert_ne ℕ_discrete tid r.telegram_id (restored_state r) m.user_states
        (λ e. h.0 (sym e))

get-select-old :
    (tid now : ℕ) (d : Dict ℕ StateRow) (r : StateRow)
    → Dict.IsDict ℕ_discrete d
    → Dict.get ℕ_discrete tid d ≡ some r
    → r.updated_at + 3600 ≤ now
    → Dict.get ℕ_discrete tid (select (is_recent now) d) ≡ none
get-select-old tid now [] r h e old = refl
get-select-old tid now (x ∷ d) r h e old = elim (ℕ_discrete tid x.0) [
  | yes same ↦ ground (arith, Dict.get-select-none ℕ_discrete (is_recent now) tid d)
  | no ne ↦ ground (arith, get-select-old tid now d r h.1)
]

-- the table after a save
record IsSaved (tid first : ℕ) (table : Dict ℕ StateRow) : Type 0 where
  keyed : IsKeyed table
  distinct : Dict.IsDict ℕ_discrete table
  row : StateRow
  found : Dict.get ℕ_discrete tid table ≡ some row
  first_saved : row.updated_at ≡ first

pub upserted-telegram_id :
    (o : Option StateRow) (row : StateRow) → row.telegram_id ≡ (upserted o row).telegram_id
upserted-telegram_id none row = refl
upserted-telegram_id (some old) row = refl

insert-IsSaved :
    (tid first : ℕ) (row : StateRow) (table : Dict ℕ StateRow)
    → IsSaved tid first table
    → IsSaved tid first (
        Dict.insert ℕ_discrete row.telegram_id
          (upserted (Dict.get ℕ_discrete row.telegram_id table) row)
          table)
insert-IsSaved tid first row table v =
    let there = Dict.get ℕ_discrete row.telegram_id table in
    let row' = upserted there row in
    let keyed =
      insert-IsKeyed row.telegram_id row' table (upserted-telegram_id there row) v.keyed in
    let distinct = Dict.insert-IsDict ℕ_discrete row.telegram_id row' table v.distinct in
    elim (ℕ_discrete row.telegram_id tid) [
      | yes same ↦
          let held : there ≡ some v.row = ap (λ k. Dict.get ℕ_discrete k table) same ∙ v.found in
          record {
            keyed = keyed;
            distinct = distinct;
            row = row';
            found =
                ap (λ k. Dict.get ℕ_discrete k (Dict.insert ℕ_discrete row.telegram_id row' table))
                  (sym same)
                ∙ Dict.get-insert_self ℕ_discrete row.telegram_id row' table;
            first_saved = ap (λ o. (upserted o row).updated_at) held ∙ v.first_saved;
          }
      | no ne ↦ record {
        keyed = keyed;
        distinct = distinct;
        row = v.row;
        found =
            Dict.get-insert_ne ℕ_discrete tid row.telegram_id row' table (λ e. ne (sym e))
            ∙ v.found;
        first_saved = v.first_saved;
      }
    ]

batch_upsert-IsSaved :
    (tid first : ℕ) (rows : List StateRow) (table : Dict ℕ StateRow)
    → IsSaved tid first table
    → IsSaved tid first (batch_upsert_user_power_states rows table)
unfolding batch_upsert_user_power_states
batch_upsert-IsSaved tid first [] table v = v
batch_upsert-IsSaved tid first (r ∷ rs) table v =
    batch_upsert-IsSaved tid first rs _ (insert-IsSaved tid first r table v)

-- A user whose row was first inserted an hour or more ago is not restored, whatever has been saved
-- since: where every row stands under its user, and each user has one.
pub restore_user_states-first_saved :
    (tid now : ℕ) (row : StateRow) (rows : List StateRow) (table : Dict ℕ StateRow) (m : Monitor)
    → IsKeyed table
    → Dict.IsDict ℕ_discrete table
    → Dict.get ℕ_discrete tid table ≡ some row
    → row.updated_at + 3600 ≤ now
    → get_state tid (
        restore_user_states
          (get_recent_user_power_states now (batch_upsert_user_power_states rows table))
          m)
      ≡ get_state tid m
unfolding get_recent_user_power_states
restore_user_states-first_saved tid now row rows table m keyed distinct found old =
    let v = batch_upsert-IsSaved tid row.updated_at rows table (record {
      keyed = keyed;
      distinct = distinct;
      row = row;
      found = found;
      first_saved = refl;
    }) in
    restore-AllOther tid _ m (
      values-AllOther tid _ (select-IsKeyed (is_recent now) _ v.keyed)
        (get-select-old tid now _ v.row v.distinct v.found (omega (arith, v.first_saved))))
