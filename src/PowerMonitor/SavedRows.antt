-- ===== src/PowerMonitor/SavedRows.antt =====
-- The row that a save writes for a listed user, and what a restart makes of the rows.
use native.Mathlib.Decide.{ℕ_discrete}
use voltyk_bot_v3_python.Prelude.{
  ℕ, ◌≡◌, refl, sym, ap, ◌∙◌, true, false, Option, none, some, List, [], ◌∷◌, arith, Option-cases,
  inl, inr, is_empty,
}
use voltyk_bot_v3_python.Prelude.Dict
use voltyk_bot_v3_python.Prelude.Dict.{Dict}
use voltyk_bot_v3_python.PowerMonitor.{UserState, Monitor, get_state}
use voltyk_bot_v3_python.PowerMonitor.Saving.{contains}
use voltyk_bot_v3_python.PowerMonitor.Restart.{
  StateRow, row_of, rows_of, upserted, batch_upsert_user_power_states, values, restored_state,
  restore_user_states,
}
use voltyk_bot_v3_python.PowerMonitor.Restoring.{IsKeyed, values-AllOther, restore-AllOther}

-- what is left of a state that is saved and restored
abbrev pub reloaded : ℕ → UserState → UserState
reloaded tid us = restored_state (row_of 0 tid us)

-- the rows of a table give each user's state
pub restore-values :
    (tid : ℕ) (row : StateRow) (d : Dict ℕ StateRow) (m : Monitor)
    → IsKeyed d
    → Dict.IsDict ℕ_discrete d
    → Dict.get ℕ_discrete tid d ≡ some row
    → get_state tid (restore_user_states (values d) m) ≡ some (restored_state row)
unfolding restore_user_states
restore-values tid row [] m keyed distinct found = cc
restore-values tid row (e ∷ d) m keyed distinct found = elim (ℕ_discrete e.0 tid) [
  | yes same ↦
      let here : e.1 ≡ row = ground arith in
      let named : e.1.telegram_id ≡ tid = sym keyed.0 ∙ same in
      let absent : Dict.get ℕ_discrete tid d ≡ none = rw (← same) distinct.0 in
      restore-AllOther tid (values d) _ (values-AllOther tid d keyed.1 absent)
      ∙ ap
          (λ k.
            Dict.get ℕ_discrete tid (Dict.insert ℕ_discrete k (restored_state e.1) m.user_states))
          named
      ∙ Dict.get-insert_self ℕ_discrete tid (restored_state e.1) m.user_states
      ∙ ap (λ r. some (restored_state r)) here
  | no ne ↦ restore-values tid row d _ keyed.1 distinct.1 (ground arith)
]

upserted-reloaded :
    (now tid : ℕ) (us : UserState) (o : Option StateRow)
    → restored_state (upserted o (row_of now tid us)) ≡ reloaded tid us
upserted-reloaded now tid us none = refl
upserted-reloaded now tid us (some old) = refl

module _ (now tid : ℕ) (us : UserState) where
  -- the row of this user has this state
  abbrev pub HasRow : Dict ℕ StateRow → Type 0
  HasRow table =
      (row : StateRow) × (Dict.get ℕ_discrete tid table ≡ some row)
      × (restored_state row ≡ reloaded tid us)

  abbrev upsert : ℕ → UserState → Dict ℕ StateRow → Dict ℕ StateRow
  upsert id us' table =
      Dict.insert ℕ_discrete id (upserted (Dict.get ℕ_discrete id table) (row_of now id us')) table

  upsert-same :
      (id : ℕ) (us' : UserState) (table : Dict ℕ StateRow)
      → id ≡ tid
      → us' ≡ us
      → HasRow (upsert id us' table)
  upsert-same id us' table same known =
      let there = Dict.get ℕ_discrete id table in
      let row = upserted there (row_of now id us') in
      (
        row,
        ap (λ k. Dict.get ℕ_discrete k (Dict.insert ℕ_discrete id row table)) (sym same)
            ∙ Dict.get-insert_self ℕ_discrete id row table,
        upserted-reloaded now id us' there ∙ ap (reloaded tid) known,
      )

  upsert-HasRow :
      (id : ℕ) (us' : UserState) (states : Dict ℕ UserState) (table : Dict ℕ StateRow)
      → Dict.get ℕ_discrete tid states ≡ some us
      → Dict.get ℕ_discrete id states ≡ some us'
      → HasRow table
      → HasRow (upsert id us' table)
  upsert-HasRow id us' states table held found h = elim (ℕ_discrete id tid) [
    | yes same ↦
        let known : some us' ≡ some us =
          sym found ∙ ap (λ k. Dict.get ℕ_discrete k states) same ∙ held in
        upsert-same id us' table same (cc known)
    | no ne ↦ (h.0, Dict.get-insert_ne ℕ_discrete tid id _ table (λ e. ne (sym e)) ∙ h.1, h.2)
  ]

  -- the rows of a save keep the row of this user, and give one to each listed user
  batch_upsert-HasRow :
      (ids : List ℕ) (states : Dict ℕ UserState) (table : Dict ℕ StateRow)
      → Dict.get ℕ_discrete tid states ≡ some us
      → HasRow table
      → HasRow (batch_upsert_user_power_states (rows_of now ids states) table)
  unfolding batch_upsert_user_power_states rows_of
  batch_upsert-HasRow [] states table held h = h
  batch_upsert-HasRow (id ∷ ids) states table held h =
      elim (Option-cases (Dict.get ℕ_discrete id states)) [
        | inl none' ↦ rw none' (batch_upsert-HasRow ids states table held h)
        | inr (us', some') ↦ rw some' (
            batch_upsert-HasRow ids states (upsert id us' table) held
              (upsert-HasRow id us' states table held some' h))
      ]

  pub batch_upsert-listed :
      (ids : List ℕ) (states : Dict ℕ UserState) (table : Dict ℕ StateRow)
      → Dict.get ℕ_discrete tid states ≡ some us
      → contains tid ids ≡ true
      → HasRow (batch_upsert_user_power_states (rows_of now ids states) table)
  unfolding batch_upsert_user_power_states rows_of
  batch_upsert-listed [] states table held listed = cc
  batch_upsert-listed (id ∷ ids) states table held listed = elim (ℕ_discrete id tid) [
    | yes same ↦
        let found : Dict.get ℕ_discrete id states ≡ some us =
          ap (λ k. Dict.get ℕ_discrete k states) same ∙ held in
        rw found (
          batch_upsert-HasRow ids states (upsert id us table) held
            (upsert-same id us table same refl))
    | no ne ↦
        let later : contains tid ids ≡ true = ground arith in
        elim (Option-cases (Dict.get ℕ_discrete id states)) [
          | inl none' ↦ rw none' (batch_upsert-listed ids states table held later)
          | inr (us', some') ↦
              rw some' (batch_upsert-listed ids states (upsert id us' table) held later)
        ]
  ]

-- a listed user who has a state gives a row
pub rows_of-not_empty :
    (now tid : ℕ) (us : UserState) (ids : List ℕ) (states : Dict ℕ UserState)
    → Dict.get ℕ_discrete tid states ≡ some us
    → contains tid ids ≡ true
    → is_empty (rows_of now ids states) ≡ false
unfolding rows_of
rows_of-not_empty now tid us [] states held listed = cc
rows_of-not_empty now tid us (id ∷ ids) states held listed =
    elim (Option-cases (Dict.get ℕ_discrete id states)) [
      | inl none' ↦
          let rest = rows_of-not_empty now tid us ids states held in
          elim (ℕ_discrete id tid) [
            | yes same ↦
                let found : Dict.get ℕ_discrete id states ≡ some us =
                  ap (λ k. Dict.get ℕ_discrete k states) same ∙ held in
                cc
            | no ne ↦ rw none' (rest (ground arith))
          ]
      | inr (us', some') ↦ rw some' refl
    ]
