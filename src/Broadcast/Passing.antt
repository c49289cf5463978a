-- ===== src/Broadcast/Passing.antt =====
-- What the sending to a user, and to a batch, leaves of the table.
use voltyk_bot_v3_python.Prelude.{
  ℕ, ◌≤◌, ◌≡◌, ◌≢◌, refl, sym, ap, ◌∙◌, subst, Bool, false, ◌&&◌, Option, none, some, List, [], ◌∷◌,
  arith, ltb, ◌==◌, if◌then◌else◌, select, All, All-map, Bool-cases, inl, inr, if-either, ==_iff,
  le→not-ltb,
}
use voltyk_bot_v3_python.Prelude.Sort.{sort_by}
use voltyk_bot_v3_python.ScheduleDb.{find}
use voltyk_bot_v3_python.Paging.{rows_after}
use voltyk_bot_v3_python.Paging.Complete.{AreDistinct}
use voltyk_bot_v3_python.Users.{
  User, get_user_by_telegram_id, update_user, deactivated, deactivate_user,
}
use voltyk_bot_v3_python.Broadcast.{
  Telegram, Request, wants_notice, persist_ids, id_of, blocked_by, to_private, to_channel,
  send_to_fresh, send_if_wanted, send_schedule_notification, send_notifications_to_users,
}

-- of what is found, if anything
abbrev All-some : (User → Type 0) → Option User → Type 0
All-some P none = Unit
All-some P (some u) = P u

found :
    (tid : ℕ) (table : List User)
    → All-some (λ (u : User). u.telegram_id ≡ tid) (get_user_by_telegram_id tid table)
unfolding get_user_by_telegram_id
found tid [] = tt
found tid (u ∷ us) =
    if-either (All-some (λ (v : User). v.telegram_id ≡ tid)) (u.telegram_id == tid) (some u)
      (find (λ (v : User). v.telegram_id == tid) us) (λ e. (==_iff u.telegram_id tid).0 e)
      (λ e. found tid us)

abbrev pub user_id : User → ℕ
user_id u = u.id

pub All-both :
    (P Q : User → Type 0) {S : User → Type 0}
    → ((u : User) → P u → Q u → S u)
    → (us : List User) → All P us
    → All Q us
    → All S us
All-both P Q f [] hp hq = tt
All-both P Q f (u ∷ us) hp hq = (f u hp.0 hq.0, All-both P Q f us hp.1 hq.1)

-- A table of users: no id twice, and the id is a function of the Telegram id, which is unique.
pub record IsTable (owner : ℕ → ℕ) (table : List User) : Type 0 where
  pub distinct : AreDistinct user_id table
  pub owned : All (λ (u : User). u.id ≡ owner u.telegram_id) table

-- a change of a row that leaves its keys alone
record KeepsKeys (change : User → User) : Type 0 where
  same_id : (u : User) → (change u).id ≡ u.id
  same_telegram_id : (u : User) → (change u).telegram_id ≡ u.telegram_id

-- What becomes of a table while a user up to this id is dealt with: it stays a table, and its rows
-- after the id stay.
pub record Passes (owner : ℕ → ℕ) (p : User → Bool) (b : ℕ) (table table' : List User)
    : Type 0 where
  pub is_table : IsTable owner table'
  pub rows : rows_after user_id p b table' ≡ rows_after user_id p b table

module _ (owner : ℕ → ℕ) (p : User → Bool) (b : ℕ) where
  row_of_tid : ℕ → (User → User) → User → User
  row_of_tid tid change u = if u.telegram_id == tid then change u else u

  All-update :
      (P : User → Type 0) (tid : ℕ) (change : User → User)
      → ((u : User) → P u → P (change u))
      → (table : List User) → All P table
      → All P (update_user tid change table)
  unfolding update_user
  All-update P tid change keep [] h = tt
  All-update P tid change keep (u ∷ us) h = (
    if-either P (u.telegram_id == tid) (change u) u (λ e. keep u h.0) (λ e. h.0),
    All-update P tid change keep us h.1,
  )

  distinct-update :
      (tid : ℕ) (change : User → User)
      → KeepsKeys change
      → (table : List User) → AreDistinct user_id table
      → AreDistinct user_id (update_user tid change table)
  unfolding update_user
  distinct-update tid change k [] h = tt
  distinct-update tid change k (u ∷ us) h =
      let rest = All-update (λ v. u.id ≢ v.id) tid change (λ v ne e. ne (e ∙ k.same_id v)) us h.0 in
      (
        if-either (λ (w : User). All (λ (v : User). w.id ≢ v.id) (update_user tid change us))
            (u.telegram_id == tid) (change u) u
            (λ e. All-map (λ v ne e. ne (sym (k.same_id u) ∙ e)) (update_user tid change us) rest)
            (λ e. rest),
        distinct-update tid change k us h.1,
      )

  select-update :
      (tid : ℕ) (change : User → User)
      → KeepsKeys change
      → owner tid ≤ b
      → (table : List User) → All (λ (u : User). u.id ≡ owner u.telegram_id) table
      → select (λ (u : User). p u && ltb b u.id) (update_user tid change table)
        ≡ select (λ (u : User). p u && ltb b u.id) table
  unfolding update_user
  select-update tid change k low [] h = refl
  select-update tid change k low (u ∷ us) h =
      let rest = select-update tid change k low us h.1 in
      elim (Bool-cases (u.telegram_id == tid)) [
        | inl same ↦
            let it : u.telegram_id ≡ tid = (==_iff u.telegram_id tid).0 same in
            let low' : ltb b u.id ≡ false =
              le→not-ltb u.id b (subst (λ n. n ≤ b) (sym (h.0 ∙ ap owner it)) low) in
            let low'' : ltb b (change u).id ≡ false = ap (ltb b) (k.same_id u) ∙ low' in
            rw same (ground (arith, low', low'', rest))
        | inr other ↦ rw other (ground (arith, rest))
      ]

  update-Passes :
      (tid : ℕ) (change : User → User) (table : List User)
      → KeepsKeys change
      → owner tid ≤ b
      → IsTable owner table
      → Passes owner p b table (update_user tid change table)
  update-Passes tid change table k low t = record {
    is_table = record {
      distinct = distinct-update tid change k table t.distinct;
      owned =
          All-update (λ (u : User). u.id ≡ owner u.telegram_id) tid change
            (λ u e. k.same_id u ∙ e ∙ ap owner (sym (k.same_telegram_id u))) table t.owned;
    };
    rows = ap (sort_by user_id) (select-update tid change k low table t.owned);
  }

  refl-Passes : (table : List User) → IsTable owner table → Passes owner p b table table
  refl-Passes table t = record { is_table = t; rows = refl }

  trans-Passes :
      (t t' t'' : List User)
      → Passes owner p b t t'
      → Passes owner p b t' t''
      → Passes owner p b t t''
  trans-Passes t t' t'' x y = record { is_table = y.is_table; rows = y.rows ∙ x.rows }

  module _ (telegram : Telegram) (daily : Bool) where
    send_to_fresh-Passes :
        (u : User) (table : List User)
        → owner u.telegram_id ≤ b
        → IsTable owner table
        → Passes owner p b table (send_to_fresh telegram daily u table).1
    unfolding send_to_fresh
    send_to_fresh-Passes u table low t =
        let blocked = blocked_by telegram daily (to_private telegram daily u).1 in
        let table' = if blocked then deactivate_user u.telegram_id table else table in
        let first =
          if-either (Passes owner p b table) blocked (deactivate_user u.telegram_id table) table
            (λ e.
              update-Passes u.telegram_id deactivated table
                (record { same_id = λ v. refl; same_telegram_id = λ v. refl }) low t)
            (λ e. refl-Passes table t) in
        trans-Passes table table' _ first (
          update-Passes u.telegram_id
            (persist_ids (id_of telegram daily (to_private telegram daily u).1)
              (id_of telegram daily (to_channel telegram daily u).1))
            table' (record { same_id = λ v. refl; same_telegram_id = λ v. refl }) low
            first.is_table)

    send_if_wanted-Passes :
        (tid : ℕ) (o : Option User) (table : List User)
        → All-some (λ (u : User). u.telegram_id ≡ tid) o
        → owner tid ≤ b
        → IsTable owner table
        → Passes owner p b table (send_if_wanted telegram daily o table).1
    send_if_wanted-Passes tid none table h low t = refl-Passes table t
    send_if_wanted-Passes tid (some u) table h low t =
        if-either (λ (x : List Request × List User). Passes owner p b table x.1)
          (wants_notice daily u.notification_settings) (send_to_fresh telegram daily u table)
          ([], table) (λ e. send_to_fresh-Passes u table (rw h low) t) (λ e. refl-Passes table t)

    send-Passes :
        (tid : ℕ) (table : List User)
        → owner tid ≤ b
        → IsTable owner table
        → Passes owner p b table (send_schedule_notification telegram daily tid table).1
    unfolding send_schedule_notification
    send-Passes tid table low t =
        send_if_wanted-Passes tid (get_user_by_telegram_id tid table) table (found tid table) low t

    -- a batch of users up to this id
    pub batch-Passes :
        (batch table : List User)
        → All (λ (u : User). owner u.telegram_id ≤ b) batch
        → IsTable owner table
        → Passes owner p b table (send_notifications_to_users telegram daily batch table)
    unfolding send_notifications_to_users
    batch-Passes [] table low t = refl-Passes table t
    batch-Passes (u ∷ us) table low t =
        let first = send-Passes u.telegram_id table low.0 t in
        trans-Passes table _ _ first (batch-Passes us _ low.1 first.is_table)
