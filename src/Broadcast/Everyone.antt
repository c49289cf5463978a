-- ===== src/Broadcast/Everyone.antt =====
-- The sending to a queue reaches each of its active users once, whoever blocks the bot meanwhile.
use voltyk_bot_v3_python.Prelude.{ℕ, ◌≤◌, ◌<◌, ◌≡◌, refl, subst, Bool, some, List, length, All}
use voltyk_bot_v3_python.Prelude.Text.{Text}
use voltyk_bot_v3_python.Paging.{rows_after, page, last_id}
use voltyk_bot_v3_python.Paging.Complete.{IsKept, pages-Complete, page-le-last_id, All-page}
use voltyk_bot_v3_python.Users.{User, is_in_queue}
use voltyk_bot_v3_python.Broadcast.{
  Telegram, send_notifications_to_users, send_notifications_for_pair,
}
use voltyk_bot_v3_python.Broadcast.Passing.{user_id, All-both, batch-Passes, IsTable}

module _ (owner : ℕ → ℕ) (telegram : Telegram) (daily : Bool) (batch_size : ℕ)
    (region queue : Text) where
  abbrev in_queue : User → Bool
  in_queue = is_in_queue region (some queue)

  abbrev send_batch : List User → List User → List User
  send_batch = send_notifications_to_users telegram daily

  batch_owners :
      (a : ℕ) (table : List User)
      → IsTable owner table
      → All
          (λ (u : User).
            owner u.telegram_id ≤ last_id user_id a (page user_id in_queue batch_size a table))
          (page user_id in_queue batch_size a table)
  batch_owners a table t =
      let b = last_id user_id a (page user_id in_queue batch_size a table) in
      All-both (λ (u : User). u.id ≤ b) (λ (u : User). u.id ≡ owner u.telegram_id)
        (λ u low e. subst (λ n. n ≤ b) e low) (page user_id in_queue batch_size a table)
        (page-le-last_id user_id in_queue batch_size a table t.distinct)
        (All-page user_id (λ (u : User). u.id ≡ owner u.telegram_id) in_queue batch_size a table
          t.owned)

  batch-IsKept :
      (a : ℕ) (table : List User)
      → IsTable owner table
      → IsKept user_id in_queue batch_size send_batch (IsTable owner) a table
  batch-IsKept a table t =
      let batch = page user_id in_queue batch_size a table in
      let after =
        batch-Passes owner in_queue (last_id user_id a batch) telegram daily batch table
          (batch_owners a table t) t in
      record { distinct = t.distinct; good = after.is_table; rows = after.rows }

  -- With fuel for each of its users, the sending to a queue ends. It has taken each user who was
  -- active in the queue when it began, once and in the order of their ids, whoever was found to
  -- have blocked the bot meanwhile, and counts them; ids and Telegram ids are unique before and
  -- after, and a batch holds at least one user.
  pub send_notifications_for_pair_all :
      (fuel : ℕ) (table : List User)
      → 1 ≤ batch_size
      → IsTable owner table
      → length (rows_after user_id in_queue 0 table) < fuel
      → (table' : List User) × (send_notifications_for_pair telegram daily batch_size region queue
            fuel table
          ≡ some (
            rows_after user_id in_queue 0 table,
            length (rows_after user_id in_queue 0 table),
            table',
          ))
        × IsTable owner table'
  unfolding send_notifications_for_pair
  send_notifications_for_pair_all fuel table some_size t enough =
      let (table', done, t') =
        pages-Complete user_id in_queue batch_size send_batch (IsTable owner) batch-IsKept some_size
          fuel 0 table t enough in
      rw (done, send_notifications_for_pair) (table', refl, t')
