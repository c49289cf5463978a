-- ===== src/Broadcast/Receivers.antt =====
-- Whom a notice reaches, and what one notice finds of the one before it.
use voltyk_bot_v3_python.Prelude.{
  ℕ, ◌≡◌, refl, ap, ◌∙◌, Bool, true, false, some, List, [], ◌∷◌, ◌++◌, arith, ◌==◌, if◌then◌else◌,
  if-then, Bool-cases, inl, inr,
}
use voltyk_bot_v3_python.Retry.{result, retry_bot_call}
use voltyk_bot_v3_python.Users.{
  User, Tracking, get_user_by_telegram_id, update_user, deactivate_user,
}
use voltyk_bot_v3_python.Broadcast.{
  tracked, with_message, deliver, private_chat, Request, delete_message, send_schedule, Telegram,
  max_retries, wants_notice, to_bot, persist_ids, id_of, blocked_by, deliver_if, to_private,
  to_channel, send_to_fresh, send_if_wanted, send_schedule_notification,
}

-- the row of a user after an update of it
get-update :
    (tid : ℕ) (change : User → User) (u : User) (table : List User)
    → ((v : User) → (change v).telegram_id ≡ v.telegram_id)
    → get_user_by_telegram_id tid table ≡ some u
    → get_user_by_telegram_id tid (update_user tid change table) ≡ some (change u)
unfolding get_user_by_telegram_id update_user
get-update tid change u [] keep held = cc
get-update tid change u (v ∷ vs) keep held = elim (Bool-cases (v.telegram_id == tid)) [
  | inl same ↦
      let it : v ≡ u = ground (arith) in
      let same' : ((change v).telegram_id == tid) ≡ true = ap (λ n. n == tid) (keep v) ∙ same in
      rw (same, same') (ap (λ (w : User). some (change w)) it)
  | inr other ↦ rw (other, other) (get-update tid change u vs keep (ground (arith)))
]

module _ (telegram : Telegram) (daily : Bool) where
  -- the calls for a user who wants the notice
  send-asks :
      (tid : ℕ) (u : User) (table : List User)
      → get_user_by_telegram_id tid table ≡ some u
      → wants_notice daily u.notification_settings ≡ true
      → send_schedule_notification telegram daily tid table ≡ send_to_fresh telegram daily u table
  unfolding send_schedule_notification
  send-asks tid u table held wanted =
      ap (λ o. send_if_wanted telegram daily o table) held ∙ if-then _ _ _ wanted

  -- what is left in the table of a user whose private message went out
  fresh-leaves :
      (id : ℕ) (u : User) (table : List User)
      → get_user_by_telegram_id u.telegram_id table ≡ some u
      → to_bot u.notification_settings ≡ true
      → (retry_bot_call (telegram u.telegram_id (private_chat u.telegram_id)) max_retries).outcome
        ≡ result id
      → get_user_by_telegram_id u.telegram_id (send_to_fresh telegram daily u table).1
        ≡ some (persist_ids (some id) (id_of telegram daily (to_channel telegram daily u).1) u)
  unfolding send_to_fresh
  fresh-leaves id u table held bot went =
      let sent : (to_private telegram daily u).1 ≡ some (result id) =
        ap
          (λ b.
            (deliver_if telegram daily b u.telegram_id (private_chat u.telegram_id)
              (tracked u.message_tracking)).1)
          bot
        ∙ ap (λ o. some o) went in
      let kept : (if blocked_by telegram daily (to_private telegram daily u).1
            then deactivate_user u.telegram_id table
            else table)
          ≡ table =
        ap (λ o. if blocked_by telegram daily o then deactivate_user u.telegram_id table else table)
          sent in
      let ids = id_of telegram daily (to_channel telegram daily u).1 in
      ap
        (λ o. get_user_by_telegram_id u.telegram_id (
          update_user u.telegram_id (persist_ids (id_of telegram daily o) ids) (
            if blocked_by telegram daily (to_private telegram daily u).1
            then deactivate_user u.telegram_id table
            else table)))
        sent
      ∙ ap
          (λ t.
            get_user_by_telegram_id u.telegram_id
              (update_user u.telegram_id (persist_ids (some id) ids) t))
          kept
      ∙ get-update u.telegram_id (persist_ids (some id) ids) u table (λ v. refl) held

-- what a notice of a change asks first, of a user whose last message is known
fresh-asks :
    (telegram : Telegram) (id : ℕ) (u : User) (table : List User)
    → to_bot u.notification_settings ≡ true
    → tracked u.message_tracking ≡ some id
    → (send_to_fresh telegram false u table).0
      ≡ delete_message (private_chat u.telegram_id) id
        ∷ send_schedule
            (private_chat u.telegram_id)
            (retry_bot_call (telegram u.telegram_id (private_chat u.telegram_id)) max_retries)
        ∷ (to_channel telegram false u).0
unfolding send_to_fresh
fresh-asks telegram id u table bot last =
    let channel = (to_channel telegram false u).0 in
    ap
      (λ b.
        (deliver_if telegram false b u.telegram_id (private_chat u.telegram_id)
          (tracked u.message_tracking)).0
        ++ channel)
      bot
    ∙ ap (λ o. (deliver telegram false u.telegram_id (private_chat u.telegram_id) o).0 ++ channel)
        last

-- A notice of a change replaces the one before: if a user with a tracking row, who is told of this
-- kind and of changes in the private chat, was sent a message, the next notice of a change first
-- deletes that very message, and then sends.
pub send_schedule_notification-replaces :
    (telegram telegram' : Telegram) (daily : Bool) (id : ℕ) (u : User) (mt : Tracking)
    (table : List User)
    → get_user_by_telegram_id u.telegram_id table ≡ some u
    → wants_notice daily u.notification_settings ≡ true
    → wants_notice false u.notification_settings ≡ true
    → to_bot u.notification_settings ≡ true
    → u.message_tracking ≡ some mt
    → (retry_bot_call (telegram u.telegram_id (private_chat u.telegram_id)) max_retries).outcome
      ≡ result id
    → (rest : List Request) × ((send_schedule_notification telegram' false u.telegram_id
          (send_schedule_notification telegram daily u.telegram_id table).1).0
        ≡ delete_message (private_chat u.telegram_id) id
          ∷ send_schedule
              (private_chat u.telegram_id)
              (retry_bot_call (telegram' u.telegram_id (private_chat u.telegram_id)) max_retries)
          ∷ rest)
send_schedule_notification-replaces telegram telegram' daily id u mt table held wanted wanted' bot
      mine went =
    let tid = u.telegram_id in
    let u' = persist_ids (some id) (id_of telegram daily (to_channel telegram daily u).1) u in
    let table' = (send_schedule_notification telegram daily tid table).1 in
    let first =
      ap (λ (x : List Request × List User). x.1)
        (send-asks telegram daily tid u table held wanted) in
    let left : get_user_by_telegram_id tid table' ≡ some u' =
      ap (get_user_by_telegram_id tid) first
      ∙ fresh-leaves telegram daily id u table held bot went in
    let second =
      ap (λ (x : List Request × List User). x.0)
        (send-asks telegram' false tid u' table' left wanted') in
    let last = ap (λ o. tracked (with_message (some id) o)) mine in
    ((to_channel telegram' false u').0, second ∙ fresh-asks telegram' id u' table' bot last)
