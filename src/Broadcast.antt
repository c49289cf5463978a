-- ===== src/Broadcast.antt =====
-- The sending of a schedule to the users of a queue (bot/services/scheduler.py): to one user
-- (`_send_schedule_notification`), to a batch (`_send_notifications_to_users`), and page by page to
-- all (`_send_notifications_for_pair`). Texts and charts are made without fail and left out.
pub mod Passing
pub mod Everyone
pub mod Receivers
mod Tests
use voltyk_bot_v3_python.Prelude.{
  ℕ, zero, suc, ◌+◌, Bool, true, false, not, ◌&&◌, ◌||◌, Option, none, some, List, [], ◌∷◌, ◌++◌,
  if◌then◌else◌, length, is_some,
}
use voltyk_bot_v3_python.Prelude.Text.{Text, codes, text_eq}
use voltyk_bot_v3_python.Retry.{
  Answer, Outcome, result, raised_forbidden, raised_failed, raised_retry, Call, retry_bot_call,
}
use voltyk_bot_v3_python.Users.{
  NoticeSettings, Channel, Tracking, User, get_user_by_telegram_id, update_user, deactivate_user,
  is_in_queue,
}
use voltyk_bot_v3_python.Paging.{pages}

pub data Chat : Type 0 where
  private_chat : ℕ → Chat
  channel_chat : Text → Chat

-- What is asked of Telegram: to delete a message, and to send the schedule, which retries.
pub data Request : Type 0 where
  delete_message : Chat → ℕ → Request
  send_schedule : Chat → Call ℕ → Request

-- what Telegram would answer to the attempts for a user to send to a chat
abbrev pub Telegram : Type 0
Telegram = ℕ → Chat → ℕ → Answer ℕ

-- `max_retries`
abbrev pub max_retries : ℕ
max_retries = 3

-- the settings let this kind of notice through
abbrev pub wants_notice : Bool → Option NoticeSettings → Bool
wants_notice is_daily_planned none = true
wants_notice true (some ns) = ns.notify_daily_schedule_0600
wants_notice false (some ns) = ns.notify_schedule_changes

-- `ns is None or ns.notify_schedule_target != "channel"`
abbrev pub to_bot : Option NoticeSettings → Bool
to_bot none = true
to_bot (some ns) = not (text_eq ns.notify_schedule_target (codes "channel"))

-- the channel to send to; an empty id counts as none
abbrev pub channel_if : Bool → Channel → Option Text
channel_if is_daily_planned cc = elim cc.channel_id [
  | none ↦ none
  | some [] ↦ none
  | some (c ∷ id) ↦
      if text_eq cc.channel_status (codes "active")
        && not cc.channel_paused
        && (if is_daily_planned then cc.ch_notify_daily_schedule_0600 else cc.ch_notify_schedule)
      then some (c ∷ id)
      else none
]

abbrev pub channel_for : Bool → Option Channel → Option Text
channel_for is_daily_planned none = none
channel_for is_daily_planned (some cc) = channel_if is_daily_planned cc

-- the deletion of the message before, which a daily plan leaves
abbrev pub delete_previous : Bool → Chat → Option ℕ → List Request
delete_previous true chat last = []
delete_previous false chat none = []
delete_previous false chat (some id) = delete_message chat id ∷ []

abbrev pub tracked : Option Tracking → Option ℕ
tracked none = none
tracked (some mt) = mt.last_schedule_message_id

abbrev pub channel_tracked : Option Channel → Option ℕ
channel_tracked none = none
channel_tracked (some cc) = cc.last_schedule_message_id

-- the id of the message that was sent
abbrev pub sent_id : Outcome ℕ → Option ℕ
sent_id (result id) = some id
sent_id raised_forbidden = none
sent_id raised_failed = none
sent_id (raised_retry s) = none

abbrev pub is_blocked : Outcome ℕ → Bool
is_blocked raised_forbidden = true
is_blocked (result id) = false
is_blocked raised_failed = false
is_blocked (raised_retry s) = false

-- "Persist sent message IDs": a user without the row keeps none
abbrev pub with_message : Option ℕ → Option Tracking → Option Tracking
with_message none mt = mt
with_message (some id) none = none
with_message (some id) (some mt) = some (record mt { last_schedule_message_id = some id })

abbrev pub with_channel_message : Option ℕ → Option Channel → Option Channel
with_channel_message none cc = cc
with_channel_message (some id) none = none
with_channel_message (some id) (some cc) = some (record cc { last_schedule_message_id = some id })

abbrev pub persist_ids : Option ℕ → Option ℕ → User → User
persist_ids sent_msg sent_ch_msg u = record u {
  message_tracking = with_message sent_msg u.message_tracking;
  channel_config = with_channel_message sent_ch_msg u.channel_config;
}

module _ (telegram : Telegram) (is_daily_planned : Bool) where
  -- the calls for a chat, and the end of the one that sends
  abbrev pub deliver : ℕ → Chat → Option ℕ → List Request × Option (Outcome ℕ)
  deliver tid chat last =
      let call = retry_bot_call (telegram tid chat) max_retries in
      (
        delete_previous is_daily_planned chat last ++ (send_schedule chat call ∷ []),
        some call.outcome,
      )

  abbrev pub deliver_if : Bool → ℕ → Chat → Option ℕ → List Request × Option (Outcome ℕ)
  deliver_if false tid chat last = ([], none)
  deliver_if true tid chat last = deliver tid chat last

  abbrev pub deliver_to : Option Text → ℕ → Option ℕ → List Request × Option (Outcome ℕ)
  deliver_to none tid last = ([], none)
  deliver_to (some id) tid last = deliver tid (channel_chat id) last

  abbrev pub id_of : Option (Outcome ℕ) → Option ℕ
  id_of none = none
  id_of (some o) = sent_id o

  abbrev pub blocked_by : Option (Outcome ℕ) → Bool
  blocked_by none = false
  blocked_by (some o) = is_blocked o

  -- what is asked of Telegram for a user as found in the database
  abbrev pub to_private : User → List Request × Option (Outcome ℕ)
  to_private u =
      deliver_if (to_bot u.notification_settings) u.telegram_id (private_chat u.telegram_id)
        (tracked u.message_tracking)

  abbrev pub to_channel : User → List Request × Option (Outcome ℕ)
  to_channel u =
      deliver_to (channel_for is_daily_planned u.channel_config) u.telegram_id
        (channel_tracked u.channel_config)

  -- a user who is found and wants the notice
  unfoldable pub send_to_fresh : User → List User → List Request × List User
  send_to_fresh u table =
      let (asked, sent) = to_private u in
      let (asked_channel, sent_channel) = to_channel u in
      let table' = if blocked_by sent then deactivate_user u.telegram_id table else table in
      (
        asked ++ asked_channel,
        update_user u.telegram_id (persist_ids (id_of sent) (id_of sent_channel)) table',
      )

  abbrev pub send_if_wanted : Option User → List User → List Request × List User
  send_if_wanted none table = ([], table)
  send_if_wanted (some u) table =
      if wants_notice is_daily_planned u.notification_settings
      then send_to_fresh u table
      else ([], table)

  -- `_send_schedule_notification`, to the user of a Telegram id
  unfoldable pub send_schedule_notification : ℕ → List User → List Request × List User
  send_schedule_notification tid table = send_if_wanted (get_user_by_telegram_id tid table) table

  -- `_send_notifications_to_users`, whose workers take each user of the batch once
  unfoldable pub send_notifications_to_users : List User → List User → List User
  send_notifications_to_users [] table = table
  send_notifications_to_users (u ∷ us) table =
      send_notifications_to_users us (send_schedule_notification u.telegram_id table).1

  -- `_send_notifications_for_pair`, on fuel: the users in order, `total`, and the table
  unfoldable pub send_notifications_for_pair :
      ℕ → Text → Text → ℕ → List User → Option (List User × ℕ × List User)
  send_notifications_for_pair batch_size region queue fuel table =
      elim (pages (λ (u : User). u.id) (is_in_queue region (some queue)) batch_size
        send_notifications_to_users fuel 0 table) [
          | none ↦ none
          | some (users, table') ↦ some (users, length users, table')
        ]
