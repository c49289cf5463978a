-- ===== src/Broadcast/Tests.antt =====
-- A queue of three users, of whom one has left it and one has blocked the bot.
use voltyk_bot_v3_python.Prelude.{
  ℕ, ◌≡◌, refl, true, false, none, some, List, [], ◌∷◌, arith, length, ◌==◌, if◌then◌else◌,
}
use voltyk_bot_v3_python.Prelude.Text.{codes}
use voltyk_bot_v3_python.Retry.{returned, forbidden, result, attempt_from, retry_bot_call}
use voltyk_bot_v3_python.Paging.{page, pages}
use voltyk_bot_v3_python.Users.{
  Tracking, User, get_user_by_telegram_id, update_user,
  get_active_power_users_by_region_queue_cursor,
}
use voltyk_bot_v3_python.Broadcast.{
  private_chat, Request, delete_message, send_schedule, max_retries, Telegram, send_to_fresh,
  send_schedule_notification, send_notifications_to_users, send_notifications_for_pair,
}
use voltyk_bot_v3_python.Broadcast.Passing.{IsTable}
use voltyk_bot_v3_python.Broadcast.Everyone.{send_notifications_for_pair_all}
use voltyk_bot_v3_python.Broadcast.Receivers.{send_schedule_notification-replaces}

abbrev tracking : Tracking
tracking = record { last_schedule_message_id = none }

abbrev anna : User
anna = record {
  id = 1;
  telegram_id = 11;
  is_active = true;
  region = codes "kyiv";
  queue = codes "3.1";
  router_ip = some [];
  notification_settings = none;
  channel_config = none;
  message_tracking = some tracking;
}

abbrev bohdan : User
bohdan = record anna { id = 2; telegram_id = 12; is_active = false }

abbrev vira : User
vira = record anna { id = 3; telegram_id = 13 }

abbrev users : List User
users = vira ∷ anna ∷ bohdan ∷ []

-- 13 has blocked the bot; messages have the number 100
abbrev telegram : Telegram
telegram tid chat attempt = if tid == 13 then forbidden else returned 100

abbrev owner : ℕ → ℕ
owner tid = if tid == 11 then 1 else if tid == 12 then 2 else 3

abbrev users_after : List User
users_after =
    record vira { is_active = false }
    ∷ record anna { message_tracking = some (record { last_schedule_message_id = some 100 }) }
    ∷ bohdan
    ∷ []

sent_to_all :
    send_notifications_for_pair telegram true 1 (codes "kyiv") (codes "3.1") 3 users
    ≡ some (anna ∷ vira ∷ [], 2, users_after)
unfolding send_notifications_for_pair pages page send_notifications_to_users
    send_schedule_notification send_to_fresh get_user_by_telegram_id update_user retry_bot_call
    attempt_from
sent_to_all = refl

-- an empty address counts here, against the text of the query
empty_ip_counts :
    length (get_active_power_users_by_region_queue_cursor (codes "kyiv") (codes "3.1") 500 0 users)
    ≡ 2
unfolding page
empty_ip_counts = refl

users-IsTable : IsTable owner users
users-IsTable = record {
  distinct = (
    ((λ e. omega (arith, e)), ((λ e. omega (arith, e)), tt)),
    (((λ e. omega (arith, e)), tt), (tt, tt)),
  );
  owned = (refl, (refl, (refl, tt)));
}

send_notifications_for_pair_all_example :
    (table' : List User) × (send_notifications_for_pair telegram true 1
        (codes "kyiv")
        (codes "3.1")
        3
        users
      ≡ some (anna ∷ vira ∷ [], 2, table'))
    × IsTable owner table'
send_notifications_for_pair_all_example =
    send_notifications_for_pair_all owner telegram true 1 (codes "kyiv") (codes "3.1") 3 users
      (omega arith) users-IsTable (omega arith)

anna_held : get_user_by_telegram_id 11 users ≡ some anna
unfolding get_user_by_telegram_id
anna_held = refl

anna_went : (retry_bot_call (telegram 11 (private_chat 11)) max_retries).outcome ≡ result 100
unfolding retry_bot_call attempt_from
anna_went = refl

send_schedule_notification-replaces_example :
    (rest : List Request) × ((send_schedule_notification telegram false 11
        (send_schedule_notification telegram true 11 users).1).0
      ≡ delete_message (private_chat 11) 100
        ∷ send_schedule
            (private_chat 11)
            (retry_bot_call (telegram 11 (private_chat 11)) max_retries)
        ∷ rest)
send_schedule_notification-replaces_example =
    send_schedule_notification-replaces telegram telegram true 100 anna tracking users anna_held
      refl refl refl refl anna_went
