-- ===== src/Users.antt =====
-- The users' table with what hangs on each row (bot/db/models.py), and the queries of
-- bot/db/queries/users.py that the services page through. A Telegram id, which the source keeps as
-- a string, is a number.
use voltyk_bot_v3_python.Prelude.{
  ℕ, Bool, true, false, not, ◌&&◌, Option, none, some, List, [], ◌∷◌, map, ◌==◌, if◌then◌else◌, any,
  select, is_some,
}
use voltyk_bot_v3_python.Prelude.Text.{Text, text_eq}
use voltyk_bot_v3_python.ScheduleDb.{find}
use voltyk_bot_v3_python.Paging.{page}

-- user_notification_settings, what the schedule's notices read of it
pub record NoticeSettings : Type 0 where
  pub notify_schedule_changes : Bool
  pub notify_daily_schedule_0600 : Bool
  pub notify_schedule_target : Text

-- user_channel_config, what they read and write of it
pub record Channel : Type 0 where
  pub channel_id : Option Text
  pub channel_status : Text
  pub channel_paused : Bool
  pub ch_notify_schedule : Bool
  pub ch_notify_daily_schedule_0600 : Bool
  pub last_schedule_message_id : Option ℕ

-- user_message_tracking
pub record Tracking : Type 0 where
  pub last_schedule_message_id : Option ℕ

pub record User : Type 0 where
  pub id : ℕ
  pub telegram_id : ℕ
  pub is_active : Bool
  pub region : Text
  pub queue : Text
  pub router_ip : Option Text
  pub notification_settings : Option NoticeSettings
  pub channel_config : Option Channel
  pub message_tracking : Option Tracking

unfoldable pub get_user_by_telegram_id : ℕ → List User → Option User
get_user_by_telegram_id tid table = find (λ u. u.telegram_id == tid) table

-- an UPDATE of the row of this Telegram id, or of what hangs on it
unfoldable pub update_user : ℕ → (User → User) → List User → List User
update_user tid change table = map (λ u. if u.telegram_id == tid then change u else u) table

abbrev pub deactivated : User → User
deactivated u = record u { is_active = false }

abbrev pub deactivate_user : ℕ → List User → List User
deactivate_user tid table = update_user tid deactivated table

-- `is_active AND region = :region`, and `queue = :queue` where one is given
abbrev pub is_in_queue : Text → Option Text → User → Bool
is_in_queue region none u = u.is_active && text_eq u.region region
is_in_queue region (some queue) u = u.is_active && text_eq u.region region && text_eq u.queue queue

abbrev pub get_active_users_by_region : Text → Option Text → List User → List User
get_active_users_by_region region queue table = select (is_in_queue region queue) table

abbrev pub get_active_users_by_region_cursor : Text → Option Text → ℕ → ℕ → List User → List User
get_active_users_by_region_cursor region queue limit after_id table =
    page (λ (u : User). u.id) (is_in_queue region queue) limit after_id table

-- `router_ip IS NOT NULL AND router_ip != ''`
abbrev pub has_ip : Option Text → Bool
has_ip none = false
has_ip (some []) = false
has_ip (some (c ∷ s)) = true

abbrev pub is_monitored : User → Bool
is_monitored u = u.is_active && has_ip u.router_ip

abbrev pub get_users_with_ip_cursor : ℕ → ℕ → List User → List User
get_users_with_ip_cursor limit after_id table =
    page (λ (u : User). u.id) is_monitored limit after_id table

-- here an empty router_ip is one
abbrev pub is_power_user : Text → Text → User → Bool
is_power_user region queue u =
    u.is_active && text_eq u.region region && text_eq u.queue queue && is_some u.router_ip

abbrev pub get_active_power_users_by_region_queue_cursor :
    Text → Text → ℕ → ℕ → List User → List User
get_active_power_users_by_region_queue_cursor region queue limit after_id table =
    page (λ (u : User). u.id) (is_power_user region queue) limit after_id table

-- `SELECT DISTINCT region, queue`
abbrev same_pair : User → Text × Text → Bool
same_pair u p = text_eq u.region p.0 && text_eq u.queue p.1

unfoldable pub get_distinct_region_queue_pairs : List User → List (Text × Text)
get_distinct_region_queue_pairs [] = []
get_distinct_region_queue_pairs (u ∷ us) =
    let rest = get_distinct_region_queue_pairs us in
    if u.is_active && not (any (same_pair u) rest) then (u.region, u.queue) ∷ rest else rest
