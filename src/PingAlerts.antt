-- ===== src/PingAlerts.antt =====
-- The daily alerts about routers that do not answer: the table ping_error_alerts of
-- bot/db/queries/power.py and `_send_daily_ping_error_alerts` of bot/services/power_monitor.py.
-- Which routers answer and how Telegram takes each message are parameters; times are seconds.
pub mod Touched
pub mod OnePass
mod Tests
use voltyk_bot_v3_python.Prelude.{
  ℕ, ◌+◌, ◌==◌, Bool, true, false, Option, none, some, List, [], ◌∷◌, ◌++◌, ltb, if◌then◌else◌, map,
  select, any,
}
use voltyk_bot_v3_python.Prelude.Text.{Text}
use voltyk_bot_v3_python.Retry.{Outcome, result, raised_forbidden, raised_failed, raised_retry}
use voltyk_bot_v3_python.Address.{Unicode, check_router_http}
use voltyk_bot_v3_python.Paging.{page, pages}

pub record PingErrorAlert : Type 0 where
  pub id : ℕ
  pub telegram_id : ℕ
  pub router_ip : Text
  pub is_active : Bool
  pub last_alert_at : Option ℕ

abbrev pub alert_id : PingErrorAlert → ℕ
alert_id a = a.id

abbrev pub is_active_alert : PingErrorAlert → Bool
is_active_alert a = a.is_active

-- an UPDATE of the row of a user, of which there is at most one
unfoldable pub update_alert :
    ℕ → (PingErrorAlert → PingErrorAlert) → List PingErrorAlert → List PingErrorAlert
update_alert tid change table = map (λ a. if a.telegram_id == tid then change a else a) table

abbrev pub inactive : PingErrorAlert → PingErrorAlert
inactive a = record a { is_active = false }

abbrev pub deactivate_ping_error_alert : ℕ → List PingErrorAlert → List PingErrorAlert
deactivate_ping_error_alert tid table = update_alert tid inactive table

abbrev pub alerted_at : ℕ → PingErrorAlert → PingErrorAlert
alerted_at now a = record a { last_alert_at = some now }

abbrev pub update_ping_error_alert_time : ℕ → ℕ → List PingErrorAlert → List PingErrorAlert
update_ping_error_alert_time now tid table = update_alert tid (alerted_at now) table

abbrev pub reactivated : Text → PingErrorAlert → PingErrorAlert
reactivated router_ip a = record a { router_ip = router_ip; is_active = true }

-- a user who has a row keeps the time of the last alert; `id` is the next one of the sequence
unfoldable pub upsert_ping_error_alert : ℕ → ℕ → Text → List PingErrorAlert → List PingErrorAlert
upsert_ping_error_alert id tid router_ip table =
    if any (λ a. a.telegram_id == tid) table
    then update_alert tid (reactivated router_ip) table
    else table
      ++ (record {
        id = id;
        telegram_id = tid;
        router_ip = router_ip;
        is_active = true;
        last_alert_at = none;
      }
          ∷ [])

abbrev pub get_active_ping_error_alerts : List PingErrorAlert → List PingErrorAlert
get_active_ping_error_alerts table = select is_active_alert table

abbrev pub get_active_ping_error_alerts_cursor : ℕ → ℕ → List PingErrorAlert → List PingErrorAlert
get_active_ping_error_alerts_cursor limit after_id table =
    page alert_id is_active_alert limit after_id table

-- What a round meets: the clock at its start, which hosts answer, and by Telegram id how the
-- message fares and when it has been noted.
pub record Round : Type 0 where
  pub now : ℕ
  pub unicode : Unicode
  pub reach : Text → ℕ → Bool
  pub send_message : ℕ → Outcome ℕ
  pub noted_at : ℕ → ℕ

-- What becomes of an alert: it is too recent, the router answers, the message is sent, the user has
-- blocked the bot (and is deactivated too), or the message fails.
pub data Done : Type 0 where
  too_recent restored alerted blocked failed : Done

-- `if is_alive:`, of None too
abbrev pub responds : Option Bool → Bool
responds none = false
responds (some b) = b

-- `(now - last_at).total_seconds() < 86400`
abbrev pub is_too_recent : ℕ → Option ℕ → Bool
is_too_recent now none = false
is_too_recent now (some last_at) = ltb now (last_at + 86_400)

abbrev pub sending_of : Outcome ℕ → Done
sending_of (result id) = alerted
sending_of raised_forbidden = blocked
sending_of raised_failed = failed
sending_of (raised_retry s) = failed

module _ (r : Round) where
  abbrev pub done_of : PingErrorAlert → Done
  done_of a =
      if is_too_recent r.now a.last_alert_at
      then too_recent
      else if responds (check_router_http r.unicode r.reach (some a.router_ip))
      then restored
      else sending_of (r.send_message a.telegram_id)

  -- what is written of it
  abbrev pub write : Done → ℕ → List PingErrorAlert → List PingErrorAlert
  write too_recent tid table = table
  write restored tid table = deactivate_ping_error_alert tid table
  write alerted tid table = update_ping_error_alert_time (r.noted_at tid) tid table
  write blocked tid table = deactivate_ping_error_alert tid table
  write failed tid table = table

  unfoldable pub handle_alerts : List PingErrorAlert → List PingErrorAlert → List PingErrorAlert
  handle_alerts [] table = table
  handle_alerts (a ∷ alerts) table = handle_alerts alerts (write (done_of a) a.telegram_id table)

  -- `_send_daily_ping_error_alerts`, on fuel: what became of each alert, in order, and the table
  unfoldable pub send_daily_ping_error_alerts :
      ℕ → ℕ → List PingErrorAlert → Option (List (ℕ × Done) × List PingErrorAlert)
  send_daily_ping_error_alerts batch_size fuel table =
      elim (pages alert_id is_active_alert batch_size handle_alerts fuel 0 table) [
        | none ↦ none
        | some (alerts, table') ↦ some (map (λ a. (a.telegram_id, done_of a)) alerts, table')
      ]
