-- ===== src/Reminders/Tests.antt =====
-- Two checks of one pair, a minute apart, half an hour before an outage.
use voltyk_bot_v3_python.Prelude.{ℕ, ◌≡◌, refl, true, false, some, [], ◌∷◌, any}
use voltyk_bot_v3_python.Prelude.Text.{Text, codes}
use voltyk_bot_v3_python.Reminders.{
  before_30m, RemindedUser, power_off, Check, check_reminder_sent, all_attempts,
  check_and_send_reminders, missed_attempts, catch_up_from, catch_up_missed_reminders, mark_all,
  mark_reminder_sent,
}
use voltyk_bot_v3_python.Reminders.Once.{is_attempt}
use voltyk_bot_v3_python.Reminders.CatchUp.{
  regular, catch_up, run_once, run_each, is_sent_attempt, run_each-once,
}

abbrev outage_start : Text
outage_start = codes "2025-01-10T18:00:00+02:00"

abbrev user : RemindedUser
user = record {
  telegram_id = 7;
  notification_settings = some (record {
    remind_1h = false;
    remind_30m = true;
    remind_15m = true;
    notify_remind_off = true;
    notify_remind_on = false;
  });
}

abbrev check_at : ℕ → ℕ → Check
check_at now minutes = record {
  now = now;
  ahead = record { event_type = power_off; anchor = outage_start; minutes = minutes };
  users = user ∷ [];
  send_reminder = λ tid kind. true;
}

abbrev half_hour_check : Check
half_hour_check = check_at 100 30

called :
    (check_and_send_reminders half_hour_check []).0
    ≡ record { telegram_id = 7; anchor = outage_start; reminder_type = before_30m; is_sent = true }
      ∷ []
unfolding check_and_send_reminders all_attempts check_reminder_sent
called = refl

caught_up :
    any (is_sent_attempt 7 outage_start before_30m) (run_once (catch_up half_hour_check) []).0
    ≡ true
unfolding catch_up_missed_reminders catch_up_from missed_attempts mark_all mark_reminder_sent
    check_reminder_sent
caught_up = refl

run_each-once_example :
    any
      (is_attempt 7 outage_start before_30m)
      (run_each (regular (check_at 160 29) ∷ []) (run_once (catch_up half_hour_check) []).1).0
    ≡ false
run_each-once_example =
    run_each-once 7 outage_start before_30m (catch_up half_hour_check)
      (regular (check_at 160 29) ∷ []) [] caught_up
