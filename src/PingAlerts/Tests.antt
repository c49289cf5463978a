-- ===== src/PingAlerts/Tests.antt =====
-- A round over three alerts, of which one is recent and one is over.
use voltyk_bot_v3_python.Prelude.{
  ℕ, ◌-◌, ◌≡◌, refl, true, false, none, some, List, [], ◌∷◌, arith, ◌==◌, if◌then◌else◌,
}
use voltyk_bot_v3_python.Prelude.Text.{codes, is_space}
use voltyk_bot_v3_python.Retry.{result}
use voltyk_bot_v3_python.Address.{Unicode, is_ascii_digit, ipv4_address, target, check_router_http}
use voltyk_bot_v3_python.PingAlerts.{
  PingErrorAlert, Round, too_recent, alerted, send_daily_ping_error_alerts,
}
use voltyk_bot_v3_python.PingAlerts.Touched.{IsAlertTable}
use voltyk_bot_v3_python.PingAlerts.OnePass.{send_daily_ping_error_alerts-one_pass}

abbrev ascii : Unicode
ascii = record {
  is_space = is_space;
  decimal = λ c. if is_ascii_digit c then some (c - b'0') else none;
  is_digit = is_ascii_digit;
}

abbrev silent : PingErrorAlert
silent = record {
  id = 1;
  telegram_id = 21;
  router_ip = codes "93.1.2.3";
  is_active = true;
  last_alert_at = none;
}

abbrev told : PingErrorAlert
told = record silent { id = 2; telegram_id = 22; last_alert_at = some 100_000 }

abbrev over : PingErrorAlert
over = record silent { id = 3; telegram_id = 23; is_active = false }

abbrev alerts : List PingErrorAlert
alerts = told ∷ over ∷ silent ∷ []

abbrev evening : Round
evening = record {
  now = 150_000;
  unicode = ascii;
  reach = λ host port. false;
  send_message = λ tid. result 1;
  noted_at = λ tid. 150_001;
}

abbrev owner : ℕ → ℕ
owner tid = tid - 20

abbrev row : ℕ → PingErrorAlert
row tid = if tid == 21 then silent else if tid == 22 then told else over

alerts-IsAlertTable : IsAlertTable evening owner alerts
alerts-IsAlertTable = record {
  distinct = (
    (λ e. omega (arith, e), (λ e. omega (arith, e), tt)),
    ((λ e. omega (arith, e), tt), (tt, tt)),
  );
  owned = (refl, (refl, (refl, tt)));
}

send_daily_ping_error_alerts-one_pass_example :
    send_daily_ping_error_alerts evening 1 3 alerts
    ≡ some (
      (21, alerted) ∷ (22, too_recent) ∷ [],
      told ∷ over ∷ record silent { last_alert_at = some 150_001 } ∷ [],
    )
unfolding check_router_http target ipv4_address
send_daily_ping_error_alerts-one_pass_example =
    send_daily_ping_error_alerts-one_pass evening owner row 1 3 alerts (omega arith)
      alerts-IsAlertTable (refl, (refl, (refl, tt))) (omega arith)
