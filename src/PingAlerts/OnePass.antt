-- ===== src/PingAlerts/OnePass.antt =====
-- The rounds of alerts, page by page, are one pass over the table.
use voltyk_bot_v3_python.Prelude.{
  ℕ, ◌≤◌, ◌<◌, ◌≡◌, sym, ap, ◌∙◌, subst, Bool, true, ◌&&◌, some, List, [], ◌∷◌, map, arith, ltb,
  if◌then◌else◌, select, length, any, All, All-map, Bool-cases, inl, inr, ==_iff,
}
use voltyk_bot_v3_python.Prelude.Sort.{sort_by, All-sort_by}
use voltyk_bot_v3_python.Paging.{rows_after, page, last_id}
use voltyk_bot_v3_python.Paging.Complete.{
  IsKept, pages-Complete, page-le-last_id, All-page, All-select,
}
use voltyk_bot_v3_python.Paging.AtOnce.{AtOnce, pages-AtOnce, any-sort_by, any-select}
use voltyk_bot_v3_python.PingAlerts.Touched.{
  map_same, becomes, touch, mine, handle_alerts_lem, no_alerts, handle_alerts_append, touch_lem,
  IsAlertTable, touch-IsAlertTable, select-touch,
}
use voltyk_bot_v3_python.PingAlerts.{
  PingErrorAlert, alert_id, is_active_alert, Round, done_of, handle_alerts,
  send_daily_ping_error_alerts,
}

module _ (r : Round) (owner : ℕ → ℕ) (row : ℕ → PingErrorAlert) (batch_size : ℕ) where
  -- the alerts that a round takes, in order
  abbrev pub due : List PingErrorAlert → List PingErrorAlert
  due table = rows_after alert_id is_active_alert 0 table

  -- what becomes of a row in one pass
  abbrev pub settled : PingErrorAlert → PingErrorAlert
  settled a = if a.is_active && ltb 0 a.id then becomes r (done_of r a) a.telegram_id a else a

  low_owners :
      (b : ℕ) (alerts : List PingErrorAlert)
      → All (λ (x : PingErrorAlert). x.id ≤ b) alerts
      → All (λ (x : PingErrorAlert). x.id ≡ owner x.telegram_id) alerts
      → All (λ (x : PingErrorAlert). owner x.telegram_id ≤ b) alerts
  low_owners b [] low owned = tt
  low_owners b (x ∷ xs) low owned = (omega (arith, low.0, owned.0), low_owners b xs low.1 owned.1)

  alerts-IsKept :
      (a : ℕ) (table : List PingErrorAlert)
      → IsAlertTable r owner table
      → IsKept alert_id is_active_alert batch_size (handle_alerts r) (IsAlertTable r owner) a table
  alerts-IsKept a table t =
      let batch = page alert_id is_active_alert batch_size a table in
      let b = last_id alert_id a batch in
      let low : All (λ (x : PingErrorAlert). owner x.telegram_id ≤ b) batch =
        low_owners b batch (page-le-last_id alert_id is_active_alert batch_size a table t.distinct)
          (All-page alert_id (λ (x : PingErrorAlert). x.id ≡ owner x.telegram_id) is_active_alert
            batch_size a table t.owned) in
      record {
        distinct = t.distinct;
        good = rw (handle_alerts_lem r batch table) (touch-IsAlertTable r owner batch table t);
        rows =
            ap (rows_after alert_id is_active_alert b) (handle_alerts_lem r batch table)
            ∙ ap (sort_by alert_id) (select-touch r owner b batch table low t.owned);
      }

  -- of the rows of a user there is one
  any-mine :
      (q : PingErrorAlert → Bool) (a : PingErrorAlert) (table : List PingErrorAlert)
      → row a.telegram_id ≡ a
      → All (λ (x : PingErrorAlert). row x.telegram_id ≡ x) table
      → any (λ x. q x && mine r a x) table ≡ (q a && any (mine r a) table)
  any-mine q a [] one h = ground arith
  any-mine q a (x ∷ table) one h =
      let rest = any-mine q a table one h.1 in
      elim (Bool-cases (mine r a x)) [
        | inl same ↦
            let key = (==_iff a.telegram_id x.telegram_id).0 same in
            let it : a ≡ x = sym one ∙ ap row key ∙ h.0 in
            let ends : q a ≡ q x = ap q it in ground (arith, rest, same, ends)
        | inr other ↦ ground (arith, rest, other)
      ]

  self-any : (table : List PingErrorAlert) → All (λ a. any (mine r a) table ≡ true) table
  self-any [] = tt
  self-any (x ∷ table) = (ground arith, All-map (λ a h. ground (arith, h)) table (self-any table))

  touch-settles :
      (table : List PingErrorAlert) (a : PingErrorAlert)
      → All (λ (x : PingErrorAlert). row x.telegram_id ≡ x) table
      → row a.telegram_id ≡ a
      → any (mine r a) table ≡ true
      → touch r (due table) a ≡ settled a
  touch-settles table a unique one there =
      let found : PingErrorAlert → Bool = λ x. x.is_active && ltb 0 x.id in
      let due_unique =
        All-sort_by alert_id (λ (x : PingErrorAlert). row x.telegram_id ≡ x) (select found table)
          (All-select alert_id (λ (x : PingErrorAlert). row x.telegram_id ≡ x) found table
            unique) in
      let all_one : All (λ x. mine r a x ≡ true → done_of r x ≡ done_of r a) (due table) =
        All-map
          (λ x u same.
            ap (done_of r)
              (sym u ∙ ap row (sym ((==_iff a.telegram_id x.telegram_id).0 same)) ∙ one))
          (due table) due_unique in
      touch_lem r (done_of r a) (due table) a all_one
      ∙ ap (λ b. if b then becomes r (done_of r a) a.telegram_id a else a)
          (any-sort_by (mine r a) alert_id (select found table)
            ∙ any-select (mine r a) found table
            ∙ any-mine found a table one unique
            ∙ rw there (ground arith))

  each-settles :
      (table alerts : List PingErrorAlert)
      → All (λ (x : PingErrorAlert). row x.telegram_id ≡ x) table
      → All (λ (a : PingErrorAlert). row a.telegram_id ≡ a) alerts
      → All (λ a. any (mine r a) table ≡ true) alerts
      → All (λ a. touch r (due table) a ≡ settled a) alerts
  each-settles table [] unique one there = tt
  each-settles table (a ∷ alerts) unique one there =
      (touch-settles table a unique one.0 there.0, each-settles table alerts unique one.1 there.1)

  -- With fuel for each alert that is due (active, its id above 0), a round of alerts ends. It has
  -- taken each of them once, in the order of their ids, and leaves the table that one pass over it
  -- leaves, in which a row that is due becomes what its own address, time and message make of it
  -- and any other row stays. Ids and Telegram ids are unique, and a batch holds at least one alert.
  pub send_daily_ping_error_alerts-one_pass :
      (fuel : ℕ) (table : List PingErrorAlert)
      → 1 ≤ batch_size
      → IsAlertTable r owner table
      → All (λ (x : PingErrorAlert). row x.telegram_id ≡ x) table
      → length (due table) < fuel
      → send_daily_ping_error_alerts r batch_size fuel table
        ≡ some (map (λ a. (a.telegram_id, done_of r a)) (due table), map settled table)
  unfolding send_daily_ping_error_alerts
  send_daily_ping_error_alerts-one_pass fuel table some_size t unique enough =
      let (table', done, good) =
        pages-Complete alert_id is_active_alert batch_size (handle_alerts r) (IsAlertTable r owner)
          alerts-IsKept some_size fuel 0 table t enough in
      let at_once : table' ≡ handle_alerts r (due table) table =
        subst
          (AtOnce alert_id is_active_alert batch_size (handle_alerts r) (no_alerts r)
            (handle_alerts_append r) table)
          done
          (pages-AtOnce alert_id is_active_alert batch_size (handle_alerts r) (no_alerts r)
            (handle_alerts_append r) fuel 0 table) in
      let final =
        at_once
        ∙ handle_alerts_lem r (due table) table
        ∙ map_same (touch r (due table)) settled table
            (each-settles table table unique unique (self-any table)) in
      rw (done, send_daily_ping_error_alerts)
        (ap (λ rows. some (map (λ a. (a.telegram_id, done_of r a)) (due table), rows)) final)
