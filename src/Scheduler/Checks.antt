-- ===== src/Scheduler/Checks.antt =====
-- `_check_single_queue` and the 06:00 flush of one pair. What is sent is a list of effects; the
-- clock's answers are a record; the hash of a list of events is a parameter, as it is computed by
-- json and hashlib. A schedule arrives parsed, and None is one that could not be fetched.
use voltyk_bot_v3_python.Prelude.{
  ℕ, Bool, true, false, not, ◌&&◌, ◌||◌, Option, none, some, List, [], ◌∷◌, is_some, is_empty,
  if◌then◌else◌, ◌++◌,
}
use voltyk_bot_v3_python.Prelude.Text.{Text}
use voltyk_bot_v3_python.ScheduleDb.{
  Pair, Snapshot, Pending, Tables, get_schedule_hash, update_schedule_check_time,
  get_daily_snapshot, upsert_daily_snapshot, save_pending_notification,
  get_latest_pending_notification, has_pending, mark_pending_notifications_sent,
}
use voltyk_bot_v3_python.Scheduler.{Event, Changes}
use voltyk_bot_v3_python.Scheduler.Comparison.{
  Sched, UpdateType, no_update, no_changes, hash_eq, compute_date_hash, compare_schedules,
  send_as_daily_planned, tagged,
}

-- the readings of the clock: the time, the dates in Kyiv, and `_is_quiet_hours`
pub record Moment : Type 0 where
  pub now : ℕ
  pub today : Text
  pub yesterday : Text
  pub tomorrow : Text
  pub is_quiet : Bool

-- the arguments of `_send_notifications_for_pair`
pub record Notice : Type 0 where
  pub pair : Pair
  pub sched : Sched
  pub update_type : UpdateType
  pub changes : Changes
  pub is_daily_planned : Bool

-- What leaves the process: the charts are dropped and rendered, the users of a pair are told, and
-- the messages on their electricity are brought up to date.
pub data Effect : Type 0 where
  chart_refreshed : Pair → Effect
  notified : Notice → Effect
  power_notices_updated : Pair → Effect

abbrev pub Db : Type 0
Db = Tables Sched UpdateType Changes

-- `json.dumps(changes) if (changes.get("added") or changes.get("removed")) else None`
abbrev pub dumped_changes : Changes → Option Changes
dumped_changes changes =
    if is_empty changes.added && is_empty changes.removed then none else some changes

-- `json.loads(notif.changes) if notif.changes else {"added": [], "removed": []}`
abbrev pub loaded_changes : Option Changes → Changes
loaded_changes none = no_changes
loaded_changes (some changes) = changes

-- the row that is queued in quiet hours
abbrev pub queued : Moment → Notice → Pending Sched UpdateType Changes
queued m n = record {
  pair = n.pair;
  schedule_data = some n.sched;
  update_type = n.update_type;
  changes = dumped_changes n.changes;
  is_pending = true;
  created_at = m.now;
}

module _ (hash : List Event → Text) where
  -- the snapshot that is written for a schedule
  abbrev pub snapshot_of : Moment → Pair → Sched → Snapshot Sched
  snapshot_of m p sched = record {
    pair = p;
    date = m.today;
    schedule_data = some sched;
    today_hash = compute_date_hash hash sched.events m.today;
    tomorrow_hash = compute_date_hash hash sched.events m.tomorrow;
  }

  -- "No change in overall hash"
  unfoldable pub check_unchanged : Moment → Pair → Sched → Option (Snapshot Sched) → Db → Db
  check_unchanged m p sched none t =
      upsert_daily_snapshot (snapshot_of m p sched) (update_schedule_check_time m.now p none t)
  check_unchanged m p sched (some snapshot) t = update_schedule_check_time m.now p none t

  -- `update_type` and `changes` before the tags
  abbrev pub found_update : Moment → Pair → Sched → Db → UpdateType × Changes
  found_update m p sched t =
      compare_schedules (get_daily_snapshot p m.today t) (get_daily_snapshot p m.yesterday t)
        sched.events m.today m.tomorrow (compute_date_hash hash sched.events m.today)
        (compute_date_hash hash sched.events m.tomorrow)

  -- the notice that the users of the pair are due
  unfoldable pub notice_of : Moment → Pair → Sched → Db → Notice
  notice_of m p sched t =
      let is_initial = not (is_some (get_schedule_hash p t)) in
      let (update_type, changes) = found_update m p sched t in
      record {
        pair = p;
        sched = sched;
        update_type = tagged is_initial update_type;
        changes = changes;
        is_daily_planned = send_as_daily_planned is_initial update_type;
      }

  -- the first two statements of the write session
  abbrev pub written : Moment → Pair → Sched → Db → Db
  written m p sched t =
      upsert_daily_snapshot (snapshot_of m p sched)
        (update_schedule_check_time m.now p (some (hash sched.events)) t)

  -- "Hash changed"
  unfoldable pub check_changed : Moment → Pair → Sched → Db → Db × Bool × List Effect
  check_changed m p sched t =
      let n = notice_of m p sched t in
      if m.is_quiet
      then (
        save_pending_notification (queued m n) (written m p sched t),
        true,
        chart_refreshed p ∷ [],
      )
      else (
        mark_pending_notifications_sent p (written m p sched t),
        true,
        chart_refreshed p ∷ notified n ∷ power_notices_updated p ∷ [],
      )

  -- `_check_single_queue`
  unfoldable pub check_single_queue : Moment → Pair → Option Sched → Db → Db × Bool × List Effect
  check_single_queue m p none t = (t, false, [])
  check_single_queue m p (some sched) t =
      if hash_eq (get_schedule_hash p t) (some (hash sched.events))
      then (check_unchanged m p sched (get_daily_snapshot p m.today t) t, false, [])
      else check_changed m p sched t

  -- "send daily planned", with the schedule that the fetch gives
  unfoldable pub flush_planned : Moment → Pair → Option Sched → Db → Db × List Effect
  flush_planned m p none t = (t, [])
  flush_planned m p (some sched) t = (
    written m p sched t,
    notified (record {
      pair = p;
      sched = sched;
      update_type = no_update;
      changes = no_changes;
      is_daily_planned = true;
    })
        ∷ [],
  )

  -- A pending row is sent; one whose data cannot be read raises, and is left as it is.
  unfoldable pub flush_notice :
      Moment
      → Pair
      → Option Sched
      → Option (Pending Sched UpdateType Changes)
      → Db
      → Db × List Effect
  flush_notice m p fetched none t = flush_planned m p fetched t
  flush_notice m p fetched (some row) t = elim row.schedule_data [
    | none ↦ (t, [])
    | some sched ↦ (
      written m p sched (mark_pending_notifications_sent p t),
      notified (record {
        pair = p;
        sched = sched;
        update_type = row.update_type;
        changes = loaded_changes row.changes;
        is_daily_planned = row.update_type.initial || row.update_type.daily_planned;
      })
          ∷ [],
    )
  ]

  -- One round of the loop of `_flush_pending_notifications_locked`; the flag tells whether the
  -- pair was in `pending_set`.
  unfoldable pub flush_pair : Moment → Bool → Pair → Option Sched → Db → Db × List Effect
  flush_pair m was_pending p fetched t =
      if was_pending
      then flush_notice m p fetched (get_latest_pending_notification p t) t
      else flush_planned m p fetched t

  -- the loop, where `pending_set` is that of the tables before it
  unfoldable pub flush_pairs : Moment → Db → List (Pair × Option Sched) → Db → Db × List Effect
  flush_pairs m before [] t = (t, [])
  flush_pairs m before ((p, fetched) ∷ pairs) t =
      let (t', sent) = flush_pair m (has_pending p before) p fetched t in
      let (t'', rest) = flush_pairs m before pairs t' in (t'', sent ++ rest)
