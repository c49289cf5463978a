-- ===== src/Scheduler/Runs.antt =====
-- A night at one queue: a check at 01:00 finds a new evening, and the flush tells of it.
use voltyk_bot_v3_python.Prelude.{
  ◌≡◌, refl, true, false, not, ◌&&◌, ◌||◌, Option, none, some, List, [], ◌∷◌,
}
use voltyk_bot_v3_python.Prelude.Text.{Text, codes}
use voltyk_bot_v3_python.ScheduleDb.{
  Pair, Snapshot, get_schedule_hash, get_latest_pending_notification, get_daily_snapshot,
  has_pending,
}
use voltyk_bot_v3_python.Scheduler.{Event, event_key, has_key}
use voltyk_bot_v3_python.Scheduler.Comparison.{
  Sched, no_update, is_no_update, hash_eq, compare_schedules, compare_today, later_in_day,
}
use voltyk_bot_v3_python.Scheduler.Checks.{
  Moment, chart_refreshed, notified, power_notices_updated, Db, notice_of, check_single_queue,
}
use voltyk_bot_v3_python.Scheduler.Consistency.{IsConsistent, notice_of-IsConsistent}
use voltyk_bot_v3_python.Scheduler.Silence.{IsKnown, check_single_queue-twice}
use voltyk_bot_v3_python.Scheduler.Overnight.{IsPast, morning, night-then-flush}
use voltyk_bot_v3_python.Scheduler.Reported.{compare_schedules_listed}

-- all the keys in a row stand in for the digest
abbrev digest : List Event → Text
digest [] = []
digest (e ∷ es) = event_key e

abbrev pair : Pair
pair = record { region = codes "kyiv"; queue = codes "3.1" }

abbrev today : Text
today = codes "2025-01-10"

abbrev tomorrow : Text
tomorrow = codes "2025-01-11"

abbrev morning_event : Event
morning_event = record {
  start = codes "2025-01-10T08:00";
  end = codes "2025-01-10T10:00";
  is_possible = false;
}

abbrev evening_event : Event
evening_event = record {
  start = codes "2025-01-10T18:00";
  end = codes "2025-01-10T20:00";
  is_possible = false;
}

abbrev old_sched : Sched
old_sched = record { events = morning_event ∷ []; dtek_updated_at = none }

abbrev new_sched : Sched
new_sched = record { events = evening_event ∷ []; dtek_updated_at = none }

-- the same events, which the source says it has published again
abbrev republished : Sched
republished = record new_sched { dtek_updated_at = some (codes "2025-01-10 21:15") }

abbrev saved_snapshot : Snapshot Sched
saved_snapshot = record {
  pair = pair;
  date = today;
  schedule_data = some old_sched;
  today_hash = some (digest (morning_event ∷ []));
  tomorrow_hash = none;
}

-- the tables after a check of the old schedule
abbrev db : Db
db = record {
  checks =
      record { pair = pair; last_hash = some (digest (morning_event ∷ [])); last_checked_at = 100 }
      ∷ [];
  snapshots = saved_snapshot ∷ [];
  notifications = [];
}

abbrev at_night : Moment
at_night = record {
  now = 200;
  today = today;
  yesterday = codes "2025-01-09";
  tomorrow = tomorrow;
  is_quiet = true;
}

abbrev at_six : Moment
at_six = record at_night { now = 300; is_quiet = false }

is_new : hash_eq (get_schedule_hash pair db) (some (digest new_sched.events)) ≡ false
unfolding get_schedule_hash
is_new = refl

no_rows : IsPast at_night pair db
unfolding get_latest_pending_notification
no_rows row e = cc

-- the check at night finds that today was updated
night_notice :
    (notice_of digest at_night pair new_sched db).update_type
    ≡ record no_update { today_updated = true }
unfolding notice_of compare_schedules compare_today later_in_day get_daily_snapshot
    get_schedule_hash
night_notice = refl

check_single_queue-twice_example :
    ((check_single_queue digest at_six pair
        (some republished)
        (check_single_queue digest at_night pair (some new_sched) db).0).1
      ≡ false)
    × ((check_single_queue digest at_six pair
          (some republished)
          (check_single_queue digest at_night pair (some new_sched) db).0).2
        ≡ [])
    × IsKnown digest pair new_sched
        (check_single_queue digest at_six pair
          (some republished)
          (check_single_queue digest at_night pair (some new_sched) db).0).0
check_single_queue-twice_example =
    check_single_queue-twice digest pair new_sched republished at_night at_six db refl

notice_of-IsConsistent_example :
    IsConsistent (notice_of digest at_night pair new_sched db).update_type
    × (is_no_update (notice_of digest at_night pair new_sched db).update_type ≡ false)
    × ((notice_of digest at_night pair new_sched db).update_type.initial
          || (notice_of digest at_night pair new_sched db).update_type.daily_planned
        ≡ (notice_of digest at_night pair new_sched db).is_daily_planned)
notice_of-IsConsistent_example = notice_of-IsConsistent digest at_night pair new_sched db

night-then-flush_example :
    ((check_single_queue digest at_night pair (some new_sched) db).2 ≡ chart_refreshed pair ∷ [])
    × ((morning digest at_night at_six pair new_sched none db).1
        ≡ notified (notice_of digest at_night pair new_sched db) ∷ [])
    × ((check_single_queue digest (record at_night { is_quiet = false }) pair (some new_sched) db).2
        ≡ chart_refreshed pair
          ∷ notified (notice_of digest at_night pair new_sched db)
          ∷ power_notices_updated pair
          ∷ [])
    × (has_pending pair (morning digest at_night at_six pair new_sched none db).0 ≡ false)
    × IsKnown digest pair new_sched (morning digest at_night at_six pair new_sched none db).0
night-then-flush_example =
    night-then-flush digest at_night at_six pair new_sched none db is_new refl no_rows

abbrev key : Text
key = event_key evening_event

abbrev hash_now : Option Text
hash_now = some (digest new_sched.events)

compare_schedules_listed_example :
    (has_key key
        (compare_schedules
          (some saved_snapshot)
          none
          new_sched.events
          today
          tomorrow
          hash_now
          none).1.added
      ≡ not (hash_eq saved_snapshot.today_hash hash_now)
          && (has_key key new_sched.events && not (has_key key old_sched.events))
        || false)
    × (has_key key
          (compare_schedules
            (some saved_snapshot)
            none
            new_sched.events
            today
            tomorrow
            hash_now
            none).1.removed
        ≡ not (hash_eq saved_snapshot.today_hash hash_now)
            && (has_key key old_sched.events && not (has_key key new_sched.events))
          || false)
compare_schedules_listed_example =
    compare_schedules_listed key saved_snapshot old_sched new_sched.events today tomorrow hash_now
      none refl none
