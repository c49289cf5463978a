-- ===== src/Scheduler/Consistency.antt =====
-- Which kinds of update the checker finds together, and what their tags tell.
use voltyk_bot_v3_python.Prelude.{
  ◌≡◌, Bool, true, false, not, ◌&&◌, ◌||◌, Option, none, some, List, arith, is_some,
}
use voltyk_bot_v3_python.Prelude.Text.{Text}
use voltyk_bot_v3_python.ScheduleDb.{Pair, Snapshot, get_daily_snapshot, get_schedule_hash}
use voltyk_bot_v3_python.Scheduler.{Event}
use voltyk_bot_v3_python.Scheduler.Comparison.{
  Sched, UpdateType, is_no_update, Today, compare_yesterday, compare_today, first_of_day, Tomorrow,
  same, appeared, updated, cancelled, tomorrow_move, later_in_day, compare_schedules,
  compute_date_hash, tagged, send_as_daily_planned,
}
use voltyk_bot_v3_python.Scheduler.Checks.{Moment, Db, notice_of, found_update}

-- `todayUpdated` and `todayUnchanged` exclude each other, the three keys on tomorrow do too, and
-- `todayUnchanged` comes only with one of them.
pub record IsConsistent (u : UpdateType) : Type 0 where
  pub today : u.today_updated && u.today_unchanged ≡ false
  pub appeared_updated : u.tomorrow_appeared && u.tomorrow_updated ≡ false
  pub appeared_cancelled : u.tomorrow_appeared && u.tomorrow_cancelled ≡ false
  pub updated_cancelled : u.tomorrow_updated && u.tomorrow_cancelled ≡ false
  pub with_tomorrow :
      not u.today_unchanged || u.tomorrow_appeared || u.tomorrow_updated || u.tomorrow_cancelled
      ≡ true

-- the tags are not set yet
record IsUntagged (u : UpdateType) : Type 0 where
  not_planned : u.daily_planned ≡ false
  not_initial : u.initial ≡ false

first_of_day-IsConsistent :
    (t : Today) (events : List Event) (tomorrow : Text) (b : Bool)
    → IsConsistent (first_of_day t events tomorrow b).0
      × IsUntagged (first_of_day t events tomorrow b).0
unfolding first_of_day
first_of_day-IsConsistent t events tomorrow b = ground arith

later_in_day-IsConsistent :
    (k : Tomorrow) (t : Today) (s : Snapshot Sched) (events : List Event) (tomorrow : Text)
    → IsConsistent (later_in_day k t s events tomorrow).0
      × IsUntagged (later_in_day k t s events tomorrow).0
unfolding later_in_day
later_in_day-IsConsistent same t s events tomorrow = ground arith
later_in_day-IsConsistent appeared t s events tomorrow = ground arith
later_in_day-IsConsistent updated t s events tomorrow = ground arith
later_in_day-IsConsistent cancelled t s events tomorrow = ground arith

compare_schedules-IsConsistent :
    (snapshot yesterday : Option (Snapshot Sched)) (events : List Event) (today tomorrow : Text)
    (th tmh : Option Text)
    → IsConsistent (compare_schedules snapshot yesterday events today tomorrow th tmh).0
      × IsUntagged (compare_schedules snapshot yesterday events today tomorrow th tmh).0
unfolding compare_schedules
compare_schedules-IsConsistent none yesterday events today tomorrow th tmh =
    first_of_day-IsConsistent (compare_yesterday yesterday events today th) events tomorrow
      (is_some tmh)
compare_schedules-IsConsistent (some s) yesterday events today tomorrow th tmh =
    later_in_day-IsConsistent (tomorrow_move s.tomorrow_hash tmh) (compare_today s events today th)
      s events tomorrow

-- what the tags make of a consistent update
tagged-IsConsistent :
    (b : Bool) (u : UpdateType)
    → IsConsistent u
    → IsUntagged u
    → IsConsistent (tagged b u)
      × (is_no_update (tagged b u) ≡ false)
      × ((tagged b u).initial || (tagged b u).daily_planned ≡ send_as_daily_planned b u)
tagged-IsConsistent true u c t = ground arith
tagged-IsConsistent false u c t = ground arith

-- The notice of a changed schedule claims no two kinds of update that exclude each other, always
-- claims one, and is of the daily kind exactly if its kinds say so by `initial` or `dailyPlanned`.
pub notice_of-IsConsistent :
    (hash : List Event → Text) (m : Moment) (p : Pair) (sched : Sched) (t : Db)
    → IsConsistent (notice_of hash m p sched t).update_type
      × (is_no_update (notice_of hash m p sched t).update_type ≡ false)
      × ((notice_of hash m p sched t).update_type.initial
            || (notice_of hash m p sched t).update_type.daily_planned
          ≡ (notice_of hash m p sched t).is_daily_planned)
unfolding notice_of
notice_of-IsConsistent hash m p sched t =
    let (consistent, untagged) =
      compare_schedules-IsConsistent (get_daily_snapshot p m.today t)
        (get_daily_snapshot p m.yesterday t) sched.events m.today m.tomorrow
        (compute_date_hash hash sched.events m.today)
        (compute_date_hash hash sched.events m.tomorrow) in
    tagged-IsConsistent (not (is_some (get_schedule_hash p t))) (found_update hash m p sched t).0
      consistent untagged
