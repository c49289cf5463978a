-- ===== src/Scheduler/Comparison.antt =====
-- The middle of `_check_single_queue`: what has changed since the last snapshot. Hashes and dates
-- are texts.
use voltyk_bot_v3_python.Prelude.{
  Bool, true, false, not, ◌&&◌, ◌||◌, Option, none, some, List, [], ◌∷◌, ◌++◌, is_some,
  if◌then◌else◌,
}
use voltyk_bot_v3_python.Prelude.Text.{Text, text_eq}
use voltyk_bot_v3_python.ScheduleDb.{Snapshot}
use voltyk_bot_v3_python.Scheduler.{
  Event, Changes, has_key, event_key, filter_events_for_date, compute_changes,
  merge_tomorrow_events_into_changes,
}

-- The schedule of a queue, as parse_schedule_for_queue returns it and as it is dumped.
pub record Sched : Type 0 where
  pub events : List Event
  pub dtek_updated_at : Option Text

-- the keys of the dict `update_type`, which are True where they are there
pub record UpdateType : Type 0 where
  pub today_updated : Bool
  pub today_unchanged : Bool
  pub tomorrow_appeared : Bool
  pub tomorrow_updated : Bool
  pub tomorrow_cancelled : Bool
  pub daily_planned : Bool
  pub initial : Bool

abbrev pub no_update : UpdateType
no_update = record {
  today_updated = false;
  today_unchanged = false;
  tomorrow_appeared = false;
  tomorrow_updated = false;
  tomorrow_cancelled = false;
  daily_planned = false;
  initial = false;
}

-- `not update_type`
abbrev pub is_no_update : UpdateType → Bool
is_no_update u = not (
    u.today_updated || u.today_unchanged || u.tomorrow_appeared || u.tomorrow_updated
    || u.tomorrow_cancelled || u.daily_planned || u.initial)

abbrev pub no_changes : Changes
no_changes = record { added = []; removed = [] }

-- `a == b` for hashes that may be None
abbrev pub hash_eq : Option Text → Option Text → Bool
hash_eq none none = true
hash_eq none (some y) = false
hash_eq (some x) none = false
hash_eq (some x) (some y) = text_eq x y

-- `_compute_date_hash`, over `calculate_schedule_hash`
abbrev pub compute_date_hash : (List Event → Text) → List Event → Text → Option Text
compute_date_hash hash events date_str = elim (filter_events_for_date events date_str) [
  | [] ↦ none
  | e ∷ es ↦ some (hash (e ∷ es))
]

-- `_compute_changes` on the events of one day
abbrev pub day_changes : List Event → List Event → Text → Changes
day_changes old_events events date =
    compute_changes (filter_events_for_date old_events date) (filter_events_for_date events date)

-- What the comparison of today has found: `todayUpdated`, the changes, and whether it was done.
pub record Today : Type 0 where
  pub updated : Bool
  pub changes : Changes
  pub is_done : Bool

-- "compare today's events with yesterday's tomorrow data"
unfoldable pub compare_yesterday : Option (Snapshot Sched) → List Event → Text → Option Text → Today
compare_yesterday none events today new_today_hash = record {
  updated = false;
  changes = no_changes;
  is_done = false;
}
compare_yesterday (some y) events today new_today_hash = elim y.schedule_data [
  | none ↦ record { updated = false; changes = no_changes; is_done = false }
  | some old ↦
      if hash_eq y.tomorrow_hash new_today_hash
      then record { updated = false; changes = no_changes; is_done = true }
      else record { updated = true; changes = day_changes old.events events today; is_done = true }
]

-- the branch with no snapshot: "First check of the day"
unfoldable pub first_of_day : Today → List Event → Text → Bool → UpdateType × Changes
first_of_day t events tomorrow appeared = (
  record no_update {
    today_updated = t.updated;
    tomorrow_appeared = appeared;
    today_unchanged = appeared && not t.updated && t.is_done;
  },
  if appeared then merge_tomorrow_events_into_changes t.changes events tomorrow else t.changes,
)

-- `_compute_changes` for a day, against dumped data that may be unreadable
unfoldable pub changes_since : Option Sched → List Event → Text → Changes
changes_since none events date = no_changes
changes_since (some old) events date = day_changes old.events events date

-- today's part of the branch with a snapshot; dumped data that cannot be read has no changes
unfoldable pub compare_today : Snapshot Sched → List Event → Text → Option Text → Today
compare_today snapshot events today new_today_hash =
    if hash_eq snapshot.today_hash new_today_hash
    then record { updated = false; changes = no_changes; is_done = true }
    else record {
      updated = true;
      changes = changes_since snapshot.schedule_data events today;
      is_done = true;
    }

-- the loop over tomorrow's added events, with `existing_added_keys` growing as it goes
abbrev pub add_new : List Event → List Event → List Event
add_new added [] = added
add_new added (ev ∷ evs) =
    add_new (if has_key (event_key ev) added then added else added ++ (ev ∷ [])) evs

abbrev pub add_tomorrow : Changes → Changes → Changes
add_tomorrow changes tomorrow = record {
  added = add_new changes.added tomorrow.added;
  removed = changes.removed ++ tomorrow.removed;
}

-- `tomorrow_changes` against the data of the snapshot
unfoldable pub tomorrow_compared : Option Sched → List Event → Text → Changes → Changes
tomorrow_compared none events tomorrow changes = changes
tomorrow_compared (some old) events tomorrow changes =
    add_tomorrow changes (day_changes old.events events tomorrow)

-- How tomorrow's hash has moved since the snapshot.
pub data Tomorrow : Type 0 where
  same appeared updated cancelled : Tomorrow

abbrev pub tomorrow_move : Option Text → Option Text → Tomorrow
tomorrow_move none none = same
tomorrow_move none (some h) = appeared
tomorrow_move (some old) none = cancelled
tomorrow_move (some old) (some h) = if text_eq old h then same else updated

-- tomorrow's part of the branch with a snapshot
unfoldable pub later_in_day :
    Tomorrow → Today → Snapshot Sched → List Event → Text → UpdateType × Changes
later_in_day same t snapshot events tomorrow =
    (record no_update { today_updated = t.updated }, t.changes)
later_in_day appeared t snapshot events tomorrow = (
  record no_update {
    today_updated = t.updated;
    tomorrow_appeared = true;
    today_unchanged = not t.updated;
  },
  merge_tomorrow_events_into_changes t.changes events tomorrow,
)
later_in_day updated t snapshot events tomorrow = (
  record no_update {
    today_updated = t.updated;
    tomorrow_updated = true;
    today_unchanged = not t.updated;
  },
  tomorrow_compared snapshot.schedule_data events tomorrow t.changes,
)
later_in_day cancelled t snapshot events tomorrow = (
  record no_update {
    today_updated = t.updated;
    tomorrow_cancelled = true;
    today_unchanged = not t.updated;
  },
  tomorrow_compared snapshot.schedule_data events tomorrow t.changes,
)

-- `send_as_daily_planned`, and the tags `dailyPlanned` and `initial`
abbrev pub send_as_daily_planned : Bool → UpdateType → Bool
send_as_daily_planned is_initial u = is_initial || is_no_update u

abbrev pub tagged : Bool → UpdateType → UpdateType
tagged is_initial u = record u {
  daily_planned = u.daily_planned || (is_no_update u && not is_initial);
  initial = u.initial || is_initial;
}

-- `update_type` and `changes` as the checker has them before it tags them
unfoldable pub compare_schedules :
    Option (Snapshot Sched)
    → Option (Snapshot Sched)
    → List Event
    → Text
    → Text
    → Option Text
    → Option Text
    → UpdateType × Changes
compare_schedules none yesterday events today tomorrow new_today_hash new_tomorrow_hash =
    first_of_day (compare_yesterday yesterday events today new_today_hash) events tomorrow
      (is_some new_tomorrow_hash)
compare_schedules (some snapshot) yesterday events today tomorrow new_today_hash new_tomorrow_hash =
    later_in_day (tomorrow_move snapshot.tomorrow_hash new_tomorrow_hash)
      (compare_today snapshot events today new_today_hash) snapshot events tomorrow
