-- ===== src/Scheduler.antt =====
-- bot/services/scheduler.py: what has changed between two schedules (`_filter_events_for_date`,
-- `_compute_changes`, `_merge_tomorrow_events_into_changes`). An event is a dict with its times
-- as texts in ISO format, and the set of keys of a list is asked through the list itself.
pub mod Differences
pub mod Comparison
pub mod Checks
pub mod Consistency
pub mod Silence
pub mod Overnight
pub mod Reported
mod Tests
mod Runs
use voltyk_bot_v3_python.Prelude.{Bool, not, List, [], ◌∷◌, ◌++◌, any, select, take}
use voltyk_bot_v3_python.Prelude.Text.{Text, text_eq, codes}

pub record Event : Type 0 where
  pub start : Text
  pub end : Text
  pub is_possible : Bool

-- `f"{e['start']}_{e['end']}"`
abbrev pub event_key : Event → Text
event_key e = e.start ++ codes "_" ++ e.end

-- `key in {... for e in events}`
abbrev pub has_key : Text → List Event → Bool
has_key key events = any (λ e. text_eq (event_key e) key) events

-- `_filter_events_for_date`
abbrev pub filter_events_for_date : List Event → Text → List Event
filter_events_for_date events date_str = select (λ ev. text_eq (take 10 ev.start) date_str) events

pub record Changes : Type 0 where
  pub added : List Event
  pub removed : List Event

-- the events whose key is not among those of `others`
abbrev pub without : List Event → List Event → List Event
without others events = select (λ e. not (has_key (event_key e) others)) events

-- `_compute_changes`
unfoldable pub compute_changes : List Event → List Event → Changes
compute_changes old_events new_events = record {
  added = without old_events new_events;
  removed = without new_events old_events;
}

-- `_merge_tomorrow_events_into_changes`; the keys are those before the loop
unfoldable pub merge_tomorrow_events_into_changes : Changes → List Event → Text → Changes
merge_tomorrow_events_into_changes changes events tomorrow_date = record changes {
  added = changes.added ++ without changes.added (filter_events_for_date events tomorrow_date);
}
