-- ===== src/Scheduler/Differences.antt =====
-- Which events are reported as added and removed.
use voltyk_bot_v3_python.Prelude.{
  ◌≡◌, refl, ap, not, ◌&&◌, ◌||◌, List, [], ◌∷◌, ◌++◌, arith, inl, inr, Bool-cases,
}
use voltyk_bot_v3_python.Prelude.Text.{Text, text_eq, text_eq_sound}
use voltyk_bot_v3_python.Scheduler.{
  Event, event_key, has_key, filter_events_for_date, Changes, without, compute_changes,
  merge_tomorrow_events_into_changes,
}

pub has_key-append :
    (k : Text) (xs ys : List Event) → has_key k (xs ++ ys) ≡ has_key k xs || has_key k ys
has_key-append k [] ys = refl
has_key-append k (x ∷ xs) ys = ground (arith, has_key-append k xs ys)

-- an event is kept or left out with all the events of its key
pub has_key-without :
    (k : Text) (others events : List Event)
    → has_key k (without others events) ≡ has_key k events && not (has_key k others)
has_key-without k others [] = refl
has_key-without k others (e ∷ events) = elim (Bool-cases (text_eq (event_key e) k)) [
  | inl same ↦
      let key : event_key e ≡ k = text_eq_sound (event_key e) k same in
      let kept : has_key (event_key e) others ≡ has_key k others = ap (λ x. has_key x others) key in
      let rest = has_key-without k others events in ground arith
  | inr other ↦ let rest = has_key-without k others events in ground arith
]

-- An event's key is among the added ones exactly if the new schedule has it and the old one has
-- not, and among the removed ones exactly if the old schedule has it and the new one has not.
pub compute_changes_lem :
    (k : Text) (old_events new_events : List Event)
    → (has_key k (compute_changes old_events new_events).added
        ≡ has_key k new_events && not (has_key k old_events))
      × (has_key k (compute_changes old_events new_events).removed
          ≡ has_key k old_events && not (has_key k new_events))
unfolding compute_changes
compute_changes_lem k old_events new_events =
    (has_key-without k old_events new_events, has_key-without k new_events old_events)

-- Merging tomorrow's events into the changes makes the added keys those that were added and
-- those of tomorrow's events, and leaves the removed events alone.
pub merge_tomorrow_events_into_changes_lem :
    (k : Text) (changes : Changes) (events : List Event) (date : Text)
    → (has_key k (merge_tomorrow_events_into_changes changes events date).added
        ≡ has_key k changes.added || has_key k (filter_events_for_date events date))
      × ((merge_tomorrow_events_into_changes changes events date).removed ≡ changes.removed)
unfolding merge_tomorrow_events_into_changes
merge_tomorrow_events_into_changes_lem k changes events date =
    let tomorrow = filter_events_for_date events date in
    let appended = has_key-append k changes.added (without changes.added tomorrow) in
    let merged = has_key-without k changes.added tomorrow in (ground arith, refl)
