-- ===== src/Schedule/Parse.antt =====
-- What `parse_schedule_for_queue` returns.
use voltyk_bot_v3_python.Prelude.{
  ℕ, ◌≡◌, refl, sym, ap, false, not, Option, none, some, List, [], ◌∷◌, ◌++◌, arith, is_empty,
}
use voltyk_bot_v3_python.Prelude.Int.{ℤ}
use voltyk_bot_v3_python.Prelude.Sort.{insert_by, sort_by, IsSorted, sort_by-IsSorted}
use voltyk_bot_v3_python.Prelude.Text.{Text, codes}
use voltyk_bot_v3_python.Json.{Json, Fields, full_dict, field_of, keys_of}
use voltyk_bot_v3_python.Schedule.{
  Event, ScheduleData, no_schedule, int_keys, sort_ints, collect_events, schedule_of,
  parse_fact_data, parse_schedule_for_queue,
}

is_empty-sort_by : (es : List Event) → is_empty (sort_by (λ (e : Event). e.start) es) ≡ is_empty es
is_empty-sort_by [] = refl
is_empty-sort_by (e ∷ es) = not_empty (sort_by (λ (e : Event). e.start) es)
  where
    not_empty : (fs : List Event) → is_empty (insert_by (λ (e : Event). e.start) e fs) ≡ false
    not_empty [] = refl
    not_empty (f ∷ fs) = ground arith

-- The events are in order of their starts, and the flag tells whether there are any.
abbrev pub IsOrdered : ScheduleData → Type 0
IsOrdered d = (d.has_data ≡ not (is_empty d.events)) × IsSorted (λ (e : Event). e.start) d.events

abbrev pub Returns : (ScheduleData → Type 0) → Option ScheduleData → Type 0
Returns P none = Unit
Returns P (some d) = P d

-- Invariants of a chain of steps that may raise, and of one that falls back.
Returns-chain :
    {A : Type 0} (P : ScheduleData → Type 0) (o : Option A) (f : A → Option ScheduleData)
    → ((a : A) → Returns P (f a))
    → Returns P (elim o [ none ↦ none | some a ↦ f a ])
Returns-chain P none f h = tt
Returns-chain P (some a) f h = h a

Returns-or :
    {A : Type 0} (P : ScheduleData → Type 0) (d : ScheduleData) (o : Option A)
    (f : A → Option ScheduleData)
    → P d
    → ((a : A) → Returns P (f a))
    → Returns P (elim o [ none ↦ some d | some a ↦ f a ])
Returns-or P d none f p h = p
Returns-or P d (some a) f p h = h a

module _ (local_day : ℤ → ℕ) where
  no_schedule-IsOrdered : (queue : Text) → IsOrdered (no_schedule local_day queue)
  no_schedule-IsOrdered queue = (refl, tt)

  schedule_of-IsOrdered :
      (queue : Text) (es : List Event) → IsOrdered (schedule_of local_day queue es)
  schedule_of-IsOrdered queue es =
      (ap not (sym (is_empty-sort_by es)), sort_by-IsSorted (λ (e : Event). e.start) es)

  parse_fact_data-IsOrdered :
      (queue : Text) (fact_data : Fields)
      → Returns IsOrdered (parse_fact_data local_day queue fact_data)
  parse_fact_data-IsOrdered queue fact_data =
      Returns-chain IsOrdered (int_keys (keys_of fact_data)) _ λ timestamps.
        Returns-chain IsOrdered
          (collect_events local_day fact_data (codes "GPV" ++ queue) (sort_ints timestamps)) _
          λ events. schedule_of-IsOrdered queue events

  -- Whatever the payload, if no exception is raised the events are in order of their starts, and
  -- `hasData` is set exactly when there are any.
  pub parse_schedule_for_queue-IsOrdered :
      (raw_data : Json) (queue : Text)
      → Returns IsOrdered (parse_schedule_for_queue local_day raw_data queue)
  unfolding parse_schedule_for_queue
  parse_schedule_for_queue-IsOrdered raw_data queue =
      let empty = no_schedule local_day queue in
      let ordered = no_schedule-IsOrdered queue in
      Returns-or IsOrdered empty (full_dict raw_data) _ ordered λ raw.
        Returns-or IsOrdered empty (full_dict (field_of (codes "fact") raw)) _ ordered λ fact.
          Returns-or IsOrdered empty (full_dict (field_of (codes "data") fact)) _ ordered
            λ fact_data. parse_fact_data-IsOrdered queue fact_data
