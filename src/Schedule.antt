-- ===== src/Schedule.antt =====
-- bot/services/api.py, lines 625 to 850: the outage schedule of a queue, and the event that comes
-- next. Hours are counted in halves, so that the source's 13.5 is 27: the floats that occur are
-- exact. A moment on the Kyiv wall clock is a number of minutes; the time zone database enters as
-- `local_day` (the day of a Unix time on that clock) and `instant` (the moment, in microseconds,
-- of a wall clock reading). An ISO text is the reading that it shows: texts of that form sort as
-- the readings do. An exception is `none`. `dtek_updated_at` is left out.
pub mod Periods
pub mod Coverage
pub mod Hours
pub mod Upcoming
pub mod Answer
pub mod Parse
mod Tests
use voltyk_bot_v3_python.Prelude.{
  ℕ, zero, suc, ◌+◌, ◌-◌, ◌*◌, ◌/◌, ◌%◌, Bool, true, false, not, ◌&&◌, ◌||◌, Option, none, some,
  List, [], ◌∷◌, ◌++◌, map, ltb, leb, ◌==◌, if◌then◌else◌, is_empty, any, take,
}
use voltyk_bot_v3_python.Prelude.Int.{ℤ, pos, negsuc, negate, leb_ℤ}
use voltyk_bot_v3_python.Prelude.Sort.{sort_by}
use voltyk_bot_v3_python.Prelude.Text.{Text, codes, decimal, py_int, py_str}
use voltyk_bot_v3_python.Json.{
  Json, null, Fields, obj, field_of, field_or, keys_of, done, truthy, full_dict, is_text,
}

-- {"start": ..., "end": ...} in half hours
pub record Period : Type 0 where
  pub start : ℕ
  pub end : ℕ

-- `_add_or_extend`, on the list from its front
pub add_or_extend : List Period → ℕ → ℕ → List Period
add_or_extend [] start end = record { start = start; end = end } ∷ []
add_or_extend (p ∷ []) start end =
    if p.end == start
    then record p { end = end } ∷ []
    else p ∷ record { start = start; end = end } ∷ []
add_or_extend (p ∷ q ∷ ps) start end = p ∷ add_or_extend (q ∷ ps) start end

-- the loop of `_merge_consecutive`, which makes the same test on `merged[-1]`
pub merge_into : List Period → List Period → List Period
unfolding add_or_extend
merge_into merged [] = merged
merge_into merged (p ∷ ps) = merge_into (add_or_extend merged p.start p.end) ps

pub merge_consecutive : List Period → List Period
unfolding merge_into
merge_consecutive ps = merge_into [] ps

-- `value in (a, b, c)`
abbrev pub one_of : List Text → Json → Bool
one_of texts value = any (λ t. is_text t value) texts

-- `_add_outage_period`: hour 14 is from 13:00 to 14:00
pub add_outage_period : List Period → ℕ → Json → List Period
unfolding add_or_extend
add_outage_period periods hour value =
    if one_of (codes "no" ∷ codes "maybe" ∷ []) value
    then add_or_extend periods (2 * (hour - 1)) (2 * hour)
    else if one_of (codes "first" ∷ codes "mfirst" ∷ []) value
    then add_or_extend periods (2 * (hour - 1)) (2 * hour - 1)
    else if one_of (codes "second" ∷ codes "msecond" ∷ []) value
    then add_or_extend periods (2 * hour - 1) (2 * hour)
    else periods

abbrev pub planned_values : List Text
planned_values = codes "no" ∷ codes "first" ∷ codes "second" ∷ []

abbrev pub possible_values : List Text
possible_values = codes "maybe" ∷ codes "mfirst" ∷ codes "msecond" ∷ []

-- `hourly_data.get(str(hour)) or hourly_data.get(hour)`: no key of a JSON object is a number, and
-- a value that counts as false gives None
abbrev pub hour_value : Fields → ℕ → Json
hour_value hourly hour =
    let value = field_of (decimal hour) hourly in if truthy value then value else null

-- the body of the loop of `_parse_hourly_schedule`, on `planned` and `possible`; None is in neither
-- tuple of values
pub value_step : Json → ℕ → List Period × List Period → List Period × List Period
unfolding add_outage_period
value_step value hour (planned, possible) =
    if one_of planned_values value
    then (add_outage_period planned hour value, possible)
    else if one_of possible_values value
    then (planned, add_outage_period possible hour value)
    else (planned, possible)

-- `for hour in range(hour, hour + rounds)`
pub hours_from : ℕ → ℕ → Fields → List Period × List Period → List Period × List Period
unfolding value_step decimal
hours_from zero hour hourly acc = acc
hours_from (suc rounds) hour hourly acc =
    hours_from rounds (hour + 1) hourly (value_step (hour_value hourly hour) hour acc)

pub parse_hourly_schedule : Fields → List Period × List Period
parse_hourly_schedule hourly =
    let (planned, possible) = hours_from 24 1 hourly ([], []) in
    (merge_consecutive planned, merge_consecutive possible)

-- {"start": ..., "end": ..., "isPossible": ...} with wall clock minutes
pub record Event : Type 0 where
  pub start : ℕ
  pub end : ℕ
  pub is_possible : Bool

-- `_hour_to_datetime` for an hour counted in halves; `day` is the day of `base_date`
abbrev pub hour_to_datetime : ℕ → ℕ → ℕ
hour_to_datetime day half_hours = 1440 * day + 60 * (half_hours / 2) + 30 * (half_hours % 2)

abbrev pub to_event : ℕ → Bool → Period → Event
to_event day is_possible p = record {
  start = hour_to_datetime day p.start;
  end = hour_to_datetime day p.end;
  is_possible = is_possible;
}

-- the events of one day, as both blocks of `parse_schedule_for_queue` append them
pub day_events : ℕ → Fields → List Event
day_events day hourly =
    let (planned, possible) = parse_hourly_schedule hourly in
    map (to_event day false) planned ++ map (to_event day true) possible

pub record ScheduleData : Type 0 where
  pub has_data : Bool
  pub events : List Event
  pub queue : Text

-- The value under a queue's key of a day's table. A table that is no dict has no `get`.
abbrev pub queue_schedule : Json → Text → Option Json
queue_schedule (obj fs) queue_key = some (field_of queue_key fs)
queue_schedule _ queue_key = none

-- `sorted(int(ts) for ts in fact_data.keys())`
abbrev pub int_keys : List Text → Option (List ℤ)
int_keys [] = some []
int_keys (k ∷ ks) = elim (py_int k) [
  | none ↦ none
  | some n ↦ elim (int_keys ks) [ none ↦ none | some ns ↦ some (n ∷ ns) ]
]

abbrev insert_int : ℤ → List ℤ → List ℤ
insert_int n [] = n ∷ []
insert_int n (m ∷ ms) = if leb_ℤ n m then n ∷ m ∷ ms else m ∷ insert_int n ms

abbrev pub sort_ints : List ℤ → List ℤ
sort_ints [] = []
sort_ints (n ∷ ns) = insert_int n (sort_ints ns)

module _ (local_day : ℤ → ℕ) where
  -- `{"hasData": False, "events": [], "queue": queue}`
  abbrev pub no_schedule : Text → ScheduleData
  no_schedule queue = record { has_data = false; events = []; queue = queue }

  -- the block of one day: its events, or an exception where the data has another shape
  abbrev pub timestamp_events : Fields → Text → ℤ → Option (List Event)
  timestamp_events fact_data queue_key ts =
      elim (queue_schedule (field_or (py_str ts) fact_data (obj done)) queue_key) [
        | none ↦ none
        | some schedule ↦
            if truthy schedule
            then elim (full_dict schedule) [
              | none ↦ none
              | some hourly ↦ some (day_events (local_day ts) hourly)
            ]
            else some []
      ]

  -- `if tomorrow_ts:` holds for a second timestamp that is not zero
  abbrev pub tomorrow_events : Fields → Text → List ℤ → Option (List Event)
  tomorrow_events fact_data queue_key [] = some []
  tomorrow_events fact_data queue_key (pos zero ∷ _) = some []
  tomorrow_events fact_data queue_key (ts ∷ _) = timestamp_events fact_data queue_key ts

  -- the events before they are sorted, from the sorted timestamps
  abbrev pub collect_events : Fields → Text → List ℤ → Option (List Event)
  collect_events fact_data queue_key [] = some []
  collect_events fact_data queue_key (today_ts ∷ later) =
      elim (timestamp_events fact_data queue_key today_ts) [
        | none ↦ none
        | some today ↦ elim (tomorrow_events fact_data queue_key later) [
          | none ↦ none
          | some tomorrow ↦ some (today ++ tomorrow)
        ]
      ]

  abbrev pub schedule_of : Text → List Event → ScheduleData
  schedule_of queue events = record {
    has_data = not (is_empty events);
    events = sort_by (λ e. e.start) events;
    queue = queue;
  }

  abbrev pub parse_fact_data : Text → Fields → Option ScheduleData
  parse_fact_data queue fact_data = elim (int_keys (keys_of fact_data)) [
    | none ↦ none
    | some timestamps ↦
        elim (collect_events fact_data (codes "GPV" ++ queue) (sort_ints timestamps)) [
          | none ↦ none
          | some events ↦ some (schedule_of queue events)
        ]
  ]

  pub parse_schedule_for_queue : Json → Text → Option ScheduleData
  unfolding day_events
  parse_schedule_for_queue raw_data queue = elim (full_dict raw_data) [
    | none ↦ some (no_schedule queue)
    | some raw ↦ elim (full_dict (field_of (codes "fact") raw)) [
      | none ↦ some (no_schedule queue)
      | some fact ↦ elim (full_dict (field_of (codes "data") fact)) [
        | none ↦ some (no_schedule queue)
        | some fact_data ↦ parse_fact_data queue fact_data
      ]
    ]
  ]

-- What `find_next_event` returns besides None; `time`, `startTime` and `endTime` are texts there.
pub data NextEvent : Type 0 where
  power_on : (time start_time : ℕ) (minutes : ℤ) (is_possible : Bool) → NextEvent
  power_off : (time end_time : ℕ) (minutes : ℤ) (is_possible : Bool) → NextEvent

module _ (instant : ℕ → ℕ) where
  -- `int((t - now).total_seconds() / 60)`, which rounds towards zero
  abbrev pub minutes_until : ℕ → ℕ → ℤ
  minutes_until now t =
      if leb now t then pos ((t - now) / 60_000_000) else negate ((now - t) / 60_000_000)

  -- the `while` loop: `final_end` and the flags of the events that it passes
  pub extend_end : ℕ → Bool → List Event → ℕ × Bool
  extend_end final_end is_possible [] = (final_end, is_possible)
  extend_end final_end is_possible (e ∷ es) =
      let rest = extend_end e.end (is_possible || e.is_possible) es in
      if instant e.start == instant final_end then rest else (final_end, is_possible)

  -- the `for` loop
  pub find_event : ℕ → List Event → Option NextEvent
  unfolding extend_end
  find_event now [] = none
  find_event now (ev ∷ rest) =
      if leb (instant ev.start) now && ltb now (instant ev.end)
      then (let (final_end, is_possible) = extend_end ev.end ev.is_possible rest in
          some (power_on final_end ev.start (minutes_until now (instant final_end)) is_possible))
      else if ltb now (instant ev.start)
      then some (power_off ev.start ev.end (minutes_until now (instant ev.start)) ev.is_possible)
      else find_event now rest

  pub find_next_event : ℕ → ScheduleData → Option NextEvent
  unfolding find_event
  find_next_event now schedule_data =
      if not schedule_data.has_data then none else find_event now schedule_data.events
