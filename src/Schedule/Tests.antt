-- ===== src/Schedule/Tests.antt =====
-- Runs of the schedule parser, and the theorems at a concrete table.
use voltyk_bot_v3_python.Prelude.{ℕ, ◌*◌, ◌/◌, ◌≡◌, refl, true, false, none, some, [], ◌∷◌, arith}
use voltyk_bot_v3_python.Prelude.Int.{ℤ, pos, negsuc}
use voltyk_bot_v3_python.Prelude.Text.{codes, decimal, py_int, py_str}
use voltyk_bot_v3_python.Json.{Json, num, str, obj, Fields, done, field}
use voltyk_bot_v3_python.Schedule.{
  hours_from, merge_consecutive, parse_hourly_schedule, day_events, ScheduleData,
  parse_schedule_for_queue, power_on, find_next_event,
}
use voltyk_bot_v3_python.Schedule.Periods.{covers}
use voltyk_bot_v3_python.Schedule.Hours.{planned_at, possible_at, parse_hourly_schedule-covers}
use voltyk_bot_v3_python.Schedule.Answer.{Tells, find_next_event-Tells}
use voltyk_bot_v3_python.Schedule.Parse.{Returns, IsOrdered, parse_schedule_for_queue-IsOrdered}

abbrev hourly : Fields
hourly = field (codes "1") (str (codes "yes")) (
    field (codes "10") (str (codes "second")) (
      field (codes "11") (str (codes "no")) (
        field (codes "12") (str (codes "first")) (
          field (codes "13") (str (codes "mfirst")) (field (codes "24") (str (codes "no")) done)))))

program : Unit {0}
unfolding decimal py_int py_str hours_from merge_consecutive parse_hourly_schedule day_events
    parse_schedule_for_queue find_next_event
program = tt

py_int-spaces : py_int (codes " -1_000\n") ≡ some (negsuc 999)
unfolding program
py_int-spaces = refl

decimal-digits : decimal 1700000000 ≡ codes "1700000000"
unfolding program
decimal-digits = refl

parse-hourly : parse_hourly_schedule hourly ≡ (
  record { start = 19; end = 23 } ∷ record { start = 46; end = 48 } ∷ [],
  record { start = 24; end = 25 } ∷ [],
)
unfolding program
parse-hourly = refl

-- two days from the payload, in seconds per day; the later one is listed first
abbrev raw : Json
raw = obj (
    field (codes "fact")
      (obj (
        field (codes "data")
          (obj (
            field (codes "86400")
              (obj (field (codes "GPV1.1") (obj (field (codes "1") (str (codes "no")) done)) done))
              (field (codes "0") (obj (field (codes "GPV1.1") (obj hourly) done)) done)))
          done))
      done)

abbrev local_day : ℤ → ℕ
local_day (pos n) = n / 86400
local_day (negsuc n) = 0

abbrev schedule : ScheduleData
schedule = record {
  has_data = true;
  events =
      record { start = 570; end = 690; is_possible = false }
      ∷ record { start = 720; end = 750; is_possible = true }
      ∷ record { start = 1380; end = 1440; is_possible = false }
      ∷ record { start = 1440; end = 1500; is_possible = false }
      ∷ [];
  queue = codes "1.1";
}

parse-raw : parse_schedule_for_queue local_day raw (codes "1.1") ≡ some schedule
unfolding program
parse-raw = refl

-- a day's table that is no dict raises
parse-list :
    parse_schedule_for_queue local_day
      (obj (
        field
          (codes "fact")
          (obj (field (codes "data") (obj (field (codes "0") (num (pos 1)) done)) done))
          done))
      (codes "1.1")
    ≡ none
unfolding program
parse-list = refl

-- minutes as microseconds
abbrev instant : ℕ → ℕ
instant t = 60_000_000 * t

find-midnight :
    find_next_event instant (instant 1400) schedule ≡ some (power_on 1500 1380 (pos 100) false)
unfolding program
find-midnight = refl

parse_hourly_schedule-covers_example :
    let (planned, possible) = parse_hourly_schedule hourly in
    (covers planned 19 ≡ planned_at hourly 19) × (covers possible 19 ≡ possible_at hourly 19)
parse_hourly_schedule-covers_example = parse_hourly_schedule-covers hourly 19 (omega arith)

parse_schedule_for_queue-IsOrdered_example :
    Returns IsOrdered (parse_schedule_for_queue local_day raw (codes "1.1"))
parse_schedule_for_queue-IsOrdered_example =
    parse_schedule_for_queue-IsOrdered local_day raw (codes "1.1")

find_next_event-Tells_example :
    Tells instant (instant 1400) schedule.events (find_next_event instant (instant 1400) schedule)
find_next_event-Tells_example =
    find_next_event-Tells instant (instant 1400) schedule refl (omega arith)
