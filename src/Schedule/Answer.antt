-- ===== src/Schedule/Answer.antt =====
-- What `find_next_event` answers, against the outages themselves.
use voltyk_bot_v3_python.Prelude.{
  ℕ, ◌-◌, ◌/◌, ◌≤◌, ◌<◌, ◌≡◌, refl, sym, ◌∙◌, Bool, true, false, not, Option, none, some, List, [],
  ◌∷◌, ltb, ltb→lt, le→leb, lt→ltb, lt→not-leb, le→not-ltb, arith, Bool-cases, inl, inr, is_empty,
}
use voltyk_bot_v3_python.Prelude.Int.{pos}
use voltyk_bot_v3_python.Schedule.{
  Event, NextEvent, power_on, power_off, ScheduleData, extend_end, minutes_until, find_event,
  find_next_event,
}
use voltyk_bot_v3_python.Schedule.Upcoming.{
  IsTimeline, is_out, final_end, out_until, not_out_at, end-le-final_end, out_after, out_before,
  out_during, IsTimeline-tail, IsTimeline-head,
}

module _ (instant : ℕ → ℕ) where
  -- None: no outage from now on. "power_off": none until `time`, and one then. "power_on": an
  -- outage now, since `start_time` at least, that lasts until `time` and not longer. The minutes are the
  -- whole ones until `time`.
  abbrev pub Tells : ℕ → List Event → Option NextEvent → Type 0
  Tells now es none = (t : ℕ) → now ≤ t → is_out instant es t ≡ false
  Tells now es (some (power_off time end_time minutes is_possible)) =
      (now < instant time)
      × ((t : ℕ) → now ≤ t → t < instant time → is_out instant es t ≡ false)
      × (is_out instant es (instant time) ≡ true)
      × (minutes ≡ pos ((instant time - now) / 60_000_000))
  Tells now es (some (power_on time start_time minutes is_possible)) =
      (instant start_time ≤ now)
      × (now < instant time)
      × ((t : ℕ) → now ≤ t → t < instant time → is_out instant es t ≡ true)
      × (is_out instant es (instant time) ≡ false)
      × (minutes ≡ pos ((instant time - now) / 60_000_000))

  minutes_ahead : (now t : ℕ) → now < t → minutes_until instant now t ≡ pos ((t - now) / 60_000_000)
  minutes_ahead now t h = rw (le→leb now t (omega arith))

  -- an event that is over changes no answer
  Tells-over :
      (now : ℕ) (e : Event) (es : List Event) (r : Option NextEvent)
      → instant e.end ≤ now
      → Tells now es r
      → Tells now (e ∷ es) r
  Tells-over now e es none h a = λ t k. out_after instant e es t (omega arith) ∙ a t k
  Tells-over now e es (some (power_off time end_time minutes is_possible)) h a = (
    a.0,
    (λ t k l. out_after instant e es t (omega arith) ∙ a.1 t k l),
    out_after instant e es (instant time) (omega arith) ∙ a.2,
    a.3,
  )
  Tells-over now e es (some (power_on time start_time minutes is_possible)) h a = (
    a.0,
    a.1,
    (λ t k l. out_after instant e es t (omega arith) ∙ a.2 t k l),
    out_after instant e es (instant time) (omega arith) ∙ a.3,
    a.4,
  )

  find-now :
      (now : ℕ) (e : Event) (es : List Event)
      → instant e.start ≤ now
      → now < instant e.end
      → (is_possible : Bool) × (find_event instant now (e ∷ es)
          ≡ some (
              power_on
                (final_end instant e es e.is_possible)
                e.start
                (minutes_until instant now (instant (final_end instant e es e.is_possible)))
                is_possible))
  unfolding find_event final_end
  find-now now e es h k =
      ((extend_end instant e.end e.is_possible es).1, rw (le→leb _ _ h, lt→ltb _ _ k, find_event))

  find-later :
      (now : ℕ) (e : Event) (es : List Event)
      → now < instant e.start
      → find_event instant now (e ∷ es)
        ≡ some (power_off e.start e.end (minutes_until instant now (instant e.start)) e.is_possible)
  unfolding find_event
  find-later now e es h = rw (lt→not-leb _ _ h, lt→ltb _ _ h, find_event)

  find-over :
      (now : ℕ) (e : Event) (es : List Event)
      → instant e.start ≤ now
      → instant e.end ≤ now
      → find_event instant now (e ∷ es) ≡ find_event instant now es
  unfolding find_event
  find-over now e es h k = rw (le→leb _ _ h, le→not-ltb _ _ k, le→not-ltb _ _ h, find_event)

  Tells-now :
      (now : ℕ) (e : Event) (es : List Event)
      → IsTimeline instant (e ∷ es)
      → instant e.start ≤ now
      → now < instant e.end
      → Tells now (e ∷ es) (find_event instant now (e ∷ es))
  Tells-now now e es v h k =
      let (is_possible, found) = find-now now e es h k in
      let later : now < instant (final_end instant e es e.is_possible) =
        omega (arith, end-le-final_end instant e es e.is_possible v) in
      rw found (
        h,
        later,
        (λ t p q. out_until instant e es e.is_possible t v (omega arith) q),
        not_out_at instant e es e.is_possible v,
        minutes_ahead now _ later,
      )

  Tells-later :
      (now : ℕ) (e : Event) (es : List Event)
      → IsTimeline instant (e ∷ es)
      → now < instant e.start
      → Tells now (e ∷ es) (find_event instant now (e ∷ es))
  Tells-later now e es v k = rw (find-later now e es k) (
    k,
    (λ t p q. out_before instant e es t v q),
    out_during instant e es (instant e.start) (omega arith) (IsTimeline-head instant e es v),
    minutes_ahead now _ k,
  )

  find_event-Tells :
      (now : ℕ) (es : List Event) → IsTimeline instant es → Tells now es (find_event instant now es)
  unfolding find_event
  find_event-Tells now [] v = λ t h. refl
  find_event-Tells now (e ∷ es) v = elim (Bool-cases (ltb now (instant e.start))) [
    | inl later ↦ Tells-later now e es v (ltb→lt _ _ later)
    | inr begun ↦ elim (Bool-cases (ltb now (instant e.end))) [
      | inl on ↦ Tells-now now e es v (ground arith) (ltb→lt _ _ on)
      | inr over ↦ rw (find-over now e es (ground arith) (ground arith)) (
          Tells-over now e es (find_event instant now es) (ground arith)
            (find_event-Tells now es (IsTimeline-tail instant e es v)))
    ]
  ]

  nothing_out :
      (es : List Event) → not (is_empty es) ≡ false → (t : ℕ) → is_out instant es t ≡ false
  nothing_out [] h = λ t. refl
  nothing_out (e ∷ es) h = cc

  -- The answer is right at any time for events in order, of which by the instants of their times
  -- none is empty and no two overlap, if the flag `has_data` is set exactly where there are
  -- events: None where no outage is on or to come, and else the next moment at which one begins
  -- or, if one is on, at which there is none, with the whole minutes until then.
  pub find_next_event-Tells :
      (now : ℕ) (schedule_data : ScheduleData)
      → schedule_data.has_data ≡ not (is_empty schedule_data.events)
      → IsTimeline instant schedule_data.events
      → Tells now schedule_data.events (find_next_event instant now schedule_data)
  unfolding find_next_event
  find_next_event-Tells now schedule_data h v = elim (Bool-cases schedule_data.has_data) [
    | inl full ↦ rw (full, find_next_event) (find_event-Tells now schedule_data.events v)
    | inr none' ↦
        rw (none', find_next_event) (λ t k. nothing_out schedule_data.events (sym h ∙ none') t)
  ]
