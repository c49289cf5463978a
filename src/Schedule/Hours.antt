-- ===== src/Schedule/Hours.antt =====
-- The loop over the hours of `_parse_hourly_schedule`.
use voltyk_bot_v3_python.Prelude.{
  ℕ, zero, suc, ◌+◌, ◌-◌, ◌*◌, ◌/◌, ◌≤◌, ◌<◌, ◌≡◌, refl, ap, Bool, ◌&&◌, ◌||◌, List, [], ltb, leb,
  arith, Bool-cases, inl, inr,
}
use voltyk_bot_v3_python.Json.{Json, Fields}
use voltyk_bot_v3_python.Schedule.{
  Period, value_step, hour_value, hours_from, parse_hourly_schedule,
}
use voltyk_bot_v3_python.Schedule.Periods.{
  IsSpaced, IsSpaced-mono, covers, merge_consecutive-IsSpaced,
}
use voltyk_bot_v3_python.Schedule.Coverage.{
  planned_mark, possible_mark, in_hour, Stepped, Kind-of, value_step-Stepped,
}

module _ (hourly : Fields) where
  -- what the table says of the half hour `s`, where its hours are numbered from 1
  abbrev pub planned_at : ℕ → Bool
  planned_at s = planned_mark (hour_value hourly (s / 2 + 1)) s

  abbrev pub possible_at : ℕ → Bool
  possible_at s = possible_mark (hour_value hourly (s / 2 + 1)) s

  -- The periods for the half hours from `start`, before `stop`, beside those that were there.
  record Filled (start stop : ℕ) (pl po pl' po' : List Period) : Type 0 where
    planned :
        (s : ℕ) → covers pl' s ≡ (covers pl s || ((leb start s && ltb s stop) && planned_at s))
    possible :
        (s : ℕ) → covers po' s ≡ (covers po s || ((leb start s && ltb s stop) && possible_at s))
    planned_spaced : IsSpaced stop pl'
    possible_spaced : IsSpaced stop po'

  -- In an hour the value of the half hour is that of the hour.
  same_hour :
      (mark : Json → ℕ → Bool) (hour s : ℕ)
      → 1 ≤ hour
      → (in_hour hour s && mark (hour_value hourly hour) s)
        ≡ (in_hour hour s && mark (hour_value hourly (s / 2 + 1)) s)
  same_hour mark hour s h = elim (Bool-cases (in_hour hour s)) [
    | inl here ↦
        let e : hour ≡ s / 2 + 1 = ground arith in
        ap (λ (k : ℕ). in_hour hour s && mark (hour_value hourly k) s) e
    | inr there ↦ rw there refl
  ]

  join :
      (mark : Json → ℕ → Bool) (n hour s : ℕ) (before between after : Bool)
      → 1 ≤ hour
      → between ≡ (before || (in_hour hour s && mark (hour_value hourly hour) s))
      → after ≡ (
          between
          || ((leb (2 * (hour + 1 - 1)) s && ltb s (2 * (hour + 1 - 1 + n)))
              && mark (hour_value hourly (s / 2 + 1)) s))
      → after ≡ (
          before
          || ((leb (2 * (hour - 1)) s && ltb s (2 * (hour - 1 + suc n)))
              && mark (hour_value hourly (s / 2 + 1)) s))
  join mark n hour s before between after h p q = ground (arith, same_hour mark hour s h)

  join-Filled :
      (n hour : ℕ) (pl po pl' po' pl'' po'' : List Period)
      → 1 ≤ hour
      → Stepped hour (hour_value hourly hour) pl po pl' po'
      → Filled (2 * (hour + 1 - 1)) (2 * (hour + 1 - 1 + n)) pl' po' pl'' po''
      → Filled (2 * (hour - 1)) (2 * (hour - 1 + suc n)) pl po pl'' po''
  join-Filled n hour pl po pl' po' pl'' po'' h step rest = record {
    planned = λ s. join planned_mark n hour s _ _ _ h (step.planned s) (rest.planned s);
    possible = λ s. join possible_mark n hour s _ _ _ h (step.possible s) (rest.possible s);
    planned_spaced = IsSpaced-mono _ _ pl'' (omega arith) rest.planned_spaced;
    possible_spaced = IsSpaced-mono _ _ po'' (omega arith) rest.possible_spaced;
  }

  first_hour :
      (n hour : ℕ) (pl po : List Period)
      → 1 ≤ hour
      → IsSpaced (2 * (hour - 1)) pl
      → IsSpaced (2 * (hour - 1)) po
      → ((pl' po' : List Period)
          → 1 ≤ hour + 1
          → IsSpaced (2 * (hour + 1 - 1)) pl'
          → IsSpaced (2 * (hour + 1 - 1)) po'
          → let (pl'', po'') = hours_from n (hour + 1) hourly (pl', po') in
            Filled (2 * (hour + 1 - 1)) (2 * (hour + 1 - 1 + n)) pl' po' pl'' po'')
      → let (pl'', po'') =
          hours_from n (hour + 1) hourly (value_step (hour_value hourly hour) hour (pl, po)) in
        Filled (2 * (hour - 1)) (2 * (hour - 1 + suc n)) pl po pl'' po''
  first_hour n hour pl po h w u rest =
      let v = hour_value hourly hour in
      let (pl', po') = value_step v hour (pl, po) in
      let step = value_step-Stepped hour pl po h w u v (Kind-of v) in
      join-Filled n hour pl po pl' po' _ _ h step (
        rest pl' po' (omega arith) (IsSpaced-mono _ _ pl' (omega arith) step.planned_spaced)
          (IsSpaced-mono _ _ po' (omega arith) step.possible_spaced))

  hours_from-Filled :
      (n hour : ℕ) (pl po : List Period)
      → 1 ≤ hour
      → IsSpaced (2 * (hour - 1)) pl
      → IsSpaced (2 * (hour - 1)) po
      → let (pl', po') = hours_from n hour hourly (pl, po) in
        Filled (2 * (hour - 1)) (2 * (hour - 1 + n)) pl po pl' po'
  unfolding hours_from
  hours_from-Filled zero hour pl po h w u = record {
    planned = λ s. ground arith;
    possible = λ s. ground arith;
    planned_spaced = IsSpaced-mono _ _ pl (omega arith) w;
    possible_spaced = IsSpaced-mono _ _ po (omega arith) u;
  }
  hours_from-Filled (suc n) hour pl po h w u =
      first_hour n hour pl po h w u (hours_from-Filled n (hour + 1))

  day : let (pl, po) = hours_from 24 1 hourly ([], []) in Filled 0 48 [] [] pl po
  day = hours_from-Filled 24 1 [] [] (omega arith) tt tt

  -- The 24 hours of a table become periods in order, not empty, within the day and with a gap
  -- between any two, planned and possible ones each; the loop alone finds them, and
  -- `_merge_consecutive` changes nothing.
  pub parse_hourly_schedule-IsSpaced :
      let (planned, possible) = parse_hourly_schedule hourly in
      IsSpaced 48 planned
      × IsSpaced 48 possible
      × (parse_hourly_schedule hourly ≡ hours_from 24 1 hourly ([], []))
  unfolding parse_hourly_schedule
  parse_hourly_schedule-IsSpaced =
      let (pl, po) = hours_from 24 1 hourly ([], []) in
      let same = merge_consecutive-IsSpaced 48 pl day.planned_spaced in
      let same' = merge_consecutive-IsSpaced 48 po day.possible_spaced in
      (rw same day.planned_spaced, rw same' day.possible_spaced, λ i. (same i, same' i))

  -- A half hour of the day is in a planned period exactly when the value of its hour marks it as a
  -- planned outage, and in a possible period exactly when the value marks it as a possible one.
  pub parse_hourly_schedule-covers :
      (s : ℕ)
      → s < 48
      → let (planned, possible) = parse_hourly_schedule hourly in
        (covers planned s ≡ planned_at s) × (covers possible s ≡ possible_at s)
  parse_hourly_schedule-covers s h =
      rw (parse_hourly_schedule-IsSpaced.2)
        (ground (arith, day.planned s), ground (arith, day.possible s))
