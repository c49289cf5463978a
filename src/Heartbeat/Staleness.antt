-- ===== src/Heartbeat/Staleness.antt =====
-- When a task counts as stale.
use mathlib.Core.Logic.{ite}
use voltyk_bot_v3_python.Prelude.{
  ℕ, ◌+◌, ◌≡◌, refl, Bool, true, false, Option, none, some, List, [], ◌∷◌, ltb, select, arith,
}
use voltyk_bot_v3_python.Prelude.Dict
use voltyk_bot_v3_python.Prelude.Dict.{Dict}
use voltyk_bot_v3_python.Heartbeat.{
  Heartbeat, unset, given, effective, is_stale, register, beat, stale_tasks,
}

module _ {K : Type 0} (dec : Discrete K) where
  abbrev pub mentions : K → List K → Bool
  mentions k [] = false
  mentions k (j ∷ l) = ite (dec k j) true (mentions k l)

  -- the test of one task in the loop of `stale_tasks`
  abbrev pub late : ℕ → ℕ → Heartbeat K → K → Option ℕ → Bool
  late now t h k none = false
  late now t h k (some ts) = ltb (ts + effective (Dict.get dec k h.thresholds) t) now

  not_mentioned :
      (now t : ℕ) (h : Heartbeat K) (k : K) (d : Dict K ℕ)
      → Dict.get dec k d ≡ none
      → mentions k (Dict.keys (select (is_stale dec now t h) d)) ≡ false
  not_mentioned now t h k [] e = refl
  not_mentioned now t h k (x ∷ d) e = ground (arith, not_mentioned now t h k d)

  stale_from :
      (now t : ℕ) (h : Heartbeat K) (k : K) (d : Dict K ℕ)
      → Dict.IsDict dec d
      → mentions k (Dict.keys (select (is_stale dec now t h) d)) ≡ late now t h k (Dict.get dec k d)
  stale_from now t h k [] v = refl
  stale_from now t h k (x ∷ d) v =
      ground (arith, not_mentioned now t h k d, stale_from now t h k d v.1)

  -- A task is reported exactly when it has a heartbeat that is older than its threshold: its own
  -- one where that is set and not zero, the caller's otherwise.
  pub stale_tasks_lem :
      (now t : ℕ) (h : Heartbeat K) (k : K)
      → Dict.IsDict dec h.beats
      → mentions k (stale_tasks dec now t h) ≡ late now t h k (Dict.get dec k h.beats)
  unfolding stale_tasks
  stale_tasks_lem now t h k v = stale_from now t h k h.beats v

  -- After a beat the task stays unreported until its effective threshold has passed, and is
  -- reported from then on, and no other task is affected.
  pub stale_tasks-beat :
      (now later t : ℕ) (h : Heartbeat K) (k j : K)
      → Dict.IsDict dec h.beats
      → mentions j (stale_tasks dec later t (beat dec now k h))
        ≡ ite
            (dec j k)
            (ltb (now + effective (Dict.get dec k h.thresholds) t) later)
            (mentions j (stale_tasks dec later t h))
  unfolding beat
  stale_tasks-beat now later t h k j v = ground (
    arith,
    stale_tasks_lem later t (beat dec now k h) j (Dict.insert-IsDict dec k now h.beats v),
    stale_tasks_lem later t h j v,
    Dict.get-insert dec j k now h.beats,
  )

  -- Registering again without a threshold counts as a beat: it changes no task's threshold. With a
  -- threshold of zero the task falls back to the caller's, as with `None`.
  pub stale_tasks-register :
      (now later t : ℕ) (h : Heartbeat K) (k j : K)
      → Dict.IsDict dec h.beats
      → (mentions j (stale_tasks dec later t (register dec now k unset h))
          ≡ mentions j (stale_tasks dec later t (beat dec now k h)))
        × (mentions j (stale_tasks dec later t (register dec now k (given (some 0)) h))
            ≡ mentions j (stale_tasks dec later t (register dec now k (given none) h)))
  unfolding register beat
  stale_tasks-register now later t h k j v =
      let inserted = Dict.insert-IsDict dec k now h.beats v in
      (
        ground (
          arith,
          stale_tasks_lem later t (beat dec now k h) j inserted,
          stale_tasks_lem later t (register dec now k unset h) j inserted,
          Dict.get-insert dec j k none h.thresholds,
        ),
        ground (
          arith,
          stale_tasks_lem later t (register dec now k (given (some 0)) h) j inserted,
          stale_tasks_lem later t (register dec now k (given none) h) j inserted,
          Dict.get-insert dec j k none h.thresholds,
          Dict.get-insert dec j k (some 0) h.thresholds,
        ),
      )
