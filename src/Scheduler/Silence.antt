-- ===== src/Scheduler/Silence.antt =====
-- A schedule is told once: checking it again is silent.
use voltyk_bot_v3_python.Prelude.{
  ◌≡◌, ◌∙◌, Bool, true, false, Option, none, some, List, [], arith, if-either,
}
use voltyk_bot_v3_python.Prelude.Text.{Text}
use voltyk_bot_v3_python.ScheduleDb.{
  Pair, Snapshot, get_schedule_hash, get_daily_snapshot, update_schedule_check_time,
}
use voltyk_bot_v3_python.ScheduleDb.Rows.{
  text_eq_refl, hash-update_self, hash-update_none, hash-upsert_snapshot, hash-save_pending,
  hash-mark_sent,
}
use voltyk_bot_v3_python.Scheduler.{Event}
use voltyk_bot_v3_python.Scheduler.Comparison.{Sched, hash_eq}
use voltyk_bot_v3_python.Scheduler.Checks.{
  Moment, Effect, Db, written, snapshot_of, notice_of, queued, check_unchanged, check_changed,
  check_single_queue,
}

module _ (hash : List Event → Text) (p : Pair) (sched : Sched) where
  -- the hash of this schedule is the one stored for the pair
  abbrev pub IsKnown : Db → Type 0
  IsKnown t = hash_eq (get_schedule_hash p t) (some (hash sched.events)) ≡ true

  pub written-IsKnown :
      (m : Moment) (t : Db)
      → get_schedule_hash p (written hash m p sched t) ≡ some (hash sched.events)
  written-IsKnown m t =
      hash-upsert_snapshot p (update_schedule_check_time m.now p (some (hash sched.events)) t)
        (snapshot_of hash m p sched)
      ∙ hash-update_self p t m.now (hash sched.events)

  pub known : (t : Db) → get_schedule_hash p t ≡ some (hash sched.events) → IsKnown t
  known t e = rw e (text_eq_refl (hash sched.events))

  check_unchanged-hash :
      (m : Moment) (o : Option (Snapshot Sched)) (t : Db)
      → get_schedule_hash p (check_unchanged hash m p sched o t) ≡ get_schedule_hash p t
  unfolding check_unchanged
  check_unchanged-hash m none t =
      hash-upsert_snapshot p (update_schedule_check_time m.now p none t)
        (snapshot_of hash m p sched)
      ∙ hash-update_none p t m.now
  check_unchanged-hash m (some s) t = hash-update_none p t m.now

  check_changed-hash :
      (m : Moment) (t : Db)
      → get_schedule_hash p (check_changed hash m p sched t).0 ≡ some (hash sched.events)
  unfolding check_changed
  check_changed-hash m t =
      if-either
        (λ (x : Db × Bool × List Effect). get_schedule_hash p x.0 ≡ some (hash sched.events))
        m.is_quiet _ _
        (λ e.
          hash-save_pending p (written hash m p sched t) (queued m (notice_of hash m p sched t))
          ∙ written-IsKnown m t)
        (λ e. hash-mark_sent p (written hash m p sched t) p ∙ written-IsKnown m t)

  check_single_queue-IsKnown :
      (m : Moment) (t : Db) → IsKnown (check_single_queue hash m p (some sched) t).0
  unfolding check_single_queue
  check_single_queue-IsKnown m t =
      if-either (λ (x : Db × Bool × List Effect). IsKnown x.0)
        (hash_eq (get_schedule_hash p t) (some (hash sched.events))) _ _
        (λ e. rw (check_unchanged-hash m (get_daily_snapshot p m.today t) t) e)
        (λ e. known _ (check_changed-hash m t))

  -- a check of a schedule that is known
  pub check_single_queue-known :
      (m : Moment) (t : Db)
      → IsKnown t
      → (check_single_queue hash m p (some sched) t).1 ≡ false
        × ((check_single_queue hash m p (some sched) t).2 ≡ [])
  unfolding check_single_queue
  check_single_queue-known m t e = ground arith

-- Whatever a check of a pair does, a check after it of a schedule of the same hash, at any moment
-- of any day, says that nothing has changed and sends nothing, and leaves the hash known.
pub check_single_queue-twice :
    (hash : List Event → Text) (p : Pair) (sched sched' : Sched) (m m' : Moment) (t : Db)
    → hash sched'.events ≡ hash sched.events
    → ((check_single_queue hash m' p (some sched') (check_single_queue hash m p (some sched) t).0).1
        ≡ false)
      × ((check_single_queue hash m' p
            (some sched')
            (check_single_queue hash m p (some sched) t).0).2
          ≡ [])
      × IsKnown hash p sched
          (check_single_queue hash m' p
            (some sched')
            (check_single_queue hash m p (some sched) t).0).0
check_single_queue-twice hash p sched sched' m m' t same =
    let t' = (check_single_queue hash m p (some sched) t).0 in
    let before : IsKnown hash p sched' t' = rw same (check_single_queue-IsKnown hash p sched m t) in
    let (unchanged, silent) = check_single_queue-known hash p sched' m' t' before in
    let after : IsKnown hash p sched (check_single_queue hash m' p (some sched') t').0 =
      rw (← same) (check_single_queue-IsKnown hash p sched' m' t') in
    (unchanged, silent, after)
