-- ===== src/Scheduler/Overnight.antt =====
-- What a change at night becomes at 06:00.
use voltyk_bot_v3_python.Prelude.{
  ◌≡◌, ◌≤◌, refl, sym, subst, ap, ◌∙◌, Bool, true, false, ◌&&◌, ◌||◌, Option, none, some, List, [],
  ◌∷◌, arith, select, is_empty, if-either, if-then, if-else, select-last, any-last,
}
use voltyk_bot_v3_python.Prelude.Text.{Text}
use voltyk_bot_v3_python.ScheduleDb.{
  Pair, pair_eq, Pending, get_schedule_hash, get_latest_pending_notification,
  save_pending_notification, is_pending_of, has_pending, mark_pending_notifications_sent,
  update_schedule_check_time, upsert_daily_snapshot,
}
use voltyk_bot_v3_python.ScheduleDb.Rows.{pair_eq_refl, none_pending-mark, latest-append}
use voltyk_bot_v3_python.Scheduler.{Event, Changes}
use voltyk_bot_v3_python.Scheduler.Comparison.{Sched, UpdateType, no_changes, hash_eq}
use voltyk_bot_v3_python.Scheduler.Checks.{
  Moment, Notice, Effect, notified, chart_refreshed, power_notices_updated, Db, dumped_changes,
  loaded_changes, notice_of, queued, written, check_changed, check_single_queue, flush_notice,
  flush_pair,
}
use voltyk_bot_v3_python.Scheduler.Consistency.{notice_of-IsConsistent}
use voltyk_bot_v3_python.Scheduler.Silence.{IsKnown, known, written-IsKnown}

-- the changes survive the column that leaves out empty ones
empty_changes :
    (a r : List Event)
    → is_empty a && is_empty r ≡ true
    → no_changes ≡ record { added = a; removed = r }
empty_changes [] [] h = refl
empty_changes [] (y ∷ ys) h = cc
empty_changes (x ∷ xs) r h = cc

loaded-dumped : (c : Changes) → loaded_changes (dumped_changes c) ≡ c
loaded-dumped c =
    if-either (λ o. loaded_changes o ≡ c) (is_empty c.added && is_empty c.removed) none (some c)
      (λ e. empty_changes c.added c.removed e) (λ e. refl)

-- The rows that are pending for the pair were all added by now.
abbrev pub IsPast : Moment → Pair → Db → Type 0
IsPast m p t =
    (row : Pending Sched UpdateType Changes)
    → get_latest_pending_notification p t ≡ some row
    → row.created_at ≤ m.now

module _ (hash : List Event → Text) (m m' : Moment) (p : Pair) (sched : Sched)
    (fetched : Option Sched) (t : Db) where
  abbrev notice : Notice
  notice = notice_of hash m p sched t

  -- the tables after the queued row
  abbrev night : Db
  night = save_pending_notification (queued m notice) (written hash m p sched t)

  queued_mine :
      (n : Pending Sched UpdateType Changes)
      → n.pair ≡ p
      → n.is_pending ≡ true
      → is_pending_of p n ≡ true
  queued_mine n e live = ground (arith, ap (λ q. pair_eq q p) e, pair_eq_refl p)

  notice-pair : notice.pair ≡ p
  unfolding notice_of
  notice-pair = refl

  night-latest : IsPast m p t → get_latest_pending_notification p night ≡ some (queued m notice)
  unfolding get_latest_pending_notification save_pending_notification update_schedule_check_time
      upsert_daily_snapshot
  night-latest past =
      rw
        (select-last (is_pending_of p) t.notifications (queued m notice)
          (queued_mine (queued m notice) notice-pair refl))
        (latest-append (λ n. n.created_at) none (select (is_pending_of p) t.notifications)
          (queued m notice) past)

  night-pending : has_pending p night ≡ true
  unfolding has_pending save_pending_notification update_schedule_check_time upsert_daily_snapshot
  night-pending =
      any-last (is_pending_of p) t.notifications (queued m notice)
        (queued_mine (queued m notice) notice-pair refl)

  -- the row gives the notice back
  reloaded :
      record {
        pair = p;
        sched = notice.sched;
        update_type = notice.update_type;
        changes = loaded_changes (dumped_changes notice.changes);
        is_daily_planned = notice.update_type.initial || notice.update_type.daily_planned;
      }
      ≡ notice
  unfolding notice_of
  reloaded =
      let (_, _, planned) = notice_of-IsConsistent hash m p sched t in
      rw (loaded-dumped notice.changes) (rw planned refl)

  -- the flush, step by step
  night-flush :
      IsPast m p t
      → flush_pair hash m' (has_pending p night) p fetched night ≡ (
        written hash m' p notice.sched (mark_pending_notifications_sent p night),
        notified notice ∷ [],
      )
  unfolding flush_pair flush_notice
  night-flush past = rw night-pending (rw (night-latest past) (rw reloaded refl))

  night-changed :
      hash_eq (get_schedule_hash p t) (some (hash sched.events)) ≡ false
      → m.is_quiet ≡ true
      → check_single_queue hash m p (some sched) t ≡ (night, true, chart_refreshed p ∷ [])
  unfolding check_single_queue check_changed
  night-changed new quiet = if-else _ _ _ new ∙ if-then _ _ _ quiet

  flushed-none_pending :
      (s : Sched)
      → has_pending p (written hash m' p s (mark_pending_notifications_sent p night)) ≡ false
  unfolding update_schedule_check_time upsert_daily_snapshot has_pending
  flushed-none_pending s = none_pending-mark p night

  -- by day the notice goes out at once
  day-notice :
      (noon : Moment)
      → hash_eq (get_schedule_hash p t) (some (hash sched.events)) ≡ false
      → noon.is_quiet ≡ false
      → (check_single_queue hash noon p (some sched) t).2
        ≡ chart_refreshed p
          ∷ notified (notice_of hash noon p sched t)
          ∷ power_notices_updated p
          ∷ []
  unfolding check_single_queue check_changed
  day-notice noon new loud =
      ap (λ (x : Db × Bool × List Effect). x.2) (if-else _ _ _ new ∙ if-else _ _ _ loud)

  -- the 06:00 flush of the pair
  abbrev pub flush_of : Db → Db × List Effect
  flush_of x = flush_pair hash m' (has_pending p x) p fetched x

  abbrev pub morning : Db × List Effect
  morning = flush_of (check_single_queue hash m p (some sched) t).0

  -- A change that is found in quiet hours is told to nobody then. The flush after it, whatever it
  -- would fetch, sends to the pair one notice, the very one that the check would have sent
  -- outside quiet hours, after which no row of the pair is pending and the schedule is known. The
  -- rows that were pending for the pair must not be from the future.
  pub night-then-flush :
      hash_eq (get_schedule_hash p t) (some (hash sched.events)) ≡ false
      → m.is_quiet ≡ true
      → IsPast m p t
      → ((check_single_queue hash m p (some sched) t).2 ≡ chart_refreshed p ∷ [])
        × (morning.1 ≡ notified (notice_of hash m p sched t) ∷ [])
        × ((check_single_queue hash (record m { is_quiet = false }) p (some sched) t).2
            ≡ chart_refreshed p
              ∷ notified (notice_of hash m p sched t)
              ∷ power_notices_updated p
              ∷ [])
        × (has_pending p morning.0 ≡ false)
        × IsKnown hash p sched morning.0
  unfolding notice_of
  night-then-flush new quiet past =
      let all =
        ap flush_of (ap (λ (x : Db × Bool × List Effect). x.0) (night-changed new quiet))
        ∙ night-flush past in
      (
        ap (λ (x : Db × Bool × List Effect). x.2) (night-changed new quiet),
        ap (λ (x : Db × List Effect). x.1) all,
        day-notice (record m { is_quiet = false }) new refl,
        ap (λ (x : Db × List Effect). has_pending p x.0) all ∙ flushed-none_pending sched,
        subst (λ (x : Db × List Effect). IsKnown hash p sched x.0) (sym all)
            (known hash p sched _
              (written-IsKnown hash p sched m' (mark_pending_notifications_sent p night))),
      )
