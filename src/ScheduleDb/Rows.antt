-- ===== src/ScheduleDb/Rows.antt =====
-- What the statements leave to one another.
use voltyk_bot_v3_python.Prelude.{
  ℕ, ◌≡◌, refl, ◌≤◌, ◌∙◌, Bool, true, false, Option, none, some, List, [], ◌∷◌, ◌++◌, map, arith,
  Bool-cases, inl, inr, any, if◌then◌else◌,
}
use voltyk_bot_v3_python.Prelude.Text.{Text, text_eq}
use voltyk_bot_v3_python.ScheduleDb.{
  Pair, pair_eq, CheckRow, Snapshot, Pending, Tables, find, upsert, touched, is_day,
  get_schedule_hash, update_schedule_check_time, get_daily_snapshot, upsert_daily_snapshot,
  is_pending_of, has_pending, save_pending_notification, mark_pending_notifications_sent, latest,
}

pub text_eq_refl : (s : Text) → text_eq s s ≡ true
text_eq_refl [] = refl
text_eq_refl (x ∷ xs) = ground (arith, text_eq_refl xs)

pub pair_eq_refl : (p : Pair) → pair_eq p p ≡ true
pair_eq_refl p = ground (arith, text_eq_refl p.region, text_eq_refl p.queue)

-- the row that an upsert leaves under its key
find-upsert :
    {R : Type 0} (p : R → Bool) (change : R → R) (new : R) (rows : List R)
    → ((r : R) → p r ≡ true → p (change r) ≡ true)
    → p new ≡ true
    → find p (upsert p change new rows)
      ≡ some (elim (find p rows) [ none ↦ new | some r ↦ change r ])
find-upsert p change new [] keep h = ground arith
find-upsert p change new (r ∷ rows) keep h = elim (Bool-cases (p r)) [
  | inl e ↦ ground (arith, keep r e)
  | inr e ↦ ground (arith, find-upsert p change new rows keep h)
]

module _ {A U C : Type 0} (p : Pair) (t : Tables A U C) where
  pub hash-update_self :
      (now : ℕ) (h : Text)
      → get_schedule_hash p (update_schedule_check_time now p (some h) t) ≡ some h
  unfolding get_schedule_hash update_schedule_check_time
  hash-update_self now h = ground (
    arith,
    find-upsert (λ (r : CheckRow). pair_eq r.pair p) (touched now (some h))
        (record { pair = p; last_hash = some h; last_checked_at = now }) t.checks (λ r e. e)
        (pair_eq_refl p),
  )

  pub snapshot-upsert_self :
      (s : Snapshot A) → get_daily_snapshot s.pair s.date (upsert_daily_snapshot s t) ≡ some s
  unfolding get_daily_snapshot upsert_daily_snapshot
  snapshot-upsert_self s =
      let at_key : is_day s.pair s.date s ≡ true =
        ground (arith, pair_eq_refl s.pair, text_eq_refl s.date) in
      find-upsert (is_day s.pair s.date) (λ r. s) s t.snapshots (λ r e. at_key) at_key
      ∙ ground arith

none_pending-marked :
    {A U C : Type 0} (p : Pair) (ns : List (Pending A U C))
    → any
        (is_pending_of p)
        (map (λ n. if is_pending_of p n then record n { is_pending = false } else n) ns)
      ≡ false
none_pending-marked p [] = refl
none_pending-marked p (n ∷ ns) = ground (arith, none_pending-marked p ns)

-- after the mark no row of the pair is pending
pub none_pending-mark :
    {A U C : Type 0} (p : Pair) (t : Tables A U C)
    → has_pending p (mark_pending_notifications_sent p t) ≡ false
unfolding has_pending mark_pending_notifications_sent
none_pending-mark p t = none_pending-marked p t.notifications

pub latest-append :
    {R : Type 0} (time : R → ℕ) (best : Option R) (rows : List R) (r : R)
    → ((s : R) → latest time best rows ≡ some s → time s ≤ time r)
    → latest time best (rows ++ (r ∷ [])) ≡ some r
latest-append time none [] r bounded = refl
latest-append time (some b) [] r bounded = ground (arith, bounded b refl)
latest-append time best (row ∷ rows) r bounded = latest-append time (some _) rows r bounded

module _ {A U C : Type 0} (p : Pair) (t : Tables A U C) where
  -- a check with no hash keeps the one that is stored
  pub hash-update_none :
      (now : ℕ)
      → get_schedule_hash p (update_schedule_check_time now p none t) ≡ get_schedule_hash p t
  unfolding get_schedule_hash update_schedule_check_time
  hash-update_none now = ground (
    arith,
    find-upsert (λ (r : CheckRow). pair_eq r.pair p) (touched now none)
        (record { pair = p; last_hash = none; last_checked_at = now }) t.checks (λ r e. e)
        (pair_eq_refl p),
  )

  -- the tables are apart
  pub hash-upsert_snapshot :
      (s : Snapshot A) → get_schedule_hash p (upsert_daily_snapshot s t) ≡ get_schedule_hash p t
  unfolding get_schedule_hash upsert_daily_snapshot
  hash-upsert_snapshot s = refl

  pub hash-save_pending :
      (n : Pending A U C)
      → get_schedule_hash p (save_pending_notification n t) ≡ get_schedule_hash p t
  unfolding get_schedule_hash save_pending_notification
  hash-save_pending n = refl

  pub hash-mark_sent :
      (q : Pair) → get_schedule_hash p (mark_pending_notifications_sent q t) ≡ get_schedule_hash p t
  unfolding get_schedule_hash mark_pending_notifications_sent
  hash-mark_sent q = refl
