-- ===== src/ScheduleDb.antt =====
-- bot/db/queries/schedule.py: the three tables of the schedule checker and the statements on
-- them. A pair is a region with a queue. A text of JSON is kept as the value that was dumped;
-- None stands for one that json.loads refuses. Times are seconds.
pub mod Rows
use voltyk_bot_v3_python.Prelude.{
  ℕ, ◌+◌, ◌*◌, ◌≡◌, Bool, true, false, not, ◌&&◌, Option, none, some, List, [], ◌∷◌, ◌++◌, map, ltb,
  leb, if◌then◌else◌, select, any, is_some,
}
use voltyk_bot_v3_python.Prelude.Text.{Text, text_eq}

-- a region and a queue
pub record Pair : Type 0 where
  pub region : Text
  pub queue : Text

-- `region == :region AND queue == :queue`
abbrev pub pair_eq : Pair → Pair → Bool
pair_eq p q = text_eq p.region q.region && text_eq p.queue q.queue

-- a row of schedule_checks
pub record CheckRow : Type 0 where
  pub pair : Pair
  pub last_hash : Option Text
  pub last_checked_at : ℕ

-- A row of schedule_daily_snapshots; `A` is what is dumped into `schedule_data`.
pub record Snapshot (A : Type 0) : Type 0 where
  pub pair : Pair
  pub date : Text
  pub schedule_data : Option A
  pub today_hash : Option Text
  pub tomorrow_hash : Option Text

-- A row of pending_notifications; `U` and `C` are what is dumped into the other two columns.
pub record Pending (A U C : Type 0) : Type 0 where
  pub pair : Pair
  pub schedule_data : Option A
  pub update_type : U
  pub changes : Option C
  pub is_pending : Bool
  pub created_at : ℕ

pub record Tables (A U C : Type 0) : Type 0 where
  pub checks : List CheckRow
  pub snapshots : List (Snapshot A)
  pub notifications : List (Pending A U C)

-- the first row that a SELECT finds
abbrev pub find {ℓ} : {R : Type ℓ} → (R → Bool) → List R → Option R
find p [] = none
find p (r ∷ rs) = if p r then some r else find p rs

-- `INSERT ... ON CONFLICT DO UPDATE`: the row of this key is replaced by `change`, or `new` added
abbrev pub upsert {ℓ} : {R : Type ℓ} → (R → Bool) → (R → R) → R → List R → List R
upsert p change new [] = new ∷ []
upsert p change new (r ∷ rs) = if p r then change r ∷ rs else r ∷ upsert p change new rs

-- `set_cols`: a last_hash of None leaves the column alone
abbrev pub touched : ℕ → Option Text → CheckRow → CheckRow
touched now none row = record row { last_checked_at = now }
touched now (some h) row = record row { last_checked_at = now; last_hash = some h }

-- the newer of two rows; of two of one moment the one added later, where SQL leaves it open
abbrev pub newer {ℓ} : {R : Type ℓ} → (R → ℕ) → Option R → R → R
newer time none row = row
newer time (some best) row = if leb (time best) (time row) then row else best

-- `ORDER BY created_at DESC LIMIT 1`
abbrev pub latest {ℓ} : {R : Type ℓ} → (R → ℕ) → Option R → List R → Option R
latest time best [] = best
latest time best (row ∷ rows) = latest time (some (newer time best row)) rows

-- `region == :region AND queue == :queue AND date == :date`
abbrev pub is_day : {A : Type 0} → Pair → Text → Snapshot A → Bool
is_day p date s = pair_eq s.pair p && text_eq s.date date

module _ {A U C : Type 0} where
  unfoldable pub get_schedule_hash : Pair → Tables A U C → Option Text
  get_schedule_hash p t = elim (find (λ r. pair_eq r.pair p) t.checks) [
    | none ↦ none
    | some row ↦ row.last_hash
  ]

  -- `get_schedule_check_time`, which falls back to `time.time()`
  unfoldable pub get_schedule_check_time : ℕ → Pair → Tables A U C → ℕ
  get_schedule_check_time now p t = elim (find (λ r. pair_eq r.pair p) t.checks) [
    | none ↦ now
    | some row ↦ row.last_checked_at
  ]

  unfoldable pub update_schedule_check_time : ℕ → Pair → Option Text → Tables A U C → Tables A U C
  update_schedule_check_time now p last_hash t = record t {
    checks =
        upsert (λ r. pair_eq r.pair p) (touched now last_hash)
          (record { pair = p; last_hash = last_hash; last_checked_at = now }) t.checks;
  }

  unfoldable pub get_daily_snapshot : Pair → Text → Tables A U C → Option (Snapshot A)
  get_daily_snapshot p date t = find (is_day p date) t.snapshots

  unfoldable pub upsert_daily_snapshot : Snapshot A → Tables A U C → Tables A U C
  upsert_daily_snapshot s t = record t {
    snapshots = upsert (is_day s.pair s.date) (λ r. s) s t.snapshots;
  }

  unfoldable pub save_pending_notification : Pending A U C → Tables A U C → Tables A U C
  save_pending_notification n t = record t { notifications = t.notifications ++ (n ∷ []) }

  abbrev pub is_pending_of : Pair → Pending A U C → Bool
  is_pending_of p n = pair_eq n.pair p && n.is_pending

  unfoldable pub get_latest_pending_notification : Pair → Tables A U C → Option (Pending A U C)
  get_latest_pending_notification p t =
      latest (λ n. n.created_at) none (select (is_pending_of p) t.notifications)

  -- `(region, queue) in pending_set`, for the result of `get_all_pending_region_queue_pairs`
  unfoldable pub has_pending : Pair → Tables A U C → Bool
  has_pending p t = any (is_pending_of p) t.notifications

  unfoldable pub mark_pending_notifications_sent : Pair → Tables A U C → Tables A U C
  mark_pending_notifications_sent p t = record t {
    notifications =
        map (λ n. if is_pending_of p n then record n { is_pending = false } else n) t.notifications;
  }

  -- `cutoff = now - older_than_hours`, written as a sum
  unfoldable pub delete_old_pending_notifications : ℕ → ℕ → Tables A U C → Tables A U C
  delete_old_pending_notifications now older_than_hours t = record t {
    notifications = select (λ n. leb now (n.created_at + older_than_hours * 3600)) t.notifications;
  }
