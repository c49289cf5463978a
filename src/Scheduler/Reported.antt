-- ===== src/Scheduler/Reported.antt =====
-- Which events the notice of a changed schedule lists, once the day has a snapshot.
use voltyk_bot_v3_python.Prelude.{
  ◌≡◌, refl, ap, ◌∙◌, Bool, false, not, ◌&&◌, ◌||◌, Option, some, List, [], ◌∷◌, ◌++◌, arith,
  Bool-cases, inl, inr,
}
use voltyk_bot_v3_python.Prelude.Text.{Text, text_eq, text_eq_sound}
use voltyk_bot_v3_python.ScheduleDb.{Snapshot}
use voltyk_bot_v3_python.Scheduler.{Event, event_key, has_key, Changes, filter_events_for_date}
use voltyk_bot_v3_python.Scheduler.Differences.{
  has_key-append, compute_changes_lem, merge_tomorrow_events_into_changes_lem,
}
use voltyk_bot_v3_python.Scheduler.Comparison.{
  Sched, hash_eq, day_changes, changes_since, Today, compare_today, add_new, tomorrow_compared,
  Tomorrow, same, appeared, updated, cancelled, tomorrow_move, later_in_day, compare_schedules,
}

has_key-add_new :
    (k : Text) (xs ys : List Event) → has_key k (add_new xs ys) ≡ has_key k xs || has_key k ys
has_key-add_new k xs [] = ground arith
has_key-add_new k xs (y ∷ ys) = elim (Bool-cases (has_key (event_key y) xs)) [
  | inl known ↦
      let rest = has_key-add_new k xs ys in
      rw known (elim (Bool-cases (text_eq (event_key y) k)) [
        | inl same' ↦
            let here = ap (λ x. has_key x xs) (text_eq_sound (event_key y) k same') in ground arith
        | inr other ↦ ground arith
      ])
  | inr new ↦
      let rest = has_key-add_new k (xs ++ (y ∷ [])) ys in
      let added = has_key-append k xs (y ∷ []) in rw new (ground arith)
]

-- Which keys of tomorrow's events a notice lists as added and as removed.
abbrev pub tomorrow_added : Tomorrow → Bool → Bool → Bool
tomorrow_added same old new = false
tomorrow_added appeared old new = new
tomorrow_added updated old new = new && not old
tomorrow_added cancelled old new = new && not old

abbrev pub tomorrow_removed : Tomorrow → Bool → Bool → Bool
tomorrow_removed same old new = false
tomorrow_removed appeared old new = false
tomorrow_removed updated old new = old && not new
tomorrow_removed cancelled old new = old && not new

module _ (k : Text) (snapshot : Snapshot Sched) (old : Sched) (events : List Event)
    (today tomorrow : Text) (th tmh : Option Text)
    (readable : snapshot.schedule_data ≡ some old) where
  -- whether a schedule has the key on a day
  abbrev pub has_on : List Event → Text → Bool
  has_on evs date = has_key k (filter_events_for_date evs date)

  abbrev pub today_moved : Bool
  today_moved = not (hash_eq snapshot.today_hash th)

  since :
      (date : Text)
      → (has_key k (changes_since snapshot.schedule_data events date).added
          ≡ has_on events date && not (has_on old.events date))
        × (has_key k (changes_since snapshot.schedule_data events date).removed
            ≡ has_on old.events date && not (has_on events date))
  unfolding changes_since
  since date =
      let (a, r) =
        compute_changes_lem k (filter_events_for_date old.events date)
          (filter_events_for_date events date) in
      (
        ap (λ o. has_key k (changes_since o events date).added) readable ∙ a,
        ap (λ o. has_key k (changes_since o events date).removed) readable ∙ r,
      )

  today_listed :
      (has_key k (compare_today snapshot events today th).changes.added
        ≡ today_moved && (has_on events today && not (has_on old.events today)))
      × (has_key k (compare_today snapshot events today th).changes.removed
          ≡ today_moved && (has_on old.events today && not (has_on events today)))
  unfolding compare_today
  today_listed =
      let (a, r) = since today in
      elim (Bool-cases (hash_eq snapshot.today_hash th)) [
        | inl e ↦ rw e (refl, refl)
        | inr e ↦ rw e (a, r)
      ]

  tomorrow_listed :
      (changes : Changes)
      → (has_key k (tomorrow_compared snapshot.schedule_data events tomorrow changes).added
          ≡ has_key k changes.added || (has_on events tomorrow && not (has_on old.events tomorrow)))
        × (has_key k (tomorrow_compared snapshot.schedule_data events tomorrow changes).removed
            ≡ has_key k changes.removed
              || (has_on old.events tomorrow && not (has_on events tomorrow)))
  unfolding tomorrow_compared
  tomorrow_listed changes =
      let day = day_changes old.events events tomorrow in
      let (a, r) =
        compute_changes_lem k (filter_events_for_date old.events tomorrow)
          (filter_events_for_date events tomorrow) in
      (
        ap (λ o. has_key k (tomorrow_compared o events tomorrow changes).added) readable
            ∙ has_key-add_new k changes.added day.added
            ∙ ap (λ b. has_key k changes.added || b) a,
        ap (λ o. has_key k (tomorrow_compared o events tomorrow changes).removed) readable
            ∙ has_key-append k changes.removed day.removed
            ∙ ap (λ b. has_key k changes.removed || b) r,
      )

  -- the same by how tomorrow has moved
  listed :
      (move : Tomorrow) (t : Today)
      → (has_key k (later_in_day move t snapshot events tomorrow).1.added
          ≡ has_key k t.changes.added
            || tomorrow_added move (has_on old.events tomorrow) (has_on events tomorrow))
        × (has_key k (later_in_day move t snapshot events tomorrow).1.removed
            ≡ has_key k t.changes.removed
              || tomorrow_removed move (has_on old.events tomorrow) (has_on events tomorrow))
  unfolding later_in_day
  listed same t = ground arith
  listed appeared t =
      let (a, r) = merge_tomorrow_events_into_changes_lem k t.changes events tomorrow in
      (a, ap (has_key k) r ∙ ground arith)
  listed updated t = tomorrow_listed t.changes
  listed cancelled t = tomorrow_listed t.changes

  -- Against a snapshot of today that can be read, an event's key is listed as added exactly if
  -- today's hash has moved and today has it newly, or tomorrow's has and tomorrow has it newly (at
  -- all, where tomorrow had no events); as removed exactly if today's hash has moved and today has
  -- lost it, or tomorrow's has and tomorrow has lost it.
  pub compare_schedules_listed :
      (yesterday : Option (Snapshot Sched))
      → (has_key k
            (compare_schedules (some snapshot) yesterday events today tomorrow th tmh).1.added
          ≡ today_moved && (has_on events today && not (has_on old.events today))
            || tomorrow_added
                (tomorrow_move snapshot.tomorrow_hash tmh)
                (has_on old.events tomorrow)
                (has_on events tomorrow))
        × (has_key k
              (compare_schedules (some snapshot) yesterday events today tomorrow th tmh).1.removed
            ≡ today_moved && (has_on old.events today && not (has_on events today))
              || tomorrow_removed
                  (tomorrow_move snapshot.tomorrow_hash tmh)
                  (has_on old.events tomorrow)
                  (has_on events tomorrow))
  unfolding compare_schedules
  compare_schedules_listed yesterday =
      let (a, r) =
        listed (tomorrow_move snapshot.tomorrow_hash tmh)
          (compare_today snapshot events today th) in
      let (a', r') = today_listed in (rw (← a') a, rw (← r') r)
