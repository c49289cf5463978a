-- ===== src/Reminders/Once.antt =====
-- Which reminders a check sends, and that none is sent again.
use voltyk_bot_v3_python.Prelude.{
  ℕ, ◌≡◌, refl, sym, ap, ◌∙◌, Bool, true, false, ◌&&◌, ◌||◌, List, [], ◌∷◌, ◌++◌, arith, any,
  any-last, ◌==◌, if-either, Bool-cases, inl, inr, ==_iff,
}
use voltyk_bot_v3_python.Prelude.Text.{Text, text_eq, text_eq_sound}
use voltyk_bot_v3_python.ScheduleDb.Rows.{text_eq_refl}
use voltyk_bot_v3_python.Reminders.{
  ReminderType, before_1h, before_30m, before_15m, RemindedUser, SentReminder, type_eq, is_row_of,
  check_reminder_sent, mark_reminder_sent, user_types, Attempt, Check, attempts_for, all_attempts,
  mark_all, check_and_send_reminders,
}

-- a call for this user, event and type
abbrev pub is_attempt : ℕ → Text → ReminderType → Attempt → Bool
is_attempt tid anchor kind a =
    a.telegram_id == tid && text_eq a.anchor anchor && type_eq a.reminder_type kind

-- the checks of a pair, one after the other: their calls, and the rows after them
unfoldable pub run_checks : List Check → List SentReminder → List Attempt × List SentReminder
run_checks [] rows = ([], rows)
run_checks (c ∷ cs) rows =
    let (tried, rows') = check_and_send_reminders c rows in
    let (later, rows'') = run_checks cs rows' in (tried ++ later, rows'')

pub any-append {ℓ} :
    {A : Type ℓ} (p : A → Bool) (xs ys : List A) → any p (xs ++ ys) ≡ any p xs || any p ys
any-append p [] ys = refl
any-append p (x ∷ xs) ys = ground (arith, any-append p xs ys)

type_eq_sound : (k l : ReminderType) → type_eq k l ≡ true → k ≡ l
type_eq_sound before_1h before_1h h = refl
type_eq_sound before_1h before_30m h = cc
type_eq_sound before_1h before_15m h = cc
type_eq_sound before_30m before_1h h = cc
type_eq_sound before_30m before_30m h = refl
type_eq_sound before_30m before_15m h = cc
type_eq_sound before_15m before_1h h = cc
type_eq_sound before_15m before_30m h = cc
type_eq_sound before_15m before_15m h = refl

module _ (tid : ℕ) (anchor : Text) (kind : ReminderType) where
  -- rows that say that this reminder was sent
  abbrev pub IsRecorded : List SentReminder → Type 0
  IsRecorded rows = check_reminder_sent tid anchor kind rows ≡ true

  -- a call for a reminder stands for that reminder
  same-sent :
      (t : ℕ) (a : Text) (k : ReminderType) (rows : List SentReminder)
      → (t == tid && text_eq a anchor && type_eq k kind) ≡ true
      → check_reminder_sent t a k rows ≡ check_reminder_sent tid anchor kind rows
  same-sent t a k rows h =
      let st : t ≡ tid = (==_iff t tid).0 (ground arith) in
      let sa : a ≡ anchor = text_eq_sound a anchor (ground arith) in
      let sk : k ≡ kind = type_eq_sound k kind (ground arith) in
      ap (λ x. check_reminder_sent x a k rows) st
      ∙ ap (λ x. check_reminder_sent tid x k rows) sa
      ∙ ap (λ x. check_reminder_sent tid anchor x rows) sk

  -- what is recorded is not tried
  pub attempts_for-recorded :
      (c : Check) (rows : List SentReminder) (t : ℕ) (kinds : List ReminderType)
      → IsRecorded rows
      → any (is_attempt tid anchor kind) (attempts_for c rows t kinds) ≡ false
  attempts_for-recorded c rows t [] h = refl
  attempts_for-recorded c rows t (k ∷ kinds) h =
      let rest = attempts_for-recorded c rows t kinds h in
      elim (Bool-cases (t == tid && text_eq c.ahead.anchor anchor && type_eq k kind)) [
        | inl same ↦ let known = same-sent t c.ahead.anchor k rows same in ground (arith)
        | inr other ↦ ground (arith)
      ]

  pub all_attempts-recorded :
      (c : Check) (rows : List SentReminder) (users : List RemindedUser)
      → IsRecorded rows
      → any (is_attempt tid anchor kind) (all_attempts c rows users) ≡ false
  unfolding all_attempts
  all_attempts-recorded c rows [] h = refl
  all_attempts-recorded c rows (u ∷ users) h =
      let here = attempts_for-recorded c rows u.telegram_id (user_types c.ahead u) h in
      let rest = all_attempts-recorded c rows users h in
      any-append (is_attempt tid anchor kind)
        (attempts_for c rows u.telegram_id (user_types c.ahead u)) (all_attempts c rows users)
      ∙ rw (here, rest) refl

  -- which calls are made for one user, and for all
  pub attempts_for_lem :
      (c : Check) (rows : List SentReminder) (t : ℕ) (kinds : List ReminderType)
      → c.ahead.anchor ≡ anchor
      → check_reminder_sent tid anchor kind rows ≡ false
      → any (is_attempt tid anchor kind) (attempts_for c rows t kinds)
        ≡ (t == tid && any (λ k. type_eq k kind) kinds)
  attempts_for_lem c rows t [] about new = ground (arith)
  attempts_for_lem c rows t (k ∷ kinds) about new =
      let rest = attempts_for_lem c rows t kinds about new in
      let here : text_eq c.ahead.anchor anchor ≡ true =
        ap (λ x. text_eq x anchor) about ∙ text_eq_refl anchor in
      elim (Bool-cases (t == tid && text_eq c.ahead.anchor anchor && type_eq k kind)) [
        | inl same ↦ let known = same-sent t c.ahead.anchor k rows same in ground (arith)
        | inr other ↦ ground (arith)
      ]

  -- a mark stays, and a mark for this reminder records it
  mark-IsRecorded :
      (now t : ℕ) (a : Text) (k : ReminderType) (rows : List SentReminder)
      → IsRecorded rows
      → IsRecorded (mark_reminder_sent now t a k rows)
  unfolding mark_reminder_sent check_reminder_sent
  mark-IsRecorded now t a k rows h =
      let added =
        any-append (is_row_of tid anchor kind) rows
          (record { telegram_id = t; period_key = a; reminder_type = k; created_at = now } ∷ []) in
      if-either IsRecorded (check_reminder_sent t a k rows) rows _ (λ e. h) (λ e. added ∙ rw h refl)

  mark-records :
      (now t : ℕ) (a : Text) (k : ReminderType) (rows : List SentReminder)
      → (t == tid && text_eq a anchor && type_eq k kind) ≡ true
      → IsRecorded (mark_reminder_sent now t a k rows)
  unfolding mark_reminder_sent check_reminder_sent
  mark-records now t a k rows same =
      let row : SentReminder = record {
        telegram_id = t;
        period_key = a;
        reminder_type = k;
        created_at = now;
      } in
      if-either IsRecorded (check_reminder_sent t a k rows) rows (rows ++ (row ∷ []))
        (λ e. sym (same-sent t a k rows same) ∙ e)
        (λ e. any-last (is_row_of tid anchor kind) rows row same)

  pub mark_all-IsRecorded :
      (now : ℕ) (tried : List Attempt) (rows : List SentReminder)
      → IsRecorded rows
      → IsRecorded (mark_all now tried rows)
  unfolding mark_all
  mark_all-IsRecorded now [] rows h = h
  mark_all-IsRecorded now (a ∷ tried) rows h = mark_all-IsRecorded now tried _ (
      if-either IsRecorded a.is_sent
        (mark_reminder_sent now a.telegram_id a.anchor a.reminder_type rows) rows
        (λ e. mark-IsRecorded now a.telegram_id a.anchor a.reminder_type rows h) (λ e. h))

  pub mark_all-records :
      (now : ℕ) (tried : List Attempt) (rows : List SentReminder)
      → any (λ a. is_attempt tid anchor kind a && a.is_sent) tried ≡ true
      → IsRecorded (mark_all now tried rows)
  unfolding mark_all
  mark_all-records now [] rows h = cc
  mark_all-records now (a ∷ tried) rows h =
      elim (Bool-cases (is_attempt tid anchor kind a && a.is_sent)) [
        | inl this ↦
            let sent : a.is_sent ≡ true = ground arith in
            let same : is_attempt tid anchor kind a ≡ true = ground arith in
            mark_all-IsRecorded now tried _ (
              if-either IsRecorded a.is_sent
                (mark_reminder_sent now a.telegram_id a.anchor a.reminder_type rows) rows
                (λ e. mark-records now a.telegram_id a.anchor a.reminder_type rows same) (λ e. cc))
        | inr not_this ↦ mark_all-records now tried _ (ground arith)
      ]

  run_checks-recorded :
      (cs : List Check) (rows : List SentReminder)
      → IsRecorded rows
      → any (is_attempt tid anchor kind) (run_checks cs rows).0 ≡ false
  unfolding run_checks check_and_send_reminders
  run_checks-recorded [] rows h = refl
  run_checks-recorded (c ∷ cs) rows h =
      let tried = all_attempts c rows c.users in
      let later = run_checks cs (mark_all c.now tried rows) in
      any-append (is_attempt tid anchor kind) tried later.0
      ∙ rw
          (
            all_attempts-recorded c rows c.users h,
            run_checks-recorded cs _ (mark_all-IsRecorded c.now tried rows h),
          )
          refl

  -- Once a check has sent a reminder of a type, for an event, to a user, no later check of the
  -- pair calls for that reminder to that user again, as long as its row is not cleaned up.
  pub run_checks-once :
      (first : Check) (later : List Check) (rows : List SentReminder)
      → any (λ a. is_attempt tid anchor kind a && a.is_sent) (check_and_send_reminders first rows).0
        ≡ true
      → any
          (is_attempt tid anchor kind)
          (run_checks later (check_and_send_reminders first rows).1).0
        ≡ false
  unfolding check_and_send_reminders
  run_checks-once first later rows sent =
      run_checks-recorded later _
        (mark_all-records first.now (all_attempts first rows first.users) rows sent)
