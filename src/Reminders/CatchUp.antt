-- ===== src/Reminders/CatchUp.antt =====
-- Checks and catch-ups of reminders, in any order, send none twice.
use voltyk_bot_v3_python.Prelude.{
  ℕ, ◌≡◌, refl, sym, ◌∙◌, Bool, true, false, ◌&&◌, List, [], ◌∷◌, ◌++◌, arith, any, if-either,
  if◌then◌else◌, Bool-cases, inl, inr,
}
use voltyk_bot_v3_python.Prelude.Text.{Text}
use voltyk_bot_v3_python.Reminders.{
  ReminderType, remind_minutes, RemindedUser, SentReminder, Attempt, Check, attempts_for,
  all_attempts, mark_all, check_and_send_reminders, is_near, has_come, missed_types,
  missed_attempts, catch_up_from, catch_up_missed_reminders,
}
use voltyk_bot_v3_python.Reminders.Once.{
  is_attempt, any-append, IsRecorded, attempts_for-recorded, all_attempts-recorded,
  mark_all-IsRecorded, mark_all-records,
}

-- a check of the pair each minute, or the catch-up after the night
pub data Run : Type 0 where
  regular catch_up : Check → Run

abbrev pub run_once : Run → List SentReminder → List Attempt × List SentReminder
run_once (regular c) rows = check_and_send_reminders c rows
run_once (catch_up c) rows = catch_up_missed_reminders c rows

unfoldable pub run_each : List Run → List SentReminder → List Attempt × List SentReminder
run_each [] rows = ([], rows)
run_each (r ∷ rs) rows =
    let (tried, rows') = run_once r rows in
    let (later, rows'') = run_each rs rows' in (tried ++ later, rows'')

module _ (tid : ℕ) (anchor : Text) (kind : ReminderType) where
  abbrev pub is_sent_attempt : Attempt → Bool
  is_sent_attempt a = is_attempt tid anchor kind a && a.is_sent

  missed_attempts-recorded :
      (c : Check) (k : ReminderType) (rows : List SentReminder) (users : List RemindedUser)
      → IsRecorded tid anchor kind rows
      → any (is_attempt tid anchor kind) (missed_attempts c k rows users) ≡ false
  unfolding missed_attempts
  missed_attempts-recorded c k rows [] h = refl
  missed_attempts-recorded c k rows (u ∷ users) h =
      any-append (is_attempt tid anchor kind)
        (attempts_for c rows u.telegram_id (missed_types c.ahead k u))
        (missed_attempts c k rows users)
      ∙ rw
          (
            attempts_for-recorded tid anchor kind c rows u.telegram_id (missed_types c.ahead k u) h,
            missed_attempts-recorded c k rows users h,
          )
          refl

  -- the calls of a type whose time may have come
  abbrev tried_of : Check → ReminderType → List SentReminder → List Attempt
  tried_of c k rows = if has_come k c.ahead.minutes then missed_attempts c k rows c.users else []

  tried_of-recorded :
      (c : Check) (k : ReminderType) (rows : List SentReminder)
      → IsRecorded tid anchor kind rows
      → any (is_attempt tid anchor kind) (tried_of c k rows) ≡ false
  tried_of-recorded c k rows h =
      if-either (λ tried. any (is_attempt tid anchor kind) tried ≡ false)
        (has_come k c.ahead.minutes) (missed_attempts c k rows c.users) []
        (λ e. missed_attempts-recorded c k rows c.users h) (λ e. refl)

  -- what is recorded is not tried, and stays recorded
  IsOver : List Attempt × List SentReminder → Type 0
  IsOver x = (any (is_attempt tid anchor kind) x.0 ≡ false) × IsRecorded tid anchor kind x.1

  catch_up_from-IsOver :
      (c : Check) (kinds : List ReminderType) (rows : List SentReminder)
      → IsRecorded tid anchor kind rows
      → IsOver (catch_up_from c kinds rows)
  unfolding catch_up_from IsOver
  catch_up_from-IsOver c [] rows h = (refl, h)
  catch_up_from-IsOver c (k ∷ kinds) rows h =
      let tried = tried_of c k rows in
      let rest =
        catch_up_from-IsOver c kinds (mark_all c.now tried rows)
          (mark_all-IsRecorded tid anchor kind c.now tried rows h) in
      (
        any-append (is_attempt tid anchor kind) tried
              (catch_up_from c kinds (mark_all c.now tried rows)).0
            ∙ rw (tried_of-recorded c k rows h, rest.0) refl,
        rest.1,
      )

  run_once-IsOver :
      (r : Run) (rows : List SentReminder)
      → IsRecorded tid anchor kind rows
      → IsOver (run_once r rows)
  unfolding check_and_send_reminders catch_up_missed_reminders IsOver
  run_once-IsOver (regular c) rows h = (
    all_attempts-recorded tid anchor kind c rows c.users h,
    mark_all-IsRecorded tid anchor kind c.now (all_attempts c rows c.users) rows h,
  )
  run_once-IsOver (catch_up c) rows h =
      if-either IsOver (is_near c.ahead.minutes) (catch_up_from c remind_minutes rows) ([], rows)
        (λ e. catch_up_from-IsOver c remind_minutes rows h) (λ e. (refl, h))

  -- what is sent is recorded
  Records : List Attempt × List SentReminder → Type 0
  Records x = any is_sent_attempt x.0 ≡ true → IsRecorded tid anchor kind x.1

  catch_up_from-Records :
      (c : Check) (kinds : List ReminderType) (rows : List SentReminder)
      → Records (catch_up_from c kinds rows)
  unfolding catch_up_from Records IsOver
  catch_up_from-Records c [] rows h = cc
  catch_up_from-Records c (k ∷ kinds) rows h =
      let tried = tried_of c k rows in
      let rows' = mark_all c.now tried rows in
      let either = sym (any-append is_sent_attempt tried (catch_up_from c kinds rows').0) ∙ h in
      elim (Bool-cases (any is_sent_attempt tried)) [
        | inl now ↦
            (catch_up_from-IsOver c kinds rows'
              (mark_all-records tid anchor kind c.now tried rows now)).1
        | inr later ↦ catch_up_from-Records c kinds rows' (ground arith)
      ]

  run_once-Records : (r : Run) (rows : List SentReminder) → Records (run_once r rows)
  unfolding check_and_send_reminders catch_up_missed_reminders Records
  run_once-Records (regular c) rows =
      mark_all-records tid anchor kind c.now (all_attempts c rows c.users) rows
  run_once-Records (catch_up c) rows =
      if-either Records (is_near c.ahead.minutes) (catch_up_from c remind_minutes rows) ([], rows)
        (λ e. catch_up_from-Records c remind_minutes rows) (λ e h. cc)

  run_each-recorded :
      (rs : List Run) (rows : List SentReminder)
      → IsRecorded tid anchor kind rows
      → any (is_attempt tid anchor kind) (run_each rs rows).0 ≡ false
  unfolding run_each IsOver
  run_each-recorded [] rows h = refl
  run_each-recorded (r ∷ rs) rows h =
      let (none_tried, still) = run_once-IsOver r rows h in
      any-append (is_attempt tid anchor kind) (run_once r rows).0
        (run_each rs (run_once r rows).1).0
      ∙ rw (none_tried, run_each-recorded rs (run_once r rows).1 still) refl

  -- Once a check of a pair or the catch-up after the night has sent a reminder of a type, for an
  -- event, to a user, no later check or catch-up calls for that reminder to that user again, as
  -- long as its row is not cleaned up.
  pub run_each-once :
      (r : Run) (later : List Run) (rows : List SentReminder)
      → any is_sent_attempt (run_once r rows).0 ≡ true
      → any (is_attempt tid anchor kind) (run_each later (run_once r rows).1).0 ≡ false
  unfolding Records
  run_each-once r later rows sent =
      run_each-recorded later (run_once r rows).1 (run_once-Records r rows sent)
