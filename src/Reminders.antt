-- ===== src/Reminders.antt =====
-- The reminders of bot/services/scheduler.py (`_check_and_send_reminders`, for one pair of region
-- and queue) over the table sent_reminders of bot/db/queries/reminders.py. The event, the users
-- of the pair and the outcomes of `_send_reminder` are arguments; times are seconds.
pub mod Due
pub mod Once
pub mod CatchUp
mod Tests
use voltyk_bot_v3_python.Prelude.{
  ℕ, ◌+◌, ◌*◌, Bool, true, false, not, ◌&&◌, ◌||◌, Option, none, some, List, [], ◌∷◌, ◌++◌, ltb,
  leb, ◌==◌, if◌then◌else◌, select, any,
}
use voltyk_bot_v3_python.Prelude.Text.{Text, text_eq}

-- `_REMIND_MINUTES`, which name the types of `_REMIND_TYPE_MAP`
pub data ReminderType : Type 0 where
  before_1h before_30m before_15m : ReminderType

abbrev pub remind_minutes : List ReminderType
remind_minutes = before_1h ∷ before_30m ∷ before_15m ∷ []

abbrev pub minutes_of : ReminderType → ℕ
minutes_of before_1h = 60
minutes_of before_30m = 30
minutes_of before_15m = 15

-- `notification_settings`
pub record RemindSettings : Type 0 where
  pub remind_1h : Bool
  pub remind_30m : Bool
  pub remind_15m : Bool
  pub notify_remind_off : Bool
  pub notify_remind_on : Bool

-- `getattr(ns, _REMIND_FIELDS[remind_m])`
abbrev pub remind_field : ReminderType → RemindSettings → Bool
remind_field before_1h ns = ns.remind_1h
remind_field before_30m ns = ns.remind_30m
remind_field before_15m ns = ns.remind_15m

pub record RemindedUser : Type 0 where
  pub telegram_id : ℕ
  pub notification_settings : Option RemindSettings

pub data EventType : Type 0 where
  power_off power_on : EventType

-- `next_event`; its time is the anchor
pub record Ahead : Type 0 where
  pub event_type : EventType
  pub anchor : Text
  pub minutes : ℕ

-- a row of sent_reminders
pub record SentReminder : Type 0 where
  pub telegram_id : ℕ
  pub period_key : Text
  pub reminder_type : ReminderType
  pub created_at : ℕ

-- the type of a reminder compares by its name
abbrev pub type_eq : ReminderType → ReminderType → Bool
type_eq before_1h before_1h = true
type_eq before_30m before_30m = true
type_eq before_15m before_15m = true
type_eq _ _ = false

abbrev pub is_row_of : ℕ → Text → ReminderType → SentReminder → Bool
is_row_of tid anchor kind row =
    row.telegram_id == tid && text_eq row.period_key anchor && type_eq row.reminder_type kind

-- `check_reminder_sent`, and membership in the result of `check_reminders_sent_batch`, whose
-- checks all have one anchor
unfoldable pub check_reminder_sent : ℕ → Text → ReminderType → List SentReminder → Bool
check_reminder_sent tid anchor kind rows = any (is_row_of tid anchor kind) rows

-- `mark_reminder_sent`, which does nothing on a conflict
unfoldable pub mark_reminder_sent :
    ℕ → ℕ → Text → ReminderType → List SentReminder → List SentReminder
mark_reminder_sent now tid anchor kind rows =
    if check_reminder_sent tid anchor kind rows
    then rows
    else rows
      ++ (record { telegram_id = tid; period_key = anchor; reminder_type = kind; created_at = now }
          ∷ [])

-- `cleanup_old_reminders`, with the cutoff written as a sum
unfoldable pub cleanup_old_reminders : ℕ → ℕ → List SentReminder → List SentReminder
cleanup_old_reminders now older_than_hours rows =
    select (λ row. leb now (row.created_at + older_than_hours * 3600)) rows

-- `has_any and (ns.notify_remind_off or ns.notify_remind_on)`
abbrev pub wants_reminders : RemindSettings → Bool
wants_reminders ns =
    any (λ kind. remind_field kind ns) remind_minutes
    && (ns.notify_remind_off || ns.notify_remind_on)

abbrev pub wants_event : EventType → RemindSettings → Bool
wants_event power_off ns = ns.notify_remind_off
wants_event power_on ns = ns.notify_remind_on

-- `remind_m - 1 <= minutes_until <= remind_m + 1`
abbrev pub in_window : ReminderType → ℕ → Bool
in_window kind minutes_until =
    leb (minutes_of kind) (minutes_until + 1) && leb minutes_until (minutes_of kind + 1)

-- the reminders that a user is due, from `users` and `to_send`
abbrev pub due_types : Ahead → RemindSettings → List ReminderType
due_types ahead ns =
    if wants_reminders ns && wants_event ahead.event_type ns
    then select (λ kind. remind_field kind ns && in_window kind ahead.minutes) remind_minutes
    else []

abbrev pub user_types : Ahead → RemindedUser → List ReminderType
user_types ahead user = elim user.notification_settings [ none ↦ [] | some ns ↦ due_types ahead ns ]

-- A call of `_send_reminder`, and whether it has reached the user or the channel.
pub record Attempt : Type 0 where
  pub telegram_id : ℕ
  pub anchor : Text
  pub reminder_type : ReminderType
  pub is_sent : Bool

-- What a check of the pair is given: the clock, the event, the users and how sending will go.
pub record Check : Type 0 where
  pub now : ℕ
  pub ahead : Ahead
  pub users : List RemindedUser
  pub send_reminder : ℕ → ReminderType → Bool

-- the types of one user that are not in `already_sent`
abbrev pub attempts_for : Check → List SentReminder → ℕ → List ReminderType → List Attempt
attempts_for c rows tid [] = []
attempts_for c rows tid (kind ∷ kinds) =
    let rest = attempts_for c rows tid kinds in
    if check_reminder_sent tid c.ahead.anchor kind rows
    then rest
    else record {
      telegram_id = tid;
      anchor = c.ahead.anchor;
      reminder_type = kind;
      is_sent = c.send_reminder tid kind;
    }
      ∷ rest

-- the calls of one check, over the rows that the batch query has found
unfoldable pub all_attempts : Check → List SentReminder → List RemindedUser → List Attempt
all_attempts c rows [] = []
all_attempts c rows (user ∷ users) =
    attempts_for c rows user.telegram_id (user_types c.ahead user) ++ all_attempts c rows users

-- "batch-persist all newly sent reminders"
unfoldable pub mark_all : ℕ → List Attempt → List SentReminder → List SentReminder
mark_all now [] rows = rows
mark_all now (a ∷ tried) rows =
    mark_all now tried (
      if a.is_sent
      then mark_reminder_sent now a.telegram_id a.anchor a.reminder_type rows
      else rows)

-- the check of a pair: the calls, and the rows after it
unfoldable pub check_and_send_reminders :
    Check → List SentReminder → List Attempt × List SentReminder
check_and_send_reminders c rows =
    let tried = all_attempts c rows c.users in (tried, mark_all c.now tried rows)

-- `catch_up_missed_reminders` for a pair: the event is near enough, and a type's time has come
abbrev pub is_near : ℕ → Bool
is_near minutes_until = ltb 0 minutes_until && leb minutes_until (minutes_of before_1h + 1)

abbrev pub has_come : ReminderType → ℕ → Bool
has_come kind minutes_until = leb minutes_until (minutes_of kind + 1)

-- whether a user is in `users`, and in `to_send` of a type
abbrev pub is_wanted : EventType → ReminderType → RemindSettings → Bool
is_wanted event_type kind ns =
    wants_reminders ns && wants_event event_type ns && remind_field kind ns

abbrev pub missed_types : Ahead → ReminderType → RemindedUser → List ReminderType
missed_types ahead kind user = elim user.notification_settings [
  | none ↦ []
  | some ns ↦ if is_wanted ahead.event_type kind ns then kind ∷ [] else []
]

-- the calls for one type
unfoldable pub missed_attempts :
    Check → ReminderType → List SentReminder → List RemindedUser → List Attempt
missed_attempts c kind rows [] = []
missed_attempts c kind rows (user ∷ users) =
    attempts_for c rows user.telegram_id (missed_types c.ahead kind user)
    ++ missed_attempts c kind rows users

-- type after type, where the rows of one are written before the next is looked up
unfoldable pub catch_up_from :
    Check → List ReminderType → List SentReminder → List Attempt × List SentReminder
catch_up_from c [] rows = ([], rows)
catch_up_from c (kind ∷ kinds) rows =
    let tried = if has_come kind c.ahead.minutes then missed_attempts c kind rows c.users else [] in
    let (later, rows') = catch_up_from c kinds (mark_all c.now tried rows) in
    (tried ++ later, rows')

unfoldable pub catch_up_missed_reminders :
    Check → List SentReminder → List Attempt × List SentReminder
catch_up_missed_reminders c rows =
    if is_near c.ahead.minutes then catch_up_from c remind_minutes rows else ([], rows)
