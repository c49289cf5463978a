-- ===== src/Reminders/Due.antt =====
-- Which reminders a user is due, written out apart from how the check finds them.
use voltyk_bot_v3_python.Prelude.{
  ℕ, ◌≡◌, refl, ap, ◌∙◌, Bool, false, ◌&&◌, ◌||◌, Option, none, some, arith, any, ◌==◌,
}
use voltyk_bot_v3_python.Prelude.Text.{Text}
use voltyk_bot_v3_python.Reminders.{
  ReminderType, before_1h, before_30m, before_15m, RemindSettings, RemindedUser, EventType,
  power_off, power_on, Ahead, type_eq, in_window, due_types, user_types, Check,
}

-- the settings ask for reminders of this type before events of this type
abbrev pub is_asked : EventType → ReminderType → RemindSettings → Bool
is_asked power_off before_1h ns = ns.notify_remind_off && ns.remind_1h
is_asked power_off before_30m ns = ns.notify_remind_off && ns.remind_30m
is_asked power_off before_15m ns = ns.notify_remind_off && ns.remind_15m
is_asked power_on before_1h ns = ns.notify_remind_on && ns.remind_1h
is_asked power_on before_30m ns = ns.notify_remind_on && ns.remind_30m
is_asked power_on before_15m ns = ns.notify_remind_on && ns.remind_15m

-- the minutes until the event at which a reminder of this type is for sending
abbrev pub is_time : ReminderType → ℕ → Bool
is_time before_1h minutes = minutes == 59 || minutes == 60 || minutes == 61
is_time before_30m minutes = minutes == 29 || minutes == 30 || minutes == 31
is_time before_15m minutes = minutes == 14 || minutes == 15 || minutes == 16

-- without settings nothing is asked for
abbrev pub asks : EventType → ReminderType → Option RemindSettings → Bool
asks event_type kind none = false
asks event_type kind (some ns) = is_asked event_type kind ns

-- a user of this id who has asked for a reminder of this type, where it is time for it
abbrev pub is_due : ℕ → ReminderType → Check → RemindedUser → Bool
is_due tid kind c u =
    u.telegram_id == tid
    && (asks c.ahead.event_type kind u.notification_settings && is_time kind c.ahead.minutes)

in_window_lem : (kind : ReminderType) (minutes : ℕ) → in_window kind minutes ≡ is_time kind minutes
in_window_lem before_1h minutes = ground arith
in_window_lem before_30m minutes = ground arith
in_window_lem before_15m minutes = ground arith

due_types_lem :
    (e : EventType) (kind : ReminderType) (minutes : ℕ) (anchor : Text) (ns : RemindSettings)
    → any
        (λ k. type_eq k kind)
        (due_types (record { event_type = e; anchor = anchor; minutes = minutes }) ns)
      ≡ is_asked e kind ns && in_window kind minutes
due_types_lem power_off before_1h minutes anchor ns = ground arith
due_types_lem power_off before_30m minutes anchor ns = ground arith
due_types_lem power_off before_15m minutes anchor ns = ground arith
due_types_lem power_on before_1h minutes anchor ns = ground arith
due_types_lem power_on before_30m minutes anchor ns = ground arith
due_types_lem power_on before_15m minutes anchor ns = ground arith

pub user_types_lem :
    (ahead : Ahead) (kind : ReminderType) (o : Option RemindSettings) (tid : ℕ)
    → any
        (λ k. type_eq k kind)
        (user_types ahead (record { telegram_id = tid; notification_settings = o }))
      ≡ asks ahead.event_type kind o && is_time kind ahead.minutes
user_types_lem ahead kind none tid = refl
user_types_lem ahead kind (some ns) tid =
    due_types_lem ahead.event_type kind ahead.minutes ahead.anchor ns
    ∙ ap (λ b. is_asked ahead.event_type kind ns && b) (in_window_lem kind ahead.minutes)
