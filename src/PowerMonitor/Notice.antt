-- ===== src/PowerMonitor/Notice.antt =====
-- `_handle_power_state_change` and `_format_exact_duration`: what a confirmed change tells to the
-- user and to the channel. Moments and durations are seconds; the database's and Telegram's
-- answers are arguments, and times of the day arrive formatted.
use voltyk_bot_v3_python.Prelude.{
  ℕ, ◌+◌, ◌/◌, ◌%◌, Bool, true, false, not, ◌&&◌, ◌||◌, Option, none, some, List, [], ◌∷◌, ◌++◌,
  ltb, ◌==◌, if◌then◌else◌, is_some,
}
use voltyk_bot_v3_python.Prelude.Int.{pos}
use voltyk_bot_v3_python.Prelude.Text.{Text, codes, text_eq, py_str}
use voltyk_bot_v3_python.PowerMonitor.{Power, on, off, UserState}

-- the settings of the user's own chat
pub record FactSettings : Type 0 where
  pub notify_fact_off : Bool
  pub notify_fact_on : Bool

-- The settings of the channel; an empty id counts as none.
pub record ChannelConfig : Type 0 where
  pub channel_id : Option Text
  pub ch_notify_fact_off : Bool
  pub ch_notify_fact_on : Bool
  pub channel_paused : Bool

pub record FreshUser : Type 0 where
  pub notification_settings : Option FactSettings
  pub channel_config : Option ChannelConfig

-- `power_result`
pub record PowerResult : Type 0 where
  pub power_changed_at : Option ℕ
  pub duration : Option ℕ

-- What the first session gives: no user (also where it fails before that), or the user with the
-- result, which is None where the rest of the session fails.
pub data Loaded : Type 0 where
  no_user : Loaded
  loaded : FreshUser → Option PowerResult → Loaded

-- `next_event`, with its times formatted by `_format_time`; None also where the fetch fails
pub data NextEvent : Type 0 where
  power_off : Text → Option Text → NextEvent
  power_on : Text → NextEvent

-- `_format_exact_duration`
unfoldable pub format_exact_duration : ℕ → Text
format_exact_duration seconds =
    let hours = seconds / 60 / 60 in
    let minutes = seconds / 60 % 60 in
    if hours == 0
    then (if minutes == 0 then codes "менше хвилини" else py_str (pos minutes) ++ codes " хв")
    else if minutes == 0
    then py_str (pos hours) ++ codes " год"
    else py_str (pos hours) ++ codes " год " ++ py_str (pos minutes) ++ codes " хв"

-- `duration_text`
abbrev pub duration_text : Option ℕ → Text
duration_text none = []
duration_text (some seconds) =
    if ltb seconds 60 then codes "менше хвилини" else format_exact_duration seconds

-- `duration_text or '—'`
abbrev pub or_dash : Text → Text
or_dash [] = codes "—"
or_dash (c ∷ cs) = c ∷ cs

-- the warning sign is two code points
abbrev unplanned : Text
unplanned = codes "\n⚠" ++ 0xfe0f ∷ codes " Позапланове відключення"

-- `schedule_text`
abbrev pub schedule_text : Power → Option NextEvent → Text
schedule_text off (some (power_on time)) =
    codes "\n🗓 Світло має з'явитися: <b>" ++ time ++ codes "</b>"
schedule_text off (some (power_off start end)) = unplanned
schedule_text off none = unplanned
schedule_text on (some (power_off start (some end))) =
    codes "\n🗓 Наступне планове: <b>" ++ start ++ codes " - " ++ end ++ codes "</b>"
schedule_text on (some (power_off start none)) =
    codes "\n🗓 Наступне планове: <b>" ++ start ++ codes "</b>"
schedule_text on (some (power_on time)) = []
schedule_text on none = []

-- `power_msg_type`
pub data MessageType : Type 0 where
  off_scheduled off_unscheduled on_with_next on_no_next : MessageType

abbrev pub power_message_type : Power → Option NextEvent → MessageType
power_message_type off (some (power_on time)) = off_scheduled
power_message_type off (some (power_off start end)) = off_unscheduled
power_message_type off none = off_unscheduled
power_message_type on (some (power_off start end)) = on_with_next
power_message_type on (some (power_on time)) = on_no_next
power_message_type on none = on_no_next

-- `message`
abbrev pub message : Power → Text → Option ℕ → Option NextEvent → Text
message off time_str duration next_event =
    codes "🔴 <b>"
    ++ time_str
    ++ codes " Світло зникло</b>\n🕓 Воно було "
    ++ or_dash (duration_text duration)
    ++ schedule_text off next_event
message on time_str duration next_event =
    codes "🟢 <b>"
    ++ time_str
    ++ codes " Світло з'явилося</b>\n🕓 Його не було "
    ++ or_dash (duration_text duration)
    ++ schedule_text on next_event

-- "Cooldown check": `elapsed < POWER_NOTIFICATION_COOLDOWN_S` forbids, written as a sum
abbrev pub should_notify : ℕ → ℕ → Option ℕ → Bool
should_notify cooldown now none = true
should_notify cooldown now (some last) = not (ltb now (last + cooldown))

-- `send_to_bot`
abbrev pub send_to_bot : Power → Option FactSettings → Bool
send_to_bot new_state none = true
send_to_bot off (some ns) = ns.notify_fact_off
send_to_bot on (some ns) = ns.notify_fact_on

-- `send_to_channel`, where there is a channel other than the user's chat
abbrev pub wants_state : Power → ChannelConfig → Bool
wants_state off cc = cc.ch_notify_fact_off
wants_state on cc = cc.ch_notify_fact_on

abbrev pub channel_of : ℕ → Power → Option ChannelConfig → Option Text
channel_of tid new_state none = none
channel_of tid new_state (some cc) = elim cc.channel_id [
  | none ↦ none
  | some id ↦
      if not (text_eq id (py_str (pos tid))) && wants_state new_state cc && not cc.channel_paused
      then some id
      else none
]

-- How Telegram answers a message: with its id, with TelegramForbiddenError, or another error.
pub data Reply : Type 0 where
  sent : ℕ → Reply
  forbidden failed : Reply

abbrev pub message_id : Reply → Option ℕ
message_id (sent id) = some id
message_id forbidden = none
message_id failed = none

-- A call of bot.send_message: to the user's chat, or to a channel.
pub data Send : Type 0 where
  to_user : ℕ → Text → Send
  to_channel : Text → Text → Send

-- What the second session writes: the ids of the messages, with the type if there is one for the
-- user, and on "on" the end of the ping alert.
pub record Persisted : Type 0 where
  pub bot_message_id : Option ℕ
  pub channel_message_id : Option ℕ
  pub message_type : Option MessageType
  pub deactivates_alert : Bool

pub record Handled : Type 0 where
  pub state : UserState
  pub sends : List Send
  pub deactivated : Bool
  pub persisted : Option Persisted

-- The sending: to the user, and to the channel unless the user has blocked the bot. The flags
-- tell whether each is wanted; the replies are those that the calls would get.
pub record Sending : Type 0 where
  pub sends : List Send
  pub bot_id : Option ℕ
  pub channel_message : Option ℕ
  pub blocked : Bool

abbrev pub channel_part : Text → Option Text → Reply → List Send × Option ℕ
channel_part msg none reply = ([], none)
channel_part msg (some id) reply = (to_channel id msg ∷ [], message_id reply)

unfoldable pub send_all : Bool → ℕ → Text → Option Text → Reply → Reply → Sending
send_all false tid msg channel bot_reply channel_reply =
    let (sends, id) = channel_part msg channel channel_reply in
    record { sends = sends; bot_id = none; channel_message = id; blocked = false }
send_all true tid msg channel forbidden channel_reply = record {
  sends = to_user tid msg ∷ [];
  bot_id = none;
  channel_message = none;
  blocked = true;
}
send_all true tid msg channel failed channel_reply =
    let (sends, id) = channel_part msg channel channel_reply in
    record { sends = to_user tid msg ∷ sends; bot_id = none; channel_message = id; blocked = false }
send_all true tid msg channel (sent mid) channel_reply =
    let (sends, id) = channel_part msg channel channel_reply in
    record {
      sends = to_user tid msg ∷ sends;
      bot_id = some mid;
      channel_message = id;
      blocked = false;
    }

abbrev pub no_sending : Sending
no_sending = record { sends = []; bot_id = none; channel_message = none; blocked = false }

abbrev pub is_on : Power → Bool
is_on on = true
is_on off = false

-- the condition and the content of the second session
abbrev pub persist : Power → MessageType → Sending → Option Persisted
persist new_state kind s =
    if not s.blocked && (is_some s.bot_id || is_some s.channel_message || is_on new_state)
    then some (record {
      bot_message_id = s.bot_id;
      channel_message_id = s.channel_message;
      message_type = if is_some s.bot_id then some kind else none;
      deactivates_alert = is_on new_state;
    })
    else none

-- `changed_at`, from the database, or the time that was seen, or now
abbrev pub changed_at : ℕ → Option ℕ → Option PowerResult → ℕ
changed_at now none none = now
changed_at now (some t) none = t
changed_at now original (some r) = elim r.power_changed_at [
  | some t ↦ t
  | none ↦ elim original [ some t ↦ t | none ↦ now ]
]

abbrev pub duration_of : Option PowerResult → Option ℕ
duration_of none = none
duration_of (some r) = r.duration

-- "Update stable state bookkeeping"
abbrev pub settle_state : ℕ → Power → UserState → UserState
settle_state changed new_state us = record us {
  last_stable_at = some changed;
  last_stable_state = some new_state;
  instability_start = none;
  switch_count = 0;
}

-- What the handler has of the world: the clock, the setting, the header's time, the event ahead
-- and Telegram's replies.
pub record World : Type 0 where
  pub now : ℕ
  pub cooldown : ℕ
  pub time_str : Text
  pub next_event : Option NextEvent
  pub bot_reply : Reply
  pub channel_reply : Reply

module _ (w : World) (tid : ℕ) (new_state : Power) (original : Option ℕ) where
  -- the state once the sending is done, by whether it was due
  abbrev pub noted : Bool → UserState → UserState
  noted true us = record us { last_notification_at = some w.now }
  noted false us = us

  abbrev pub sending_of : Bool → FreshUser → Option PowerResult → Sending
  sending_of false user result = no_sending
  sending_of true user result =
      send_all (send_to_bot new_state user.notification_settings) tid
        (message new_state w.time_str (duration_of result) w.next_event)
        (channel_of tid new_state user.channel_config) w.bot_reply w.channel_reply

  unfoldable pub handle_loaded : Bool → FreshUser → Option PowerResult → UserState → Handled
  handle_loaded due user result us =
      let s = sending_of due user result in
      record {
        state = settle_state (changed_at w.now original result) new_state (noted due us);
        sends = s.sends;
        deactivated = s.blocked;
        persisted = persist new_state (power_message_type new_state w.next_event) s;
      }

  -- `_handle_power_state_change`
  unfoldable pub handle_power_state_change : Loaded → UserState → Handled
  handle_power_state_change no_user us = record {
    state = us;
    sends = [];
    deactivated = false;
    persisted = none;
  }
  handle_power_state_change (loaded user result) us =
      handle_loaded (should_notify w.cooldown w.now us.last_notification_at) user result us
