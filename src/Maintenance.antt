-- ===== src/Maintenance.antt =====
-- The maintenance mode of bot/middlewares/maintenance.py, and the table of settings of
-- bot/db/queries/settings.py in which it outlives a restart.
pub mod Restored
mod Tests
use voltyk_bot_v3_python.Prelude.{
  ℕ, Bool, true, false, not, ◌&&◌, Option, none, some, List, [], ◌∷◌, ◌==◌, if◌then◌else◌,
}
use voltyk_bot_v3_python.Prelude.Dict
use voltyk_bot_v3_python.Prelude.Dict.{Dict}
use voltyk_bot_v3_python.Prelude.Text.{Text, text_eq, text_dec, codes}

-- the rows of settings by their key
abbrev pub Settings : Type 0
Settings = Dict Text Text

abbrev pub get_setting : Text → Settings → Option Text
get_setting key table = Dict.get text_dec key table

abbrev pub set_setting : Text → Text → Settings → Settings
set_setting key value table = Dict.insert text_dec key value table

abbrev pub enabled_key : Text
enabled_key = codes "maintenance_enabled"

abbrev pub message_key : Text
message_key = codes "maintenance_message"

-- `MaintenanceMiddleware._enabled` and `_message`; the default text is a parameter
pub record Mode : Type 0 where
  pub enabled : Bool
  pub message : Text

abbrev pub default_mode : Text → Mode
default_mode default_message = record { enabled = false; message = default_message }

abbrev pub set_maintenance_mode : Bool → Option Text → Mode → Mode
set_maintenance_mode enabled none mode = record mode { enabled = enabled }
set_maintenance_mode enabled (some message) mode = record { enabled = enabled; message = message }

-- `"1" if enabled else "0"`
abbrev pub flag : Bool → Text
flag true = codes "1"
flag false = codes "0"

abbrev pub set_message : Option Text → Settings → Settings
set_message none table = table
set_message (some message) table = set_setting message_key message table

-- `persist_maintenance_mode`, by whether the database takes the transaction
unfoldable pub persist_maintenance_mode :
    Bool → Bool → Option Text → Mode × Settings → Mode × Settings
persist_maintenance_mode false enabled message (mode, table) =
    (set_maintenance_mode enabled message mode, table)
persist_maintenance_mode true enabled message (mode, table) = (
  set_maintenance_mode enabled message mode,
  set_message message (set_setting enabled_key (flag enabled) table),
)

-- `enabled_raw == "1"`, and `message_raw or None`
abbrev pub is_one : Option Text → Bool
is_one none = false
is_one (some raw) = text_eq raw (codes "1")

abbrev pub or_none : Option Text → Option Text
or_none none = none
or_none (some []) = none
or_none (some (c ∷ raw)) = some (c ∷ raw)

-- `load_maintenance_mode`, by whether the database answers
unfoldable pub load_maintenance_mode : Bool → Settings → Mode → Mode
load_maintenance_mode false table mode = mode
load_maintenance_mode true table mode =
    set_maintenance_mode (is_one (get_setting enabled_key table))
      (or_none (get_setting message_key table)) mode

-- What the middleware is called with: a message or a press, whose sender may be unknown, or else.
pub data Update : Type 0 where
  message_from callback_from : Option ℕ → Update
  other_update : Update

pub data Handled : Type 0 where
  passed ignored : Handled
  answered replied : Text → Handled

abbrev pub user_of : Update → Option ℕ
user_of (message_from user) = user
user_of (callback_from user) = user
user_of other_update = none

abbrev pub is_admin_user : (ℕ → Bool) → Option ℕ → Bool
is_admin_user is_admin none = false
is_admin_user is_admin (some user_id) = not (user_id == 0) && is_admin user_id

abbrev pub refuse : Text → Update → Handled
refuse message (message_from user) = replied message
refuse message (callback_from user) = answered message
refuse message other_update = ignored

-- `MaintenanceMiddleware.__call__`
unfoldable pub call_maintenance : (ℕ → Bool) → Mode → Update → Handled
call_maintenance is_admin mode update =
    if not mode.enabled
    then passed
    else if is_admin_user is_admin (user_of update)
    then passed
    else refuse mode.message update
