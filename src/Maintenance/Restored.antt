-- ===== src/Maintenance/Restored.antt =====
-- A restart finds the maintenance mode that was set last.
use voltyk_bot_v3_python.Prelude.{
  ◌≡◌, ◌≢◌, refl, ap, ◌∙◌, Bool, true, false, Option, none, some, List, [], ◌∷◌, All,
}
use voltyk_bot_v3_python.Prelude.Dict
use voltyk_bot_v3_python.Prelude.Text.{Text, text_dec, text_eq-false}
use voltyk_bot_v3_python.Maintenance.{
  Settings, get_setting, set_setting, enabled_key, message_key, Mode, default_mode,
  set_maintenance_mode, flag, persist_maintenance_mode, is_one, or_none, load_maintenance_mode,
}

-- a message, if one is given, has a text
abbrev pub HasText : Bool × Option Text → Type 0
HasText change = change.1 ≢ some []

-- changes that the database takes, one after the other
unfoldable pub persist_all : List (Bool × Option Text) → Mode × Settings → Mode × Settings
persist_all [] state = state
persist_all (change ∷ changes) state =
    persist_all changes (persist_maintenance_mode true change.0 change.1 state)

enabled_not_message : enabled_key ≢ message_key
enabled_not_message = text_eq-false enabled_key message_key refl

message_not_enabled : message_key ≢ enabled_key
message_not_enabled = text_eq-false message_key enabled_key refl

is_one-flag : (enabled : Bool) → is_one (some (flag enabled)) ≡ enabled
is_one-flag true = refl
is_one-flag false = refl

module _ (default_message : Text) where
  -- the text after a restart
  abbrev shown : Option Text → Text
  shown none = default_message
  shown (some message) = message

  -- the table tells the mode
  record Agrees (state : Mode × Settings) : Type 0 where
    enabled : is_one (get_setting enabled_key state.1) ≡ state.0.enabled
    message : shown (or_none (get_setting message_key state.1)) ≡ state.0.message

  persist-Agrees :
      (enabled : Bool) (message : Option Text) (mode : Mode) (table : Settings)
      → HasText (enabled, message)
      → Agrees (mode, table)
      → Agrees (persist_maintenance_mode true enabled message (mode, table))
  unfolding persist_maintenance_mode
  persist-Agrees enabled none mode table h v = record {
    enabled =
        ap is_one (Dict.get-insert_self text_dec enabled_key (flag enabled) table)
        ∙ is_one-flag enabled;
    message =
        ap (λ o. shown (or_none o))
          (Dict.get-insert_ne text_dec message_key enabled_key (flag enabled) table
            message_not_enabled)
        ∙ v.message;
  }
  persist-Agrees enabled (some []) mode table h v = absurd (h refl)
  persist-Agrees enabled (some (c ∷ s)) mode table h v =
      let table' = set_setting enabled_key (flag enabled) table in
      record {
        enabled =
            ap is_one (
              Dict.get-insert_ne text_dec enabled_key message_key (c ∷ s) table' enabled_not_message
              ∙ Dict.get-insert_self text_dec enabled_key (flag enabled) table)
            ∙ is_one-flag enabled;
        message =
            ap (λ o. shown (or_none o)) (Dict.get-insert_self text_dec message_key (c ∷ s) table');
      }

  persist_all-Agrees :
      (changes : List (Bool × Option Text)) (state : Mode × Settings)
      → All HasText changes
      → Agrees state
      → Agrees (persist_all changes state)
  unfolding persist_all
  persist_all-Agrees [] state h v = v
  persist_all-Agrees ((enabled, message) ∷ changes) (mode, table) h v =
      persist_all-Agrees changes (persist_maintenance_mode true enabled message (mode, table)) h.1
        (persist-Agrees enabled message mode table h.0 v)

  restored_lem :
      (enabled : Bool) (message : Option Text) (mode : Mode)
      → enabled ≡ mode.enabled
      → shown message ≡ mode.message
      → set_maintenance_mode enabled message (default_mode default_message) ≡ mode
  restored_lem enabled none mode e f = cc
  restored_lem enabled (some message) mode e f = cc

  -- After any changes from the mode and the table that a first start finds, all of which the
  -- database took and none to an empty message, a restart loads the mode that was in force.
  pub persist-then-load :
      (changes : List (Bool × Option Text))
      → All HasText changes
      → load_maintenance_mode true
          (persist_all changes (default_mode default_message, [])).1
          (default_mode default_message)
        ≡ (persist_all changes (default_mode default_message, [])).0
  unfolding load_maintenance_mode
  persist-then-load changes h =
      let state = persist_all changes (default_mode default_message, []) in
      let v =
        persist_all-Agrees changes (default_mode default_message, []) h
          (record { enabled = refl; message = refl }) in
      restored_lem (is_one (get_setting enabled_key state.1))
        (or_none (get_setting message_key state.1)) state.0 v.enabled v.message
