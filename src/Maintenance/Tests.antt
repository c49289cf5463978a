-- ===== src/Maintenance/Tests.antt =====
-- Three changes of the mode, a restart, and whom the mode stops.
use voltyk_bot_v3_python.Prelude.{
  ◌≡◌, refl, Bool, true, false, Option, none, some, List, [], ◌∷◌, ◌==◌,
}
use voltyk_bot_v3_python.Prelude.Text.{Text, codes, text_dec}
use voltyk_bot_v3_python.Maintenance.{
  default_mode, persist_maintenance_mode, load_maintenance_mode, message_from, passed,
  call_maintenance,
}
use voltyk_bot_v3_python.Maintenance.Restored.{persist_all, persist-then-load}

abbrev changes : List (Bool × Option Text)
changes = (true, some (codes "back at noon")) ∷ (false, none) ∷ (true, none) ∷ []

persist-then-load_example :
    load_maintenance_mode true
      (persist_all changes (default_mode (codes "later"), [])).1
      (default_mode (codes "later"))
    ≡ (persist_all changes (default_mode (codes "later"), [])).0
persist-then-load_example =
    persist-then-load (codes "later") changes ((λ e. cc), ((λ e. cc), ((λ e. cc), tt)))

mode_in_force :
    (persist_all changes (default_mode (codes "later"), [])).0
    ≡ record { enabled = true; message = codes "back at noon" }
unfolding persist_all persist_maintenance_mode
mode_in_force = refl

-- an empty message is in force until a restart, which brings the default back
empty_message_lost :
    load_maintenance_mode true
      (persist_all ((true, some []) ∷ []) (default_mode (codes "later"), [])).1
      (default_mode (codes "later"))
    ≡ record { enabled = true; message = codes "later" }
unfolding load_maintenance_mode persist_all persist_maintenance_mode text_dec
empty_message_lost = refl

admin_passes :
    call_maintenance
      (λ id. id == 5)
      (record { enabled = true; message = codes "later" })
      (message_from (some 5))
    ≡ passed
unfolding call_maintenance
admin_passes = refl
