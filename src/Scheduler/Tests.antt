-- ===== src/Scheduler/Tests.antt =====
-- The comparison of two schedules of one day.
use voltyk_bot_v3_python.Prelude.{◌≡◌, refl, false, [], ◌∷◌}
use voltyk_bot_v3_python.Prelude.Text.{codes}
use voltyk_bot_v3_python.Scheduler.{Event, compute_changes}

abbrev morning : Event
morning = record {
  start = codes "2025-01-10T08:00";
  end = codes "2025-01-10T10:00";
  is_possible = false;
}

abbrev evening : Event
evening = record {
  start = codes "2025-01-11T18:00";
  end = codes "2025-01-11T20:00";
  is_possible = false;
}

evening_added : (compute_changes (morning ∷ []) (morning ∷ evening ∷ [])).added ≡ evening ∷ []
unfolding compute_changes
evening_added = refl
