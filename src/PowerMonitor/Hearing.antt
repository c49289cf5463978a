-- ===== src/PowerMonitor/Hearing.antt =====
-- What a check leaves in the memory: the router's answer for its user, and the others as they were.
use native.Mathlib.Decide.{ℕ_discrete}
use voltyk_bot_v3_python.Prelude.{
  ℕ, ◌≡◌, ap, ◌∙◌, Bool, Option, none, some, arith, if-either, if◌then◌else◌, ◌==◌, List,
}
use voltyk_bot_v3_python.Prelude.Dict
use voltyk_bot_v3_python.Prelude.Dict.{Dict}
use voltyk_bot_v3_python.PowerMonitor.{
  Power, power_eq, is_power, power_of, UserState, Monitor, get_state, mark_dirty, put_state,
  new_user_state, or_created, get_user_state,
}
use voltyk_bot_v3_python.PowerMonitor.Machine.{
  Tracking, DbWrite, seed_by, first_check, unchanged, unchanged_from, changed, advance, note_ping,
  with_ping, check_user_power,
}

-- the last answer of the router of whoever is in memory
abbrev pub last_ping : Option UserState → Option (Option Bool)
last_ping none = none
last_ping (some us) = some us.last_ping_success

abbrev pub heard : ℕ → Dict ℕ UserState → Option (Option Bool)
heard tid d = last_ping (Dict.get ℕ_discrete tid d)

-- States like others but for one user's, who has this answer.
abbrev IsHeard : ℕ → Option Bool → Dict ℕ UserState → Dict ℕ UserState → Type 0
IsHeard tid b d d' = (j : ℕ) → heard j d' ≡ (if tid == j then some b else heard j d)

put-IsHeard :
    (tid : ℕ) (us : UserState) (d : Dict ℕ UserState)
    → IsHeard tid us.last_ping_success d (Dict.insert ℕ_discrete tid us d)
put-IsHeard tid us d j = ap last_ping (Dict.get-insert ℕ_discrete j tid us d) ∙ ground (arith)

module _ (now later delay_s tid : ℕ) (us : UserState) (m : Monitor) where
  seed_by-IsHeard :
      (state : Option Power) (at : Option ℕ) (p : Power)
      → IsHeard tid us.last_ping_success m.user_states
          (seed_by state at now tid p us m).0.user_states
  seed_by-IsHeard none at p = put-IsHeard tid _ m.user_states
  seed_by-IsHeard (some s) none p = put-IsHeard tid _ m.user_states
  seed_by-IsHeard (some s) (some t) p = put-IsHeard tid _ m.user_states

  first_check-IsHeard :
      (tracking : Option Tracking) (p : Power)
      → IsHeard tid us.last_ping_success m.user_states
          (first_check now tid tracking p us m).0.user_states
  first_check-IsHeard none p = put-IsHeard tid _ m.user_states
  first_check-IsHeard (some t) p = seed_by-IsHeard t.power_state t.power_changed_at p

  unchanged_from-IsHeard :
      (o : Option Power) (p : Power)
      → IsHeard tid us.last_ping_success m.user_states (unchanged_from o tid p us m).0.user_states
  unfolding unchanged_from
  unchanged_from-IsHeard none p = put-IsHeard tid _ m.user_states
  unchanged_from-IsHeard (some q) p =
      if-either
        (λ (x : Monitor × List DbWrite).
          IsHeard tid us.last_ping_success m.user_states x.0.user_states)
        (power_eq q p) _ _ (λ e. put-IsHeard tid _ m.user_states)
        (λ e. put-IsHeard tid _ m.user_states)

  changed-IsHeard :
      (p : Power)
      → IsHeard tid us.last_ping_success m.user_states
          (changed now later delay_s tid p us m).0.user_states
  unfolding changed
  changed-IsHeard p = put-IsHeard tid _ m.user_states

  same-IsHeard :
      get_state tid m ≡ some us → IsHeard tid us.last_ping_success m.user_states m.user_states
  same-IsHeard held j = ground (arith, ap last_ping held)

  advance-IsHeard :
      (tracking : Option Tracking) (p : Power)
      → get_state tid m ≡ some us
      → IsHeard tid us.last_ping_success m.user_states
          (advance now later delay_s tid tracking p us m).0.user_states
  unfolding advance unchanged
  advance-IsHeard tracking p held =
      let Q : Monitor × List DbWrite → Type 0 =
        λ x. IsHeard tid us.last_ping_success m.user_states x.0.user_states in
      if-either Q us.is_first_check _ _ (λ e. first_check-IsHeard tracking p)
        (λ e.
          if-either Q (is_power p us.current_state) _ _
            (λ e. unchanged_from-IsHeard us.pending_state p)
            (λ e.
              if-either Q (is_power p us.pending_state) _ _ (λ e. same-IsHeard held)
                (λ e. changed-IsHeard p)))

module _ (now later delay_s tid : ℕ) (tracking : Option Tracking) (b : Bool) where
  with_ping-IsHeard :
      (us : UserState) (m : Monitor)
      → IsHeard tid
          (some b)
          m.user_states
          (with_ping now later delay_s tid tracking b (us, m)).0.user_states
  unfolding with_ping
  with_ping-IsHeard us m j =
      let us' = note_ping now b us in
      let m' = mark_dirty tid (put_state tid us' m) in
      advance-IsHeard now later delay_s tid us' m' tracking (power_of b)
        (Dict.get-insert_self ℕ_discrete tid us' m.user_states) j
      ∙ ground (arith, put-IsHeard tid us' m.user_states j)

  or_created-IsHeard :
      (o : Option UserState) (m : Monitor)
      → IsHeard tid
          (some b)
          m.user_states
          (with_ping now later delay_s tid tracking b (or_created o tid m)).0.user_states
  unfolding or_created
  or_created-IsHeard (some us) m j = with_ping-IsHeard us m j
  or_created-IsHeard none m j =
      with_ping-IsHeard new_user_state (mark_dirty tid (put_state tid new_user_state m)) j
      ∙ ground (arith, put-IsHeard tid new_user_state m.user_states j)

  -- After a check with an answer, that is the last answer of its user, and the others' are what
  -- they were.
  pub check_user_power-IsHeard :
      (m : Monitor) (j : ℕ)
      → heard j (check_user_power now later delay_s tid tracking (some b) m).0.user_states
        ≡ (if tid == j then some (some b) else heard j m.user_states)
  unfolding check_user_power get_user_state
  check_user_power-IsHeard m = or_created-IsHeard (get_state tid m) m
