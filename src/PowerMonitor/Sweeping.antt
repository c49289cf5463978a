-- ===== src/PowerMonitor/Sweeping.antt =====
-- What a whole cycle of checks leaves in the memory, in whichever order the groups run.
use native.Mathlib.Decide.{ℕ_discrete}
use mathlib.Core.Logic.{ite}
use voltyk_bot_v3_python.Prelude.{
  ℕ, ◌≡◌, refl, ap, ◌∙◌, subst, Bool, true, false, not, ◌||◌, Option, none, some, List, [], ◌∷◌,
  ◌++◌, map, arith, if◌then◌else◌, ◌==◌, any, All, select, Option-cases, inl, inr,
}
use voltyk_bot_v3_python.Prelude.Dict
use voltyk_bot_v3_python.Prelude.Dict.{Dict}
use voltyk_bot_v3_python.Prelude.Text.{Text, text_dec}
use voltyk_bot_v3_python.Users.{User}
use voltyk_bot_v3_python.Address.{check_router_http}
use voltyk_bot_v3_python.PowerMonitor.{UserState, Monitor, get_state}
use voltyk_bot_v3_python.PowerMonitor.Machine.{check_user_power}
use voltyk_bot_v3_python.PowerMonitor.Memory.{
  keys, pop_states, is_stale_state, overflow, evict_stale_entries, evict_inactive,
}
use voltyk_bot_v3_python.PowerMonitor.Validity.{IsValid}
use voltyk_bot_v3_python.PowerMonitor.Debounce.{check_user_power-IsValid}
use voltyk_bot_v3_python.PowerMonitor.Eviction.{pop_states-user_states}
use voltyk_bot_v3_python.PowerMonitor.Hearing.{heard, check_user_power-IsHeard}
use voltyk_bot_v3_python.PowerMonitor.Interleaved.{any_in}
use voltyk_bot_v3_python.PowerMonitor.Sweep.{
  Cycle, router_ip_of, join, group_by_ip, checks_of, available, check_one, check_each,
}

-- the groups hold the users
any-map_append :
    (q : User → Bool) (ip : Text) (us : List User) (u : User)
    → any (λ (x : Text × User). q x.1) (map (λ v. (ip, v)) (us ++ (u ∷ [])))
      ≡ (any (λ (x : Text × User). q x.1) (map (λ v. (ip, v)) us) || q u)
any-map_append q ip [] u = ground arith
any-map_append q ip (v ∷ us) u = ground (arith, any-map_append q ip us u)

any-join :
    (q : User → Bool) (u : User) (g : Dict Text (List User))
    → any_in (λ x. q x.1) (checks_of (join u g)) ≡ (any_in (λ x. q x.1) (checks_of g) || q u)
any-join q u [] = ground arith
any-join q u (e ∷ g) = elim (text_dec (router_ip_of u.router_ip) e.0) [
  | yes same ↦ ground (arith, any-map_append q e.0 e.1 u)
  | no other ↦ ground (arith, any-join q u g)
]

pub any-group_by_ip :
    (q : User → Bool) (us : List User) (g : Dict Text (List User))
    → any_in (λ x. q x.1) (checks_of (group_by_ip us g))
      ≡ (any_in (λ x. q x.1) (checks_of g) || any q us)
any-group_by_ip q [] g = ground arith
any-group_by_ip q (u ∷ us) g = any-group_by_ip q us (join u g) ∙ ground (arith, any-join q u g)

module _ (P : Text × User → Type 0) where
  All-map_append :
      (ip : Text) (us : List User) (u : User)
      → All P (map (λ v. (ip, v)) us)
      → P (ip, u)
      → All P (map (λ v. (ip, v)) (us ++ (u ∷ [])))
  All-map_append ip [] u h p = (p, tt)
  All-map_append ip (v ∷ us) u h p = (h.0, All-map_append ip us u h.1 p)

  All-join :
      (u : User) (g : Dict Text (List User))
      → P (router_ip_of u.router_ip, u)
      → All (λ xs. All P xs) (checks_of g)
      → All (λ xs. All P xs) (checks_of (join u g))
  All-join u [] p h = ((p, tt), tt)
  All-join u (e ∷ g) p h =
      elim (text_dec (router_ip_of u.router_ip) e.0)
        as (λ d.
          All (λ xs. All P xs) (checks_of (ite d ((e.0, e.1 ++ (u ∷ [])) ∷ g) (e ∷ join u g)))) [
            | yes same ↦ (All-map_append e.0 e.1 u h.0 (subst (λ ip. P (ip, u)) same p), h.1)
            | no other ↦ (h.0, All-join u g p h.1)
          ]

  pub All-group_by_ip :
      (us : List User) (g : Dict Text (List User))
      → All (λ (u : User). P (router_ip_of u.router_ip, u)) us
      → All (λ xs. All P xs) (checks_of g)
      → All (λ xs. All P xs) (checks_of (group_by_ip us g))
  All-group_by_ip [] g p h = h
  All-group_by_ip (u ∷ us) g p h = All-group_by_ip us (join u g) p.1 (All-join u g p.0 h)

module _ (cycle : Cycle) (answer : ℕ → Option Bool) where
  -- The ping of this address is an answer, and the one for this user.
  abbrev pub IsAnswered : Text × User → Type 0
  IsAnswered x =
      (b : Bool) × (available cycle (check_router_http cycle.unicode cycle.reach (some x.0))
          x.1.router_ip
        ≡ some b)
      × (answer x.1.telegram_id ≡ some b)

  check_one-heard :
      (x : Text × User) (m : Monitor) (j : ℕ)
      → IsAnswered x
      → heard j (check_one cycle x m).0.user_states
        ≡ (if x.1.telegram_id == j then some (answer j) else heard j m.user_states)
  unfolding check_one
  check_one-heard x m j (b, asked, known) =
      ap
        (λ o.
          heard j
            (check_user_power (cycle.checked_at x.1.telegram_id) (cycle.timer_at x.1.telegram_id)
              (cycle.debounce_s x.1.telegram_id) x.1.telegram_id
              (cycle.power_tracking x.1.telegram_id) o m).0.user_states)
        asked
      ∙ check_user_power-IsHeard (cycle.checked_at x.1.telegram_id) (cycle.timer_at x.1.telegram_id)
          (cycle.debounce_s x.1.telegram_id) x.1.telegram_id (cycle.power_tracking x.1.telegram_id)
          b m j
      ∙ ground (arith, known)

  pub check_each-heard :
      (xs : List (Text × User)) (m : Monitor) (j : ℕ)
      → All IsAnswered xs
      → heard j (check_each cycle xs m).0.user_states
        ≡ (if any (λ x. x.1.telegram_id == j) xs then some (answer j) else heard j m.user_states)
  unfolding check_each
  check_each-heard [] m j h = refl
  check_each-heard (x ∷ xs) m j h =
      check_each-heard xs (check_one cycle x m).0 j h.1 ∙ ground (arith, check_one-heard x m j h.0)

pub check_each-IsValid :
    (cycle : Cycle) (xs : List (Text × User)) (m : Monitor)
    → IsValid m
    → IsValid (check_each cycle xs m).0
unfolding check_each check_one
check_each-IsValid cycle [] m v = v
check_each-IsValid cycle ((ip, u) ∷ xs) m v =
    check_each-IsValid cycle xs (check_one cycle (ip, u) m).0 (
      check_user_power-IsValid (cycle.checked_at u.telegram_id) (cycle.timer_at u.telegram_id)
        (cycle.debounce_s u.telegram_id) u.telegram_id (cycle.power_tracking u.telegram_id)
        (available cycle (check_router_http cycle.unicode cycle.reach (some ip)) u.router_ip) m v)

pop_states-none :
    (victims : Dict ℕ UserState) (j : ℕ) (m : Monitor)
    → get_state j m ≡ none
    → get_state j (pop_states (keys victims) m) ≡ none
pop_states-none victims j m h =
    ap (Dict.get ℕ_discrete j) (pop_states-user_states victims m)
    ∙ Dict.get-remove_all-none ℕ_discrete j victims m.user_states h

pop_states-some :
    (p : ℕ × UserState → Bool) (j : ℕ) (us : UserState) (m : Monitor)
    → get_state j m ≡ some us
    → p (j, us) ≡ true
    → get_state j (pop_states (keys (select p m.user_states)) m) ≡ none
pop_states-some p j us m h goes =
    ap (Dict.get ℕ_discrete j) (pop_states-user_states (select p m.user_states) m)
    ∙ Dict.get-remove_all ℕ_discrete j (select p m.user_states) m.user_states
    ∙ rw (Dict.get-select-some ℕ_discrete p j us m.user_states h goes) refl

-- what is evicted is not there any more
pub evict_stale_entries-none :
    (max stale_after now j : ℕ) (m : Monitor)
    → get_state j m ≡ none
    → get_state j (evict_stale_entries max stale_after now m) ≡ none
unfolding evict_stale_entries
evict_stale_entries-none max stale_after now j m h =
    let old = select (is_stale_state stale_after now) m.user_states in
    let m' = pop_states (keys old) m in
    pop_states-none (overflow max m'.user_states) j m' (pop_states-none old j m h)

pub evict_inactive-none :
    (active : List ℕ) (j : ℕ) (m : Monitor)
    → any (λ tid. tid == j) active ≡ false
    → get_state j (evict_inactive active m) ≡ none
unfolding evict_inactive
evict_inactive-none active j m h = elim (Option-cases (get_state j m)) [
  | inr (us, e) ↦ pop_states-some (λ x. not (any (λ tid. tid == x.0) active)) j us m e (rw h refl)
  | inl e ↦ pop_states-none (select (λ x. not (any (λ tid. tid == x.0) active)) m.user_states) j m e
]
