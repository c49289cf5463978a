-- ===== src/PowerMonitor/Cycles.antt =====
-- What a whole cycle of `_check_all_ips` leaves in the memory, in whichever order the groups run.
use native.Mathlib.Decide.{ℕ_discrete}
use voltyk_bot_v3_python.Prelude.{
  ℕ, zero, suc, ◌≤◌, ◌<◌, ◌≡◌, refl, ap, ◌∙◌, Bool, true, ◌&&◌, Option, none, some, List, [], ◌∷◌,
  map, arith, if-either, if◌then◌else◌, ◌==◌, any, All, All-map, length, ltb, select, Bool-cases,
  inl, inr,
}
use voltyk_bot_v3_python.Prelude.Dict
use voltyk_bot_v3_python.Prelude.Text.{Text}
use voltyk_bot_v3_python.Prelude.Sort.{All-sort_by}
use voltyk_bot_v3_python.Paging.{rows_after, page, last_id, round, pages}
use voltyk_bot_v3_python.Paging.Complete.{AreDistinct, pages-Complete}
use voltyk_bot_v3_python.Users.{User, has_ip, is_monitored}
use voltyk_bot_v3_python.Address.{Unicode, check_router_http}
use voltyk_bot_v3_python.PowerMonitor.{Monitor}
use voltyk_bot_v3_python.PowerMonitor.Machine.{DbWrite}
use voltyk_bot_v3_python.PowerMonitor.Memory.{evict_stale_entries, evict_inactive}
use voltyk_bot_v3_python.PowerMonitor.Validity.{IsValid}
use voltyk_bot_v3_python.PowerMonitor.Eviction.{
  evict_stale_entries-IsValid, evict_inactive-IsValid, evict_inactive-IsDict,
}
use voltyk_bot_v3_python.PowerMonitor.Interleaved.{Interleaved, any-Interleaved, All-Interleaved}
use voltyk_bot_v3_python.PowerMonitor.Hearing.{last_ping, heard}
use voltyk_bot_v3_python.PowerMonitor.Sweep.{
  obtains, Load, unfinished, loaded, Cycle, router_ip_of, group_by_ip, checks_of, load_round, load,
  available, check_each, check_loaded, check_all_ips,
}
use voltyk_bot_v3_python.PowerMonitor.Sweeping.{
  any-group_by_ip, All-group_by_ip, IsAnswered, check_each-heard, check_each-IsValid,
  evict_stale_entries-none, evict_inactive-none,
}

abbrev user_id : User → ℕ
user_id u = u.id

-- the monitored users of a table, in the order of their ids
abbrev pub monitored : List User → List User
monitored table = rows_after user_id is_monitored 0 table

-- the loop that reads, once every query is answered
abbrev load_of : Option (List User × List User) → Load
load_of none = unfinished
load_of (some (rows, table)) = loaded rows

module _ (cycle : Cycle) where
  load_round-pages :
      (batch table : List User) (rest : Option (List User × List User))
      → load_round cycle batch (load_of rest)
        ≡ load_of (round user_id is_monitored cycle.batch_size (λ b t. t) batch table rest)
  load_round-pages [] table rest = refl
  load_round-pages (r ∷ rs) table none = ground arith
  load_round-pages (r ∷ rs) table (some (later, table')) = ground arith

  load-pages :
      ((a : ℕ) → obtains (cycle.query a) ≡ true)
      → (fuel a : ℕ) (table : List User)
      → load cycle fuel a table
        ≡ load_of (pages user_id is_monitored cycle.batch_size (λ b t. t) fuel a table)
  unfolding load pages
  load-pages answered zero a table = refl
  load-pages answered (suc fuel) a table =
      let batch = page user_id is_monitored cycle.batch_size a table in
      rw (answered a) (
        ap (load_round cycle batch) (load-pages answered fuel (last_id user_id a batch) table)
        ∙ load_round-pages batch table (
            pages user_id is_monitored cycle.batch_size (λ b t. t) fuel (last_id user_id a batch)
              table))

  load-Complete :
      ((a : ℕ) → obtains (cycle.query a) ≡ true)
      → 1 ≤ cycle.batch_size
      → (fuel : ℕ) (table : List User) → AreDistinct user_id table
      → length (monitored table) < fuel
      → load cycle fuel 0 table ≡ loaded (monitored table)
  load-Complete answered some_size fuel table distinct enough =
      let (table', done, g) =
        pages-Complete user_id is_monitored cycle.batch_size (λ b t. t) (AreDistinct user_id)
          (λ a t d. record { distinct = d; good = d; rows = refl }) some_size fuel 0 table distinct
          enough in
      load-pages answered fuel 0 table ∙ ap load_of done

-- what is asked for an address that a monitored user has is an answer
has_ip-answered :
    (c : Unicode) (reach : Text → ℕ → Bool) (o : Option Text)
    → has_ip o ≡ true
    → (b : Bool) × (check_router_http c reach (some (router_ip_of o)) ≡ some b)
      × (check_router_http c reach o ≡ some b)
unfolding check_router_http
has_ip-answered c reach none h = cc
has_ip-answered c reach (some []) h = cc
has_ip-answered c reach (some (x ∷ s)) h = (_, refl, refl)

module _ (P : User → Type 0) where
  All-found :
      (a : ℕ) (table : List User)
      → All P table
      → All
          (λ u. P u × (is_monitored u ≡ true))
          (select (λ (u : User). is_monitored u && ltb a u.id) table)
  All-found a [] h = tt
  All-found a (u ∷ us) h = elim (Bool-cases (is_monitored u && ltb a u.id)) [
    | inl found ↦ rw found ((h.0, ground arith), All-found a us h.1)
    | inr not_found ↦ rw not_found (All-found a us h.1)
  ]

  All-monitored :
      (table : List User) → All P table → All (λ u. P u × (is_monitored u ≡ true)) (monitored table)
  All-monitored table h =
      All-sort_by user_id (λ u. P u × (is_monitored u ≡ true))
        (select (λ (u : User). is_monitored u && ltb 0 u.id) table) (All-found 0 table h)

module _ (cycle : Cycle) (row : ℕ → User) where
  -- what the router of whoever has this Telegram id says
  abbrev pub answer : ℕ → Option Bool
  answer j = check_router_http cycle.unicode cycle.reach (row j).router_ip

  found-IsAnswered :
      (u : User)
      → (row u.telegram_id ≡ u) × (is_monitored u ≡ true)
      → IsAnswered cycle answer (router_ip_of u.router_ip, u)
  found-IsAnswered u (unique, found) =
      let (b, pinged, own) = has_ip-answered cycle.unicode cycle.reach u.router_ip (ground arith) in
      (
        b,
        ap (λ o. available cycle o u.router_ip) pinged,
        ap (λ (v : User). check_router_http cycle.unicode cycle.reach v.router_ip) unique ∙ own,
      )

  any-ids :
      (j : ℕ) (us : List User)
      → any (λ tid. tid == j) (map (λ (u : User). u.telegram_id) us)
        ≡ any (λ (u : User). u.telegram_id == j) us
  any-ids j [] = refl
  any-ids j (u ∷ us) = ground (arith, any-ids j us)

  module _ (gather : List (List (Text × User)) → List (Text × User))
      (interleaved : (groups : List (List (Text × User)))
        → Interleaved groups (gather groups)) where
    -- The cycle ended with a valid memory, in which are these users, each with the answer of the
    -- user's own router, and nobody else.
    abbrev pub Swept : List User → Option (Monitor × List DbWrite) → Type 0
    Swept rows o =
        (m : Monitor) × (writes : List DbWrite) × (o ≡ some (m, writes))
        × IsValid m
        × ((j : ℕ)
            → heard j m.user_states
              ≡ (if any (λ (u : User). u.telegram_id == j) rows then some (answer j) else none))

    loaded-Swept :
        (rows : List User) (m : Monitor)
        → 0 < length rows
        → All (λ u. (row u.telegram_id ≡ u) × (is_monitored u ≡ true)) rows
        → IsValid m
        → Dict.IsDict ℕ_discrete m.user_states
        → Swept rows (check_loaded cycle gather (loaded rows) m)
    loaded-Swept [] m some_row known v d = elim some_row [ ]
    loaded-Swept (u ∷ us) m some_row known v d =
        let rows = u ∷ us in
        let groups = checks_of (group_by_ip rows []) in
        let active = map (λ (u : User). u.telegram_id) rows in
        let m' = evict_inactive active m in
        let m'' = evict_stale_entries cycle.max_states cycle.stale_after cycle.now m' in
        let checks = gather groups in
        let answered =
          All-Interleaved (IsAnswered cycle answer) groups checks (interleaved groups) (
            All-group_by_ip (IsAnswered cycle answer) rows [] (All-map found-IsAnswered rows known)
              tt) in
        (
          (check_each cycle checks m'').0,
          (check_each cycle checks m'').1,
          refl,
          check_each-IsValid cycle checks m''
              (evict_stale_entries-IsValid cycle.max_states cycle.stale_after cycle.now m'
                (evict_inactive-IsValid active m v) (evict_inactive-IsDict active m d)).0,
          λ j.
              let q : User → Bool = λ u. u.telegram_id == j in
              let all_of =
                any-Interleaved (λ x. q x.1) groups checks (interleaved groups)
                ∙ any-group_by_ip q rows [] in
              check_each-heard cycle answer checks m'' j answered
              ∙ ap (λ b. if b then some (answer j) else heard j m''.user_states) all_of
              ∙ if-either
                  (λ x. (if any q rows then some (answer j) else heard j m''.user_states) ≡ x)
                  (any q rows) (some (answer j)) none (λ e. rw e refl)
                  (λ e. rw e (
                    ap last_ping (
                      evict_stale_entries-none cycle.max_states cycle.stale_after cycle.now j m'
                        (evict_inactive-none active j m (any-ids j rows ∙ e))))),
        )

    -- Let every query for a page be answered, ids be unique and `row` tell who has a Telegram id,
    -- some user be monitored and fuel be given for each, and the groups' checks be interleaved in any
    -- way. Then a cycle that begins with a valid memory ends, with a valid memory in which exactly
    -- the monitored users are, each with the answer that the user's own router gave.
    pub check_all_ips-Swept :
        (fuel : ℕ) (table : List User) (m : Monitor)
        → ((a : ℕ) → obtains (cycle.query a) ≡ true)
        → 1 ≤ cycle.batch_size
        → AreDistinct user_id table
        → All (λ (u : User). row u.telegram_id ≡ u) table
        → 0 < length (monitored table)
        → length (monitored table) < fuel
        → IsValid m
        → Dict.IsDict ℕ_discrete m.user_states
        → Swept (monitored table) (check_all_ips cycle gather fuel table m)
    unfolding check_all_ips
    check_all_ips-Swept fuel table m answered some_size distinct unique some_row enough v d =
        rw (load-Complete cycle answered some_size fuel table distinct enough, check_all_ips)
          (loaded-Swept (monitored table) m some_row
            (All-monitored (λ (u : User). row u.telegram_id ≡ u) table unique) v d)
