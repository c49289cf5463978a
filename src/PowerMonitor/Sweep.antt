-- ===== src/PowerMonitor/Sweep.antt =====
-- `_check_all_ips`: the users page by page, the eviction of whoever is not among them, and one
-- ping for each address with the checks of its users. A cycle that finds another one running does
-- nothing, so that cycles do not overlap. What `gather` makes of the groups is an argument.
use mathlib.Core.Logic.{ite}
use voltyk_bot_v3_python.Prelude.{
  ℕ, zero, suc, Bool, true, false, Option, none, some, List, [], ◌∷◌, ◌++◌, map, ltb, if◌then◌else◌,
  length,
}
use voltyk_bot_v3_python.Prelude.Dict.{Dict}
use voltyk_bot_v3_python.Prelude.Text.{Text, text_dec}
use voltyk_bot_v3_python.Paging.{last_id}
use voltyk_bot_v3_python.Users.{User, get_users_with_ip_cursor}
use voltyk_bot_v3_python.Address.{Unicode, check_router_http}
use voltyk_bot_v3_python.PowerMonitor.{Monitor}
use voltyk_bot_v3_python.PowerMonitor.Machine.{Tracking, DbWrite, check_user_power}
use voltyk_bot_v3_python.PowerMonitor.Memory.{evict_stale_entries, evict_inactive}

-- How a query for a page ends; a cached statement that was invalidated is asked for once more.
pub data Query : Type 0 where
  works timed_out broken : Query
  cached_statement : Bool → Query

abbrev pub obtains : Query → Bool
obtains works = true
obtains timed_out = false
obtains broken = false
obtains (cached_statement retry_works) = retry_works

-- The loop's end: without fuel, at a query that failed, or with the users.
pub data Load : Type 0 where
  unfinished aborted : Load
  loaded : List User → Load

abbrev pub prepend : List User → Load → Load
prepend batch unfinished = unfinished
prepend batch aborted = aborted
prepend batch (loaded rows) = loaded (batch ++ rows)

-- What a cycle meets besides: the batch size, the queries' ends by cursor, the settings, the clock
-- (and, by Telegram id, that of each check before and after its database calls), the debounce, the
-- tracking rows, and which hosts answer.
pub record Cycle : Type 0 where
  pub batch_size : ℕ
  pub query : ℕ → Query
  pub max_states : ℕ
  pub stale_after : ℕ
  pub now : ℕ
  pub checked_at : ℕ → ℕ
  pub timer_at : ℕ → ℕ
  pub debounce_s : ℕ → ℕ
  pub power_tracking : ℕ → Option Tracking
  pub unicode : Unicode
  pub reach : Text → ℕ → Bool

abbrev pub router_ip_of : Option Text → Text
router_ip_of none = []
router_ip_of (some router_ip) = router_ip

-- `ip_groups.setdefault(user.router_ip, []).append(user)`
abbrev pub join : User → Dict Text (List User) → Dict Text (List User)
join u [] = (router_ip_of u.router_ip, u ∷ []) ∷ []
join u (e ∷ ip_groups) =
    ite (text_dec (router_ip_of u.router_ip) e.0) ((e.0, e.1 ++ (u ∷ [])) ∷ ip_groups)
      (e ∷ join u ip_groups)

abbrev pub group_by_ip : List User → Dict Text (List User) → Dict Text (List User)
group_by_ip [] ip_groups = ip_groups
group_by_ip (u ∷ us) ip_groups = group_by_ip us (join u ip_groups)

-- the checks of a group, in order, each with the address that was pinged
abbrev pub checks_of : Dict Text (List User) → List (List (Text × User))
checks_of [] = []
checks_of (e ∷ ip_groups) = map (λ u. (e.0, u)) e.1 ∷ checks_of ip_groups

module _ (cycle : Cycle) where
  abbrev pub load_round : List User → Load → Load
  load_round [] rest = loaded []
  load_round (r ∷ rs) rest =
      if ltb (length (r ∷ rs)) cycle.batch_size then loaded (r ∷ rs) else prepend (r ∷ rs) rest

  -- the `while True`
  unfoldable pub load : ℕ → ℕ → List User → Load
  load zero after_id table = unfinished
  load (suc fuel) after_id table =
      let batch = get_users_with_ip_cursor cycle.batch_size after_id table in
      let rest = load fuel (last_id (λ (u : User). u.id) after_id batch) table in
      if obtains (cycle.query after_id) then load_round batch rest else aborted

  -- `is_available`: the group's ping, or else the user's own
  abbrev pub available : Option Bool → Option Text → Option Bool
  available none router_ip = check_router_http cycle.unicode cycle.reach router_ip
  available (some b) router_ip = some b

  unfoldable pub check_one : Text × User → Monitor → Monitor × List DbWrite
  check_one (ip, u) m =
      check_user_power (cycle.checked_at u.telegram_id) (cycle.timer_at u.telegram_id)
        (cycle.debounce_s u.telegram_id) u.telegram_id (cycle.power_tracking u.telegram_id)
        (available (check_router_http cycle.unicode cycle.reach (some ip)) u.router_ip) m

  unfoldable pub check_each : List (Text × User) → Monitor → Monitor × List DbWrite
  check_each [] m = (m, [])
  check_each (x ∷ xs) m =
      let (m', writes) = check_one x m in
      let (m'', more) = check_each xs m' in (m'', writes ++ more)

  module _ (gather : List (List (Text × User)) → List (Text × User)) where
    abbrev pub check_loaded : Load → Monitor → Option (Monitor × List DbWrite)
    check_loaded unfinished m = none
    check_loaded aborted m = some (m, [])
    check_loaded (loaded []) m = some (m, [])
    check_loaded (loaded (u ∷ us)) m = some (
        check_each (gather (checks_of (group_by_ip (u ∷ us) []))) (
          evict_stale_entries cycle.max_states cycle.stale_after cycle.now
            (evict_inactive (map (λ (v : User). v.telegram_id) (u ∷ us)) m)))

    -- `_check_all_ips`
    unfoldable pub check_all_ips : ℕ → List User → Monitor → Option (Monitor × List DbWrite)
    check_all_ips fuel table m = check_loaded (load fuel 0 table) m
