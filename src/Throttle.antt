-- ===== src/Throttle.antt =====
-- bot/middlewares/throttle.py: `ThrottleMiddleware`. Clock readings are milliseconds, and the
-- source's differences of readings are written as sums on the other side. The cap on the number
-- of entries is a setting, and so a parameter. `heapq.nsmallest` is `sorted(...)[:n]`.
pub mod Capacity
pub mod Spacing
mod Tests
use native.Mathlib.Decide.{ℕ_discrete}
use voltyk_bot_v3_python.Prelude.{
  ℕ, ◌+◌, ◌-◌, Bool, true, false, Option, none, some, List, [], ◌∷◌, ltb, if◌then◌else◌, length,
  select,
}
use voltyk_bot_v3_python.Prelude.Dict
use voltyk_bot_v3_python.Prelude.Dict.{Dict}

-- `_CLEANUP_INTERVAL` and `_ENTRY_TTL`
abbrev pub cleanup_interval : ℕ
cleanup_interval = 300_000

abbrev pub entry_ttl : ℕ
entry_ttl = 60_000

pub record Throttle : Type 0 where
  pub rate_limit : ℕ
  pub last_call : Dict ℕ ℕ
  pub last_cleanup : ℕ

-- `t > cutoff`, where `cutoff = now - _ENTRY_TTL`
abbrev pub is_recent : ℕ → ℕ × ℕ → Bool
is_recent now e = ltb now (e.1 + entry_ttl)

-- the hard cap, once the entries are filtered by age
pub enforce_cap : ℕ → Dict ℕ ℕ → Dict ℕ ℕ
unfolding ℕ_discrete
enforce_cap max_entries calls =
    if ltb max_entries (length calls)
    then Dict.evict ℕ_discrete (λ e. e.1) (length calls - max_entries) calls
    else calls

pub cleanup : ℕ → ℕ → Throttle → Throttle
unfolding enforce_cap
cleanup max_entries now t =
    if ltb (t.last_cleanup + cleanup_interval) now
    then record t {
      last_call = enforce_cap max_entries (select (is_recent now) t.last_call);
      last_cleanup = now;
    }
    else t

-- `self._last_call.get(user.id, 0.0)`
abbrev pub last_of : ℕ → Dict ℕ ℕ → ℕ
last_of uid d = elim (Dict.get ℕ_discrete uid d) [ none ↦ 0 | some t ↦ t ]

-- `__call__` at the reading `now`, and whether the event reaches the handler
pub call : ℕ → ℕ → Option ℕ → Throttle → Throttle × Bool
unfolding cleanup
call max_entries now none t = (t, true)
call max_entries now (some uid) t =
    let t' = cleanup max_entries now t in
    if ltb now (last_of uid t'.last_call + t'.rate_limit)
    then (t', false)
    else (record t' { last_call = Dict.insert ℕ_discrete uid now t'.last_call }, true)
