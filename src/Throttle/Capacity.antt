-- ===== src/Throttle/Capacity.antt =====
-- How many users the throttle remembers.
use native.Mathlib.Decide.{ℕ_discrete}
use voltyk_bot_v3_python.Prelude.{
  ℕ, ◌+◌, ◌-◌, ◌≤◌, ◌<◌, Option, none, some, arith, length, select, length-select-le,
}
use voltyk_bot_v3_python.Prelude.Dict
use voltyk_bot_v3_python.Throttle.{
  Throttle, cleanup_interval, is_recent, enforce_cap, cleanup, call,
}

abbrev pub IsValid : Throttle → Type 0
IsValid t = Dict.IsDict ℕ_discrete t.last_call

enforce_cap-IsDict :
    (m : ℕ) (d : Dict.Dict ℕ ℕ)
    → Dict.IsDict ℕ_discrete d
    → Dict.IsDict ℕ_discrete (enforce_cap m d)
unfolding enforce_cap
enforce_cap-IsDict m d v =
    ground (arith, Dict.evict-IsDict ℕ_discrete (λ e. e.1) (length d - m) d v)

enforce_cap-le :
    (m : ℕ) (d : Dict.Dict ℕ ℕ) → Dict.IsDict ℕ_discrete d → length (enforce_cap m d) ≤ m
unfolding enforce_cap
enforce_cap-le m d v = ground (arith, Dict.length-evict ℕ_discrete (λ e. e.1) (length d - m) d v)

enforce_cap-length :
    (m : ℕ) (d : Dict.Dict ℕ ℕ) → Dict.IsDict ℕ_discrete d → length (enforce_cap m d) ≤ length d
unfolding enforce_cap
enforce_cap-length m d v =
    ground (arith, Dict.length-evict ℕ_discrete (λ e. e.1) (length d - m) d v)

pub cleanup-IsValid : (m now : ℕ) (t : Throttle) → IsValid t → IsValid (cleanup m now t)
unfolding cleanup
cleanup-IsValid m now t v = ground (
  arith,
  enforce_cap-IsDict m (select (is_recent now) t.last_call)
      (Dict.select-IsDict ℕ_discrete (is_recent now) t.last_call v),
)

pub call-IsValid :
    (m now : ℕ) (u : Option ℕ) (t : Throttle) → IsValid t → IsValid (call m now u t).0
unfolding call
call-IsValid m now none t v = v
call-IsValid m now (some uid) t v =
    let clean = cleanup-IsValid m now t v in
    ground (arith, Dict.insert-IsDict ℕ_discrete uid now (cleanup m now t).last_call clean)

cleanup-length :
    (m now : ℕ) (t : Throttle)
    → IsValid t
    → (length (cleanup m now t).last_call ≤ length t.last_call)
      × (t.last_cleanup + cleanup_interval < now → length (cleanup m now t).last_call ≤ m)
unfolding cleanup
cleanup-length m now t v =
    let kept = select (is_recent now) t.last_call in
    ground (
      arith,
      enforce_cap-le m kept (Dict.select-IsDict ℕ_discrete (is_recent now) t.last_call v),
      enforce_cap-length m kept (Dict.select-IsDict ℕ_discrete (is_recent now) t.last_call v),
      length-select-le (is_recent now) t.last_call,
    )

-- A call adds at most one user to those remembered; and where the last cleanup is more than
-- `_CLEANUP_INTERVAL` ago, at most one more than the cap is left, however many there were.
pub call-length :
    (m now uid : ℕ) (t : Throttle)
    → IsValid t
    → (length (call m now (some uid) t).0.last_call ≤ length t.last_call + 1)
      × (t.last_cleanup + cleanup_interval < now
          → length (call m now (some uid) t).0.last_call ≤ m + 1)
unfolding call
call-length m now uid t v = ground (
  arith,
  cleanup-length m now t v,
  Dict.length-insert-le ℕ_discrete uid now (cleanup m now t).last_call,
)
