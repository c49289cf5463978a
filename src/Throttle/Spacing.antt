-- ===== src/Throttle/Spacing.antt =====
-- How often one user gets through.
use native.Mathlib.Decide.{ℕ_discrete}
use voltyk_bot_v3_python.Prelude.{
  ℕ, ◌+◌, ◌≤◌, ◌<◌, ◌≡◌, ◌≢◌, refl, true, some, List, [], ◌∷◌, arith, length, length-select-le, All,
  if◌then◌else◌, Bool-cases, inl, inr,
}
use voltyk_bot_v3_python.Prelude.Dict
use voltyk_bot_v3_python.Throttle.{Throttle, entry_ttl, is_recent, enforce_cap, cleanup, call}
use voltyk_bot_v3_python.Throttle.Capacity.{IsValid, call-IsValid, call-length}

-- the users whose events get through, of a sequence of readings with the user of each event
pub passed : ℕ → List (ℕ × ℕ) → Throttle → List ℕ
passed m [] t = []
passed m ((now, uid) ∷ es) t =
    let rest = passed m es (call m now (some uid) t).0 in
    if (call m now (some uid) t).1 then uid ∷ rest else rest

-- While the cap is not reached, cleaning up drops no entry that is younger than its lifetime.
cleanup_keeps :
    (m now uid start : ℕ) (t : Throttle)
    → Dict.get ℕ_discrete uid t.last_call ≡ some start
    → now < start + entry_ttl
    → length t.last_call ≤ m
    → (Dict.get ℕ_discrete uid (cleanup m now t).last_call ≡ some start)
      × ((cleanup m now t).rate_limit ≡ t.rate_limit)
unfolding cleanup enforce_cap
cleanup_keeps m now uid start t found young room = ground (
  arith,
  Dict.get-select-some ℕ_discrete (is_recent now) uid start t.last_call found,
  length-select-le (is_recent now) t.last_call,
)

call_keeps :
    (m now uid other start : ℕ) (t : Throttle)
    → Dict.get ℕ_discrete uid t.last_call ≡ some start
    → now < start + entry_ttl
    → length t.last_call ≤ m
    → now < start + t.rate_limit
    → let (t', through) = call m now (some other) t in
      (Dict.get ℕ_discrete uid t'.last_call ≡ some start)
      × (t'.rate_limit ≡ t.rate_limit)
      × (through ≡ true → other ≢ uid)
unfolding call
call_keeps m now uid other start t found young room soon = ground (
  arith,
  cleanup_keeps m now uid start t found,
  Dict.get-insert ℕ_discrete uid other now (cleanup m now t).last_call,
)

passed_until :
    (m uid start limit : ℕ) (es : List (ℕ × ℕ)) (t : Throttle)
    → IsValid t
    → Dict.get ℕ_discrete uid t.last_call ≡ some start
    → t.rate_limit ≤ entry_ttl
    → length t.last_call + length es ≤ m
    → start + t.rate_limit ≡ limit
    → All (λ e. (start ≤ e.0) × (e.0 < limit)) es
    → All (λ u. u ≢ uid) (passed m es t)
unfolding passed
passed_until m uid start limit [] t v found short room e soon = tt
passed_until m uid start limit ((now, other) ∷ es) t v found short room e soon =
    let t' = (call m now (some other) t).0 in
    let (found', same, ne) =
      call_keeps m now uid other start t found (omega arith) (omega arith) (omega arith) in
    let rest : All (λ u. u ≢ uid) (passed m es t') =
      passed_until m uid start limit es t' (call-IsValid m now (some other) t v) found'
        (omega arith) (omega (arith, (call-length m now other t v).0)) (omega arith) soon.1 in
    elim (Bool-cases (call m now (some other) t).1) [
      | inl through ↦ rw through (ne through, rest)
      | inr dropped ↦ rw dropped rest
    ]

-- From the moment that an event of a user is noted until `rate_limit` later, no event of that user
-- gets through, whatever the others do, if `rate_limit` is at most the lifetime of an entry and
-- the cap is not reached: with the events to come there are at most as many entries as it allows.
pub passed-spaced :
    (m uid start : ℕ) (es : List (ℕ × ℕ)) (t : Throttle)
    → IsValid t
    → Dict.get ℕ_discrete uid t.last_call ≡ some start
    → t.rate_limit ≤ entry_ttl
    → length t.last_call + length es ≤ m
    → All (λ e. (start ≤ e.0) × (e.0 < start + t.rate_limit)) es
    → All (λ u. u ≢ uid) (passed m es t)
passed-spaced m uid start es t v found short room soon =
    passed_until m uid start (start + t.rate_limit) es t v found short room refl soon

-- A call that gets through is noted at its reading.
pub call-noted :
    (m now uid : ℕ) (t : Throttle)
    → (call m now (some uid) t).1 ≡ true
    → Dict.get ℕ_discrete uid (call m now (some uid) t).0.last_call ≡ some now
unfolding call
call-noted m now uid t h =
    ground (arith, Dict.get-insert_self ℕ_discrete uid now (cleanup m now t).last_call)
