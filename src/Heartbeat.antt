-- ===== src/Heartbeat.antt =====
-- bot/utils/heartbeat.py: the module's two dicts as a record. Task names are any type with a
-- decidable equality, and clock readings are numbers of ticks.
pub mod Staleness
mod Tests
use mathlib.Core.Logic.{ite}
use voltyk_bot_v3_python.Prelude.{
  ℕ, zero, suc, ◌+◌, ◌-◌, Bool, Option, none, some, List, [], ◌∷◌, map, ltb, select, if◌then◌else◌,
}
use voltyk_bot_v3_python.Prelude.Dict
use voltyk_bot_v3_python.Prelude.Dict.{Dict}

-- `_beats` and `_thresholds`
pub record Heartbeat (K : Type 0) : Type 0 where
  pub beats : Dict K ℕ
  pub thresholds : Dict K (Option ℕ)

-- the argument `threshold_s` of `register`: left out (`_UNSET`), or given, `None` or a number
pub data Threshold : Type 0 where
  unset : Threshold
  given : Option ℕ → Threshold

-- `_thresholds.get(name) or threshold_s`: zero counts as not there
abbrev pub effective : Option (Option ℕ) → ℕ → ℕ
effective (some (some (suc t))) threshold_s = suc t
effective (some (some zero)) threshold_s = threshold_s
effective (some none) threshold_s = threshold_s
effective none threshold_s = threshold_s

-- `reset`
abbrev pub reset : {K : Type 0} → Heartbeat K
reset = record { beats = []; thresholds = [] }

module _ {K : Type 0} (dec : Discrete K) where
  -- `_thresholds.setdefault(name, None)`
  abbrev setdefault : K → Dict K (Option ℕ) → Dict K (Option ℕ)
  setdefault name d = if Dict.contains dec name d then d else Dict.insert dec name none d

  pub register : ℕ → K → Threshold → Heartbeat K → Heartbeat K
  register now name unset h = record {
    beats = Dict.insert dec name now h.beats;
    thresholds = setdefault name h.thresholds;
  }
  register now name (given t) h = record {
    beats = Dict.insert dec name now h.beats;
    thresholds = Dict.insert dec name t h.thresholds;
  }

  pub beat : ℕ → K → Heartbeat K → Heartbeat K
  beat now name h = record h { beats = Dict.insert dec name now h.beats }

  pub snapshot : ℕ → Heartbeat K → Dict K ℕ
  snapshot now h = map (λ e. (e.0, now - e.1)) h.beats

  -- `(now - ts) > effective`
  abbrev pub is_stale : ℕ → ℕ → Heartbeat K → K × ℕ → Bool
  is_stale now threshold_s h e =
      ltb (e.1 + effective (Dict.get dec e.0 h.thresholds) threshold_s) now

  pub stale_tasks : ℕ → ℕ → Heartbeat K → List K
  stale_tasks now threshold_s h = Dict.keys (select (is_stale now threshold_s h) h.beats)
