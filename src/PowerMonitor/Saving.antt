-- ===== src/PowerMonitor/Saving.antt =====
-- Membership in a set of users, such as those who are dirty.
use voltyk_bot_v3_python.Prelude.{ℕ, ◌≡◌, refl, Bool, ◌&&◌, List, [], ◌∷◌, arith, ◌==◌, any, select}

-- `tid in s`
abbrev pub contains : ℕ → List ℕ → Bool
contains tid s = any (λ x. x == tid) s

pub contains-select :
    (p : ℕ → Bool) (tid : ℕ) (s : List ℕ) → contains tid (select p s) ≡ contains tid s && p tid
contains-select p tid [] = refl
contains-select p tid (x ∷ s) = ground (arith, contains-select p tid s)
