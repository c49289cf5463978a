-- ===== src/Commits/Tests.antt =====
-- `check_source_repo_updated` against a server with the commits 5 and 6.
use native.Mathlib.Decide.{ℕ_discrete}
use voltyk_bot_v3_python.Prelude.{ℕ, ◌≡◌, refl, true, false, Option, none, some, List, [], ◌∷◌}
use voltyk_bot_v3_python.Commits.{Seen, check_source_repo_updated}
use voltyk_bot_v3_python.Commits.Changes.{reports, changes, nothing_seen, reports-changes}

abbrev at_start : Seen ℕ ℕ
at_start = record { last_commit_sha = none; last_etag = none }

abbrev heads : List (Option ℕ)
heads = some 5 ∷ some 5 ∷ none ∷ some 6 ∷ some 6 ∷ []

reports_of_heads :
    reports ℕ_discrete ℕ_discrete (λ n. n) at_start heads ≡ true ∷ false ∷ true ∷ true ∷ false ∷ []
unfolding reports check_source_repo_updated ℕ_discrete
reports_of_heads = refl

reports-changes_example :
    reports ℕ_discrete ℕ_discrete (λ n. n) at_start heads
    ≡ changes ℕ_discrete ℕ_discrete (λ n. n) at_start.last_commit_sha heads
reports-changes_example =
    reports-changes ℕ_discrete ℕ_discrete (λ n. n) (λ a b e. e) heads at_start nothing_seen
