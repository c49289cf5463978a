-- ===== src/Commits/Changes.antt =====
-- The checks of `check_source_repo_updated` in a row, against a server that keeps its word.
use voltyk_bot_v3_python.Prelude.{
  ◌≡◌, refl, sym, ap, Bool, true, false, Option, none, some, List, [], ◌∷◌,
}
use voltyk_bot_v3_python.Commits.{
  commit, Reply, not_modified, ok, raised, Seen, compare_by, check_source_repo_updated,
}

module _ {Sha Tag : Type 0} (dec : Discrete Sha) (dec_tag : Discrete Tag) (tag_of : Sha → Tag) where
  -- How the server answers while this commit is the newest one: with a 304 if `If-None-Match`
  -- names its ETag. None is a request that fails.
  abbrev pub reply_of : Option Sha → Option Tag → Reply Sha Tag
  reply_of none etag = raised
  reply_of (some head) none = ok (some (tag_of head)) (commit head)
  reply_of (some head) (some etag) = elim (dec_tag etag (tag_of head)) [
    | yes same ↦ not_modified
    | no other ↦ ok (some (tag_of head)) (commit head)
  ]

  -- the check's answers, one for each request
  unfoldable pub reports : Seen Sha Tag → List (Option Sha) → List Bool
  reports s [] = []
  reports s (head ∷ heads) =
      let (s', report) = check_source_repo_updated dec (reply_of head s.last_etag) s in
      report.has_update ∷ reports s' heads

  -- Which of them should be true: a request that fails, the first commit, and one that is not
  -- the one before.
  unfoldable pub changes : Option Sha → List (Option Sha) → List Bool
  changes last [] = []
  changes last (none ∷ heads) = true ∷ changes last heads
  changes none (some head ∷ heads) = true ∷ changes (some head) heads
  changes (some last) (some head ∷ heads) = elim (dec head last) [
    | yes same ↦ false ∷ changes (some last) heads
    | no new ↦ true ∷ changes (some head) heads
  ]

  -- The ETag that is kept, if any, is that of the commit that is kept.
  pub data IsSynced : Seen Sha Tag → Type 0 where
    nothing_seen : IsSynced (record { last_commit_sha = none; last_etag = none })
    only_sha : (s : Sha) → IsSynced (record { last_commit_sha = some s; last_etag = none })
    both : (s : Sha) → IsSynced (record { last_commit_sha = some s; last_etag = some (tag_of s) })

  IsSynced-head :
      (s head : Sha)
      → head ≡ s
      → IsSynced (record { last_commit_sha = some s; last_etag = some (tag_of head) })
  IsSynced-head s head same = rw same (both s)

  -- the goal for a commit that is compared with the one seen last
  abbrev Agrees : (s head : Sha) → List (Option Sha) → Dec (head ≡ s) → Type 0
  Agrees s head heads o =
      (let (s', report) =
          compare_by dec o (record { last_commit_sha = some s; last_etag = some (tag_of head) }) in
        report.has_update ∷ reports s' heads)
      ≡ elim o [
        | yes same ↦ false ∷ changes (some s) heads
        | no new ↦ true ∷ changes (some head) heads
      ]

  -- the comparison of the SHAs, once the ETag is noted
  agrees :
      (s head : Sha) (heads : List (Option Sha))
      → ((seen : Seen Sha Tag)
          → IsSynced seen
          → reports seen heads ≡ changes seen.last_commit_sha heads)
      → (o : Dec (head ≡ s)) → Agrees s head heads o
  agrees s head heads rest (yes same) = ap (λ r. false ∷ r) (rest _ (IsSynced-head s head same))
  agrees s head heads rest (no new) = ap (λ r. true ∷ r) (rest _ (both head))

  -- Where different commits have different ETags, a row of checks from a state in which the ETag
  -- is that of the commit reports an update exactly where one is due: the 304s and the failed
  -- requests in between hide no change and invent none.
  pub reports-changes :
      ((a b : Sha) → tag_of a ≡ tag_of b → a ≡ b)
      → (heads : List (Option Sha)) → (s : Seen Sha Tag) → IsSynced s
      → reports s heads ≡ changes s.last_commit_sha heads
  unfolding reports changes check_source_repo_updated
  reports-changes inj [] s sync = refl
  reports-changes inj (none ∷ heads) s sync = ap (λ r. true ∷ r) (reports-changes inj heads s sync)
  reports-changes inj (some head ∷ heads) _ nothing_seen =
      ap (λ r. true ∷ r) (reports-changes inj heads _ (both head))
  reports-changes inj (some head ∷ heads) _ (only_sha s) =
      agrees s head heads (reports-changes inj heads) (dec head s)
  reports-changes inj (some head ∷ heads) _ (both s) =
      elim (dec_tag (tag_of s) (tag_of head))
        as (λ o.
          (let (s', report) =
              check_source_repo_updated dec
                (elim o [
                  | yes same ↦ not_modified
                  | no other ↦ ok (some (tag_of head)) (commit head)
                ])
                (record { last_commit_sha = some s; last_etag = some (tag_of s) }) in
            report.has_update ∷ reports s' heads)
          ≡ elim (dec head s) [
            | yes same ↦ false ∷ changes (some s) heads
            | no new ↦ true ∷ changes (some head) heads
          ]) [
            | yes e ↦
                elim (dec head s)
                  as (λ o.
                    false
                      ∷ reports (record { last_commit_sha = some s; last_etag = some (tag_of s) })
                          heads
                    ≡ elim o [
                      | yes same ↦ false ∷ changes (some s) heads
                      | no new ↦ true ∷ changes (some head) heads
                    ]) [
                      | yes same ↦ ap (λ r. false ∷ r) (reports-changes inj heads _ (both s))
                      | no new ↦ absurd (new (sym (inj s head e)))
                    ]
            | no ne ↦ agrees s head heads (reports-changes inj heads) (dec head s)
          ]
