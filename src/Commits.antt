-- ===== src/Commits.antt =====
-- bot/services/api.py: `check_source_repo_updated`. A commit's SHA and an ETag are of types that
-- are parameters (GitHub documents both as texts); an empty ETag counts as none.
pub mod Changes
mod Tests
use voltyk_bot_v3_python.Prelude.{◌≡◌, Bool, true, false, Option, none, some, List, [], ◌∷◌}

-- The body of a 200: larger than `_MAX_COMMIT_RESPONSE`, no JSON, JSON that is no list of objects
-- with a "sha" (or an empty one), or a list whose first object has this one.
pub data Body (Sha : Type 0) : Type 0 where
  too_large unreadable unexpected : Body Sha
  commit : Sha → Body Sha

-- What the request meets: a 304, a 200 with its ETag, another status, or an exception.
pub data Reply (Sha Tag : Type 0) : Type 0 where
  not_modified : Reply Sha Tag
  ok : Option Tag → Body Sha → Reply Sha Tag
  other_status raised : Reply Sha Tag

-- `_last_commit_sha` and `_last_etag`
pub record Seen (Sha Tag : Type 0) : Type 0 where
  pub last_commit_sha : Option Sha
  pub last_etag : Option Tag

-- The pair that is returned, and whether `_save_commit_state` is scheduled.
pub record Report (Sha : Type 0) : Type 0 where
  pub has_update : Bool
  pub new_sha : Option Sha
  pub saves : Bool

-- "falling back to full fetch"
abbrev pub full_check : {Sha : Type 0} → Report Sha
full_check = record { has_update = true; new_sha = none; saves = false }

module _ {Sha Tag : Type 0} (dec : Discrete Sha) where
  -- `if new_etag: _last_etag = new_etag`
  abbrev pub note_etag : Option Tag → Seen Sha Tag → Seen Sha Tag
  note_etag none s = s
  note_etag (some tag) s = record s { last_etag = some tag }

  -- `if new_sha != _last_commit_sha`
  abbrev pub compare_by :
      {last new_sha : Sha} → Dec (new_sha ≡ last) → Seen Sha Tag → Seen Sha Tag × Report Sha
  compare_by {last} {new_sha} (yes same) s =
      (s, record { has_update = false; new_sha = none; saves = false })
  compare_by {last} {new_sha} (no new) s = (
    record s { last_commit_sha = some new_sha },
    record { has_update = true; new_sha = some new_sha; saves = true },
  )

  -- the first commit of the list, against the one seen last
  abbrev pub compare_sha : Option Sha → Sha → Seen Sha Tag → Seen Sha Tag × Report Sha
  compare_sha none new_sha s = (
    record s { last_commit_sha = some new_sha },
    record { has_update = true; new_sha = none; saves = true },
  )
  compare_sha (some last) new_sha s = compare_by (dec new_sha last) s

  abbrev pub check_body : Body Sha → Seen Sha Tag → Seen Sha Tag × Report Sha
  check_body too_large s = (s, full_check)
  check_body unreadable s = (s, full_check)
  check_body unexpected s = (s, full_check)
  check_body (commit new_sha) s = compare_sha s.last_commit_sha new_sha s

  -- `check_source_repo_updated`, with the reply to its request
  unfoldable pub check_source_repo_updated :
      Reply Sha Tag → Seen Sha Tag → Seen Sha Tag × Report Sha
  check_source_repo_updated not_modified s =
      (s, record { has_update = false; new_sha = none; saves = false })
  check_source_repo_updated (ok new_etag content) s = check_body content (note_etag new_etag s)
  check_source_repo_updated other_status s = (s, full_check)
  check_source_repo_updated raised s = (s, full_check)
