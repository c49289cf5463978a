-- ===== src/Paging.antt =====
-- The walk through a table page by page that the loops of bot/services share: a query
-- `WHERE p AND id > after_id ORDER BY id LIMIT limit`, and the loop that asks for page after page.
pub mod Complete
pub mod AtOnce
use voltyk_bot_v3_python.Prelude.{
  ℕ, zero, suc, Bool, true, false, ◌&&◌, Option, none, some, List, [], ◌∷◌, ◌++◌, ltb,
  if◌then◌else◌, select, length, take,
}
use voltyk_bot_v3_python.Prelude.Sort.{sort_by}

module _ {R : Type 0} (id : R → ℕ) where
  -- all the rows that the pages after this id have, in order
  abbrev pub rows_after : (R → Bool) → ℕ → List R → List R
  rows_after p after_id table = sort_by id (select (λ r. p r && ltb after_id (id r)) table)

  -- a query with a cursor
  unfoldable pub page : (R → Bool) → ℕ → ℕ → List R → List R
  page p limit after_id table = take limit (rows_after p after_id table)

  -- `batch[-1].id`
  abbrev pub last_id : ℕ → List R → ℕ
  last_id before [] = before
  last_id before (r ∷ rs) = last_id (id r) rs

module _ {R : Type 0} (id : R → ℕ) (p : R → Bool) (limit : ℕ)
    (handle : List R → List R → List R) where
  -- a round, with what the rounds after it give
  abbrev pub round : List R → List R → Option (List R × List R) → Option (List R × List R)
  round [] table rest = some ([], table)
  round (r ∷ rs) table rest =
      if ltb (length (r ∷ rs)) limit
      then some (r ∷ rs, handle (r ∷ rs) table)
      else elim rest [ none ↦ none | some (later, table') ↦ some (r ∷ rs ++ later, table') ]

  -- The loop, where `handle` is what becomes of the table while a batch is dealt with. It gives the
  -- rows that were dealt with, in order, and the table; None is a loop that has not ended.
  unfoldable pub pages : ℕ → ℕ → List R → Option (List R × List R)
  pages zero after_id table = none
  pages (suc fuel) after_id table =
      let batch = page id p limit after_id table in
      round batch table (pages fuel (last_id id after_id batch) (handle batch table))
