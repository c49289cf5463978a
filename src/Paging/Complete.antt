-- ===== src/Paging/Complete.antt =====
-- The loop over pages deals with each row that it should, once, in order, and it ends.
use voltyk_bot_v3_python.Prelude.{
  ℕ, zero, suc, ◌≤◌, ◌<◌, ◌≡◌, ◌≢◌, refl, sym, ap, ◌∙◌, subst, Bool, true, ◌&&◌, Option, some, List,
  [], ◌∷◌, ◌++◌, arith, ltb, leb, if◌then◌else◌, select, length, take, drop, All, All-map, All-take,
  length-take, length-drop, take-append-drop, Bool-cases, if-either, inl, inr,
}
use voltyk_bot_v3_python.Prelude.Sort.{sort_by, insert_by, All-insert_by, All-sort_by}
use voltyk_bot_v3_python.Paging.{rows_after, page, last_id, round, pages}

module _ {R : Type 0} (id : R → ℕ) where
  -- no two rows have one id
  abbrev pub AreDistinct : List R → Type 0
  AreDistinct [] = Unit
  AreDistinct (r ∷ rs) = All (λ s. id r ≢ id s) rs × AreDistinct rs

  -- each id is below those that follow
  abbrev IsRising : List R → Type 0
  IsRising [] = Unit
  IsRising (r ∷ rs) = All (λ s. id r < id s) rs × IsRising rs

  pub All-select {κ} :
      (P : R → Type κ) (q : R → Bool) (rs : List R) → All P rs → All P (select q rs)
  All-select P q [] h = tt
  All-select P q (r ∷ rs) h = elim (Bool-cases (q r)) [
    | inl yes_q ↦ rw yes_q (h.0, All-select P q rs h.1)
    | inr no_q ↦ rw no_q (All-select P q rs h.1)
  ]

  select-AreDistinct : (q : R → Bool) (rs : List R) → AreDistinct rs → AreDistinct (select q rs)
  select-AreDistinct q [] h = tt
  select-AreDistinct q (r ∷ rs) h = elim (Bool-cases (q r)) [
    | inl yes_q ↦ rw yes_q (All-select _ q rs h.0, select-AreDistinct q rs h.1)
    | inr no_q ↦ rw no_q (select-AreDistinct q rs h.1)
  ]

  below-All :
      (r s : R) (rs : List R) → id r < id s → All (λ x. id s < id x) rs → All (λ x. id r < id x) rs
  below-All r s rs h all = All-map (λ x p. omega (arith, h, p)) rs all

  insert_by-IsRising :
      (r : R) (rs : List R) → All (λ s. id r ≢ id s) rs → IsRising rs → IsRising (insert_by id r rs)
  insert_by-IsRising r [] ne h = (tt, tt)
  insert_by-IsRising r (s ∷ rs) ne h = elim (Bool-cases (leb (id r) (id s))) [
    | inl le ↦
        let lt : id r < id s = ground (arith, ne.0) in rw le ((lt, below-All r s rs lt h.0), h)
    | inr gt ↦ rw gt (
      All-insert_by id (λ x. id s < id x) r rs (ground (arith)) h.0,
      insert_by-IsRising r rs ne.1 h.1,
    )
  ]

  sort_by-IsRising : (rs : List R) → AreDistinct rs → IsRising (sort_by id rs)
  sort_by-IsRising [] h = tt
  sort_by-IsRising (r ∷ rs) h =
      insert_by-IsRising r (sort_by id rs) (All-sort_by id _ rs h.0) (sort_by-IsRising rs h.1)

  -- selection from a sorted list
  insert_first : (r : R) (rs : List R) → All (λ s. id r < id s) rs → insert_by id r rs ≡ r ∷ rs
  insert_first r [] h = refl
  insert_first r (s ∷ rs) h = ground (arith)

  select-insert_by :
      (q : R → Bool) (r : R) (rs : List R)
      → All (λ s. id r ≢ id s) rs
      → IsRising rs
      → select q (insert_by id r rs) ≡ (if q r then insert_by id r (select q rs) else select q rs)
  select-insert_by q r [] ne h = refl
  select-insert_by q r (s ∷ rs) ne h = elim (Bool-cases (leb (id r) (id s))) [
    | inl le ↦
        let lt : id r < id s = ground (arith, ne.0) in
        let first =
          insert_first r (select q (s ∷ rs))
            (All-select (λ x. id r < id x) q (s ∷ rs) (lt, below-All r s rs lt h.0)) in
        rw (le, first) refl
    | inr gt ↦ let rest = select-insert_by q r rs ne.1 h.1 in ground (arith, rest)
  ]

  select-sort_by :
      (q : R → Bool) (rs : List R)
      → AreDistinct rs
      → select q (sort_by id rs) ≡ sort_by id (select q rs)
  select-sort_by q [] h = refl
  select-sort_by q (r ∷ rs) h =
      let rest = select-sort_by q rs h.1 in
      select-insert_by q r (sort_by id rs) (All-sort_by id _ rs h.0) (sort_by-IsRising rs h.1)
      ∙ rw rest (ground arith)

  -- what follows a page of a rising list is what lies beyond the page's last row
  beyond : ℕ → R → Bool
  beyond b r = ltb b (id r)

  select-All : (q : R → Bool) (rs : List R) → All (λ r. q r ≡ true) rs → select q rs ≡ rs
  select-All q [] h = refl
  select-All q (r ∷ rs) h = rw (h.0, select-All q rs h.1) refl

  last-ge :
      (b : ℕ) (rs ss : List R)
      → All (λ s. b < id s) (rs ++ ss)
      → IsRising (rs ++ ss)
      → b ≤ last_id id b rs
  last-ge b [] ss h rising = omega arith
  last-ge b (r ∷ rs) ss h rising = omega (arith, h.0, last-ge (id r) rs ss rising.0 rising.1)

  select-beyond :
      (b : ℕ) (rs ss : List R)
      → All (λ s. b < id s) (rs ++ ss)
      → IsRising (rs ++ ss)
      → select (beyond (last_id id b rs)) (rs ++ ss) ≡ ss
  unfolding beyond
  select-beyond b [] ss h rising = select-All _ ss (All-map (λ s p. ground (arith, p)) ss h)
  select-beyond b (r ∷ rs) ss h rising =
      let past = last-ge (id r) rs ss rising.0 rising.1 in
      let rest = select-beyond (id r) rs ss rising.0 rising.1 in ground (arith, past, rest)

  select-select :
      (p : R → Bool) (a b : ℕ) (rs : List R)
      → a ≤ b
      → select (beyond b) (select (λ r. p r && ltb a (id r)) rs)
        ≡ select (λ r. p r && ltb b (id r)) rs
  unfolding beyond
  select-select p a b [] le = refl
  select-select p a b (r ∷ rs) le = ground (arith, select-select p a b rs le)

  select-beyond-All :
      (p : R → Bool) (a : ℕ) (rs : List R)
      → All (λ r. a < id r) (select (λ r. p r && ltb a (id r)) rs)
  select-beyond-All p a [] = tt
  select-beyond-All p a (r ∷ rs) = ground (arith, select-beyond-All p a rs)

  -- the rows after a page are the rest of the rows
  rows_after-next :
      (p : R → Bool) (limit a : ℕ) (table : List R)
      → AreDistinct table
      → rows_after id p (last_id id a (page id p limit a table)) table
        ≡ drop limit (rows_after id p a table)
  unfolding page pages
  rows_after-next p limit a table distinct =
      let found = select (λ r. p r && ltb a (id r)) table in
      let rows = rows_after id p a table in
      let apart = select-AreDistinct (λ r. p r && ltb a (id r)) table distinct in
      let whole = take-append-drop limit rows in
      let above =
        subst (All (λ r. a < id r)) (sym whole)
          (All-sort_by id (λ r. a < id r) found (select-beyond-All p a table)) in
      let rising = subst IsRising (sym whole) (sort_by-IsRising found apart) in
      let b = last_id id a (take limit rows) in
      ap (sort_by id) (
        sym
          (select-select p a b table (last-ge a (take limit rows) (drop limit rows) above rising)))
      ∙ sym (select-sort_by (beyond b) found apart)
      ∙ ap (select (beyond b)) (sym whole)
      ∙ select-beyond a (take limit rows) (drop limit rows) above rising

  le-last_id :
      (b : ℕ) (rs ss : List R)
      → All (λ s. b < id s) (rs ++ ss)
      → IsRising (rs ++ ss)
      → All (λ r. id r ≤ last_id id b rs) rs
  le-last_id b [] ss h rising = tt
  le-last_id b (r ∷ rs) ss h rising =
      (last-ge (id r) rs ss rising.0 rising.1, le-last_id (id r) rs ss rising.0 rising.1)

  -- no row of a page is past its last one
  pub page-le-last_id :
      (p : R → Bool) (limit a : ℕ) (table : List R)
      → AreDistinct table
      → All (λ r. id r ≤ last_id id a (page id p limit a table)) (page id p limit a table)
  unfolding page
  page-le-last_id p limit a table distinct =
      let found = select (λ r. p r && ltb a (id r)) table in
      let rows = rows_after id p a table in
      let apart = select-AreDistinct (λ r. p r && ltb a (id r)) table distinct in
      let whole = take-append-drop limit rows in
      le-last_id a (take limit rows) (drop limit rows)
        (subst (All (λ r. a < id r)) (sym whole)
          (All-sort_by id (λ r. a < id r) found (select-beyond-All p a table)))
        (subst IsRising (sym whole) (sort_by-IsRising found apart))

  -- what holds of a table's rows holds of a page's
  pub All-page {κ} :
      (P : R → Type κ) (p : R → Bool) (limit a : ℕ) (table : List R)
      → All P table
      → All P (page id p limit a table)
  unfolding page
  All-page P p limit a table h =
      All-take P limit (rows_after id p a table)
        (All-sort_by id P _ (All-select P (λ r. p r && ltb a (id r)) table h))

  take_all : (n : ℕ) (rs : List R) → length rs ≤ n → take n rs ≡ rs
  take_all zero [] h = refl
  take_all (suc n) [] h = refl
  take_all zero (r ∷ rs) h = elim h [ ]
  take_all (suc n) (r ∷ rs) h = ap (◌∷◌ r) (take_all n rs (omega (arith, h)))

module _ {R : Type 0} (id : R → ℕ) (p : R → Bool) (limit : ℕ) (handle : List R → List R → List R)
    (Good : List R → Type 0) where
  -- what a table must keep while a batch is dealt with: distinct ids, and the rows beyond the batch
  pub record IsKept (a : ℕ) (table : List R) : Type 0 where
    pub distinct : AreDistinct id table
    pub good : Good (handle (page id p limit a table) table)
    pub rows :
        rows_after id p
          (last_id id a (page id p limit a table))
          (handle (page id p limit a table) table)
        ≡ rows_after id p (last_id id a (page id p limit a table)) table

  -- the loop gives these rows, and a table that is still good
  abbrev pub Deals : List R → Option (List R × List R) → Type 0
  Deals rows o = (table' : List R) × (o ≡ some (rows, table')) × Good table'

  -- One round: its batch, and the rows that are left.
  round-Deals :
      (table rows left batch : List R) (rest : Option (List R × List R))
      → take limit rows ≡ batch
      → drop limit rows ≡ left
      → 1 ≤ limit
      → Good (handle batch table)
      → (limit ≤ length rows → Deals left rest)
      → Good table
      → Deals rows (round id p limit handle batch table rest)
  round-Deals table rows left [] o t d some_limit g rest g0 =
      let none_left : length rows ≡ 0 = omega (arith, length-take limit rows, ap length t) in
      let empty : rows ≡ [] = sym (take_all id limit rows (omega (arith, none_left))) ∙ t in
      (table, ap (λ rs. some (rs, table)) (sym empty), g0)
  round-Deals table rows left (r ∷ rs) o t d some_limit g rest g0 =
      if-either (Deals rows) (ltb (length (r ∷ rs)) limit) (some (r ∷ rs, handle (r ∷ rs) table)) _
        (λ short.
          let fits : length rows ≤ limit = ground (arith, length-take limit rows, ap length t) in
          let all = sym t ∙ take_all id limit rows fits in
          (handle (r ∷ rs) table, ap (λ xs. some (xs, handle (r ∷ rs) table)) all, g))
        (λ full.
          let (table', done, g') = rest (ground (arith, length-take limit rows, ap length t)) in
          let all =
            ap (λ xs. xs ++ left) (sym t)
            ∙ ap (λ xs. take limit rows ++ xs) (sym d)
            ∙ take-append-drop limit rows in
          rw done (table', ap (λ xs. some (xs, table')) all, g'))

  -- With fuel for each row, the loop ends, and has dealt with all the rows after the start, each
  -- once and in order, whatever becomes of the rows that it has passed.
  pub pages-Complete :
      ((a : ℕ) (table : List R) → Good table → IsKept a table)
      → 1 ≤ limit
      → (fuel a : ℕ) (table : List R) → Good table
      → length (rows_after id p a table) < fuel
      → Deals (rows_after id p a table) (pages id p limit handle fuel a table)
  unfolding page pages
  pages-Complete keeps some_limit zero a table g enough = elim enough [ ]
  pages-Complete keeps some_limit (suc fuel) a table g enough =
      let k = keeps a table g in
      let rows = rows_after id p a table in
      let b = last_id id a (page id p limit a table) in
      let next = k.rows ∙ rows_after-next id p limit a table k.distinct in
      round-Deals table rows (drop limit rows) (page id p limit a table) _ refl refl some_limit
        k.good
        (λ full.
          subst
            (λ rs.
              Deals rs (pages id p limit handle fuel b (handle (page id p limit a table) table)))
            next
            (pages-Complete keeps some_limit fuel b (handle (page id p limit a table) table) k.good
              (omega (arith, full, enough, ap length next, length-drop limit rows))))
        g
