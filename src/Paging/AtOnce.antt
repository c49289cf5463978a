-- ===== src/Paging/AtOnce.antt =====
-- What the loop over pages leaves: the table of dealing with all its rows at once.
use voltyk_bot_v3_python.Prelude.{
  ℕ, zero, suc, ◌≡◌, refl, sym, ap, ◌∙◌, Bool, ◌&&◌, ◌||◌, Option, none, some, List, [], ◌∷◌, ◌++◌,
  arith, ltb, select, length, any, if-either,
}
use voltyk_bot_v3_python.Prelude.Sort.{sort_by, insert_by}
use voltyk_bot_v3_python.Paging.{page, last_id, round, pages}

-- The table that a loop over pages leaves is that of dealing with its rows at once.
module _ {R : Type 0} (id : R → ℕ) (p : R → Bool) (limit : ℕ) (handle : List R → List R → List R)
    (nothing : (table : List R) → handle [] table ≡ table)
    (both : (xs ys table : List R) → handle (xs ++ ys) table ≡ handle ys (handle xs table)) where
  abbrev pub AtOnce : List R → Option (List R × List R) → Type 0
  AtOnce table none = Unit
  AtOnce table (some (rows, table')) = table' ≡ handle rows table

  round-AtOnce :
      (batch table : List R) (rest : Option (List R × List R))
      → AtOnce (handle batch table) rest
      → AtOnce table (round id p limit handle batch table rest)
  round-AtOnce [] table rest h = sym (nothing table)
  round-AtOnce (r ∷ rs) table none h =
      if-either (AtOnce table) (ltb (length (r ∷ rs)) limit) _ none (λ e. refl) (λ e. tt)
  round-AtOnce (r ∷ rs) table (some (later, table')) h =
      if-either (AtOnce table) (ltb (length (r ∷ rs)) limit) _ (some (r ∷ rs ++ later, table'))
        (λ e. refl) (λ e. h ∙ sym (both (r ∷ rs) later table))

  pub pages-AtOnce :
      (fuel a : ℕ) (table : List R) → AtOnce table (pages id p limit handle fuel a table)
  unfolding pages
  pages-AtOnce zero a table = tt
  pages-AtOnce (suc fuel) a table =
      let batch = page id p limit a table in
      round-AtOnce batch table _ (pages-AtOnce fuel (last_id id a batch) (handle batch table))

any-insert_by :
    {A : Type 0} (q : A → Bool) (key : A → ℕ) (x : A) (xs : List A)
    → any q (insert_by key x xs) ≡ (q x || any q xs)
any-insert_by q key x [] = refl
any-insert_by q key x (y ∷ ys) = ground (arith, any-insert_by q key x ys)

pub any-sort_by :
    {A : Type 0} (q : A → Bool) (key : A → ℕ) (xs : List A) → any q (sort_by key xs) ≡ any q xs
any-sort_by q key [] = refl
any-sort_by q key (x ∷ xs) =
    any-insert_by q key x (sort_by key xs) ∙ ap (λ b. q x || b) (any-sort_by q key xs)

pub any-select :
    {A : Type 0} (q p : A → Bool) (xs : List A) → any q (select p xs) ≡ any (λ x. p x && q x) xs
any-select q p [] = refl
any-select q p (x ∷ xs) = ground (arith, any-select q p xs)
