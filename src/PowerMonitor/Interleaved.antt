-- ===== src/PowerMonitor/Interleaved.antt =====
-- The orders in which tasks run that asyncio.gather starts, bot/services/power_monitor.py.
use voltyk_bot_v3_python.Prelude.{
  ◌≡◌, refl, ap, ◌∙◌, Bool, false, ◌||◌, List, [], ◌∷◌, arith, any, All,
}

-- One list from two, and from several, each of which keeps its order.
pub data Merged {A : Type 0} : List A → List A → List A → Type 0 where
  finished : Merged [] [] []
  first : (x : A) (xs ys zs : List A) → Merged xs ys zs → Merged (x ∷ xs) ys (x ∷ zs)
  second : (y : A) (xs ys zs : List A) → Merged xs ys zs → Merged xs (y ∷ ys) (y ∷ zs)

pub data Interleaved {A : Type 0} : List (List A) → List A → Type 0 where
  empty : Interleaved [] []
  with_list :
      (xs : List A) (xss : List (List A)) (rest zs : List A)
      → Interleaved xss rest
      → Merged xs rest zs
      → Interleaved (xs ∷ xss) zs

-- whether a test holds somewhere in some list
abbrev pub any_in : {A : Type 0} → (A → Bool) → List (List A) → Bool
any_in p [] = false
any_in p (xs ∷ xss) = any p xs || any_in p xss

module _ {A : Type 0} (p : A → Bool) where
  any-Merged : (xs ys zs : List A) → Merged xs ys zs → any p zs ≡ (any p xs || any p ys)
  any-Merged _ _ _ finished = refl
  any-Merged _ _ _ (first x xs ys zs m) = ground (arith, any-Merged xs ys zs m)
  any-Merged _ _ _ (second y xs ys zs m) = ground (arith, any-Merged xs ys zs m)

  pub any-Interleaved :
      (xss : List (List A)) (zs : List A) → Interleaved xss zs → any p zs ≡ any_in p xss
  any-Interleaved _ _ empty = refl
  any-Interleaved _ _ (with_list xs xss rest zs i m) =
      any-Merged xs rest zs m ∙ ap (λ b. any p xs || b) (any-Interleaved xss rest i)

module _ {A : Type 0} (P : A → Type 0) where
  All-Merged : (xs ys zs : List A) → Merged xs ys zs → All P xs → All P ys → All P zs
  All-Merged _ _ _ finished hx hy = tt
  All-Merged _ _ _ (first x xs ys zs m) hx hy = (hx.0, All-Merged xs ys zs m hx.1 hy)
  All-Merged _ _ _ (second y xs ys zs m) hx hy = (hy.0, All-Merged xs ys zs m hx hy.1)

  pub All-Interleaved :
      (xss : List (List A)) (zs : List A) → Interleaved xss zs → All (λ xs. All P xs) xss → All P zs
  All-Interleaved _ _ empty h = tt
  All-Interleaved _ _ (with_list xs xss rest zs i m) h =
      All-Merged xs rest zs m h.0 (All-Interleaved xss rest i h.1)
