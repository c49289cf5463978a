-- ===== src/Prelude/Dict.antt =====
-- Python's dict, in insertion order, over keys with a decidable equality.
use mathlib.Core.Logic.{ite, ◌≢◌}
use mathlib.Core.Path.{◌≡◌, refl}
use mathlib.Core.Bool.{Bool, true, false}
use mathlib.Core.Option.{Option, none, some}
use mathlib.Core.List.{List, [], ◌∷◌}
use Prim.Native.Nat.{ℕ, zero, suc, ◌+◌, ◌-◌, ◌≤◌}
use native.Mathlib.Omega.{arith}
use voltyk_bot_v3_python.Prelude.Tests.{if◌then◌else◌, is_some}
use voltyk_bot_v3_python.Prelude.Lists.{length, length-take, All, All-take, select, take}
use voltyk_bot_v3_python.Prelude.Sort.{insert_by, sort_by, length-sort_by, All-sort_by}

abbrev pub Dict {ℓ} : Type ℓ → Type ℓ → Type ℓ
Dict K V = List (K × V)

abbrev pub keys {ℓ} : {K V : Type ℓ} → Dict K V → List K
keys [] = []
keys ((k, _) ∷ d) = k ∷ keys d

module _ {ℓ} {K V : Type ℓ} (dec : Discrete K) where
  -- `d.get(k)`
  abbrev pub get : K → Dict K V → Option V
  get k [] = none
  get k (e ∷ d) = ite (dec k e.0) (some e.1) (get k d)

  -- `k in d`
  abbrev pub contains : K → Dict K V → Bool
  contains k d = is_some (get k d)

  -- `d[k] = v`: a key that is there keeps its place
  abbrev pub insert : K → V → Dict K V → Dict K V
  insert k v [] = (k, v) ∷ []
  insert k v (e ∷ d) = ite (dec k e.0) ((k, v) ∷ d) (e ∷ insert k v d)

  -- `d.pop(k, None)`, `del d[k]`
  abbrev pub remove : K → Dict K V → Dict K V
  remove k [] = []
  remove k (e ∷ d) = ite (dec k e.0) (remove k d) (e ∷ remove k d)

  pub get-insert :
      (j k : K) (v : V) (d : Dict K V) → get j (insert k v d) ≡ ite (dec j k) (some v) (get j d)
  get-insert j k v [] = refl
  get-insert j k v (e ∷ d) = ground (arith, get-insert j k v d)

  pub get-insert_self : (k : K) (v : V) (d : Dict K V) → get k (insert k v d) ≡ some v
  get-insert_self k v d = ground (arith, get-insert k k v d)

  pub get-insert_ne : (j k : K) (v : V) (d : Dict K V) → j ≢ k → get j (insert k v d) ≡ get j d
  get-insert_ne j k v d h = ground (arith, get-insert j k v d)

  pub get-remove : (j k : K) (d : Dict K V) → get j (remove k d) ≡ ite (dec j k) none (get j d)
  get-remove j k [] = ground arith
  get-remove j k (e ∷ d) = ground (arith, get-remove j k d)

  pub length-remove-le : (k : K) (d : Dict K V) → length (remove k d) ≤ length d
  length-remove-le k [] = omega arith
  length-remove-le k (e ∷ d) = ground (arith, length-remove-le k d)

  pub length-insert-le : (k : K) (v : V) (d : Dict K V) → length (insert k v d) ≤ length d + 1
  length-insert-le k v [] = omega arith
  length-insert-le k v (e ∷ d) = ground (arith, length-insert-le k v d)

  -- The keys of a dict are pairwise different.
  abbrev pub IsDict : Dict K V → Type ℓ
  IsDict [] = Unit
  IsDict (e ∷ d) = (get e.0 d ≡ none) × IsDict d

  pub insert-IsDict : (k : K) (v : V) (d : Dict K V) → IsDict d → IsDict (insert k v d)
  insert-IsDict k v [] h = (refl, tt)
  insert-IsDict k v (e ∷ d) h = ground (arith, insert-IsDict k v d h.1, get-insert e.0 k v d)

  pub remove-IsDict : (k : K) (d : Dict K V) → IsDict d → IsDict (remove k d)
  remove-IsDict k [] h = tt
  remove-IsDict k (e ∷ d) h = ground (arith, remove-IsDict k d h.1, get-remove e.0 k d)

  pub get-select-none :
      (p : K × V → Bool) (k : K) (d : Dict K V) → get k d ≡ none → get k (select p d) ≡ none
  get-select-none p k [] h = refl
  get-select-none p k (e ∷ d) h = ground (arith, get-select-none p k d)

  same_entry :
      (p : K × V → Bool) (k j : K) (v w : V) → k ≡ j → some w ≡ some v → p (j, w) ≡ p (k, v)
  same_entry p k j v w e f = let f' : w ≡ v = cc in cc

  pub get-select-some :
      (p : K × V → Bool) (k : K) (v : V) (d : Dict K V)
      → get k d ≡ some v
      → p (k, v) ≡ true
      → get k (select p d) ≡ some v
  get-select-some p k v [] h q = cc
  get-select-some p k v ((j, w) ∷ d) h q =
      ground (arith, same_entry p k j v w, get-select-some p k v d)

  pub select-IsDict : (p : K × V → Bool) (d : Dict K V) → IsDict d → IsDict (select p d)
  select-IsDict p [] h = tt
  select-IsDict p (e ∷ d) h = ground (arith, select-IsDict p d h.1, get-select-none p e.0 d h.0)

  remove_absent : (k : K) (d : Dict K V) → get k d ≡ none → remove k d ≡ d
  remove_absent k [] h = refl
  remove_absent k (e ∷ d) h = ground (arith, remove_absent k d)

  pub length-remove :
      (k : K) (d : Dict K V) → IsDict d → get k d ≢ none → length (remove k d) + 1 ≡ length d
  length-remove k [] v h = absurd (h refl)
  length-remove k (e ∷ d) v h = ground (arith, length-remove k d v.1, remove_absent k d)

  -- `for k, _ in victims: del d[k]`
  abbrev pub remove_all : Dict K V → Dict K V → Dict K V
  remove_all [] d = d
  remove_all (e ∷ victims) d = remove_all victims (remove e.0 d)

  pub remove_all-IsDict : (victims d : Dict K V) → IsDict d → IsDict (remove_all victims d)
  remove_all-IsDict [] d h = h
  remove_all-IsDict (e ∷ victims) d h =
      remove_all-IsDict victims (remove e.0 d) (remove-IsDict e.0 d h)

  survive :
      (k : K) (victims d : Dict K V)
      → get k victims ≡ none
      → All (λ e. get e.0 d ≢ none) victims
      → All (λ e. get e.0 (remove k d) ≢ none) victims
  survive k [] d n h = tt
  survive k (e ∷ victims) d n h =
      ground (arith, get-remove e.0 k d, survive k victims d (ground arith) h.1)

  -- To delete n keys that are there, and pairwise different, shortens a dict by n.
  pub length-remove_all :
      (victims d : Dict K V)
      → IsDict d
      → IsDict victims
      → All (λ e. get e.0 d ≢ none) victims
      → length (remove_all victims d) + length victims ≡ length d
  length-remove_all [] d v w h = omega arith
  length-remove_all (e ∷ victims) d v w h = omega (
    arith,
    length-remove e.0 d v h.0,
    length-remove_all victims (remove e.0 d) (remove-IsDict e.0 d v) w.1
        (survive e.0 victims d w.0 h.1),
  )

  pub get-remove_all-none :
      (k : K) (victims d : Dict K V) → get k d ≡ none → get k (remove_all victims d) ≡ none
  get-remove_all-none k [] d h = h
  get-remove_all-none k (e ∷ victims) d h =
      get-remove_all-none k victims (remove e.0 d) (ground (arith, get-remove k e.0 d))

  pub get-remove_all :
      (k : K) (victims d : Dict K V)
      → get k (remove_all victims d) ≡ (if is_some (get k victims) then none else get k d)
  get-remove_all k [] d = refl
  get-remove_all k (e ∷ victims) d =
      ground (arith, get-remove_all k victims (remove e.0 d), get-remove k e.0 d)

  -- Order does not matter to what a key is found under, nor does a prefix add keys.
  get-insert_by_none :
      (key : K × V → ℕ) (k : K) (x : K × V) (d : Dict K V)
      → is_some (get k (insert_by key x d)) ≡ is_some (get k (x ∷ d))
  get-insert_by_none key k x [] = refl
  get-insert_by_none key k x (e ∷ d) = ground (arith, get-insert_by_none key k x d)

  pub contains-sort_by :
      (key : K × V → ℕ) (k : K) (d : Dict K V) → contains k (sort_by key d) ≡ contains k d
  contains-sort_by key k [] = refl
  contains-sort_by key k (e ∷ d) =
      ground (arith, get-insert_by_none key k e (sort_by key d), contains-sort_by key k d)

  none_of_not-contains : (k : K) (d : Dict K V) → contains k d ≡ false → get k d ≡ none
  none_of_not-contains k d h = ground arith

  insert_by-IsDict :
      (key : K × V → ℕ) (x : K × V) (d : Dict K V)
      → get x.0 d ≡ none
      → IsDict d
      → IsDict (insert_by key x d)
  insert_by-IsDict key x [] n h = (refl, tt)
  insert_by-IsDict key x (e ∷ d) n h =
      ground (arith, insert_by-IsDict key x d, get-insert_by_none key e.0 x d)

  pub sort_by-IsDict : (key : K × V → ℕ) (d : Dict K V) → IsDict d → IsDict (sort_by key d)
  sort_by-IsDict key [] h = tt
  sort_by-IsDict key (e ∷ d) h =
      insert_by-IsDict key e (sort_by key d)
        (none_of_not-contains e.0 (sort_by key d) (ground (arith, contains-sort_by key e.0 d)))
        (sort_by-IsDict key d h.1)

  get-take-none : (k : K) (n : ℕ) (d : Dict K V) → get k d ≡ none → get k (take n d) ≡ none
  get-take-none k zero d h = refl
  get-take-none k (suc n) [] h = refl
  get-take-none k (suc n) (e ∷ d) h = ground (arith, get-take-none k n d)

  pub take-IsDict : (n : ℕ) (d : Dict K V) → IsDict d → IsDict (take n d)
  take-IsDict zero d h = tt
  take-IsDict (suc n) [] h = tt
  take-IsDict (suc n) (e ∷ d) h = (get-take-none e.0 n d h.0, take-IsDict n d h.1)

  -- every entry of a dict is found in a dict that has its keys
  found :
      (d u : Dict K V)
      → ((k : K) → contains k d ≡ true → contains k u ≡ true)
      → All (λ e. get e.0 u ≢ none) d
  found [] u h = tt
  found (e ∷ d) u h = (ground (arith, h e.0), found d u (λ k c. h k (ground arith)))

  -- `sorted(d.items(), key=...)[:n]`, each of which is then deleted from `d`
  abbrev pub evict : (K × V → ℕ) → ℕ → Dict K V → Dict K V
  evict key n d = remove_all (take n (sort_by key d)) d

  pub evict-IsDict : (key : K × V → ℕ) (n : ℕ) (d : Dict K V) → IsDict d → IsDict (evict key n d)
  evict-IsDict key n d h = remove_all-IsDict (take n (sort_by key d)) d h

  pub length-evict :
      (key : K × V → ℕ) (n : ℕ) (d : Dict K V) → IsDict d → length (evict key n d) ≡ length d - n
  length-evict key n d h = omega (
    arith,
    length-remove_all (take n (sort_by key d)) d h
        (take-IsDict n (sort_by key d) (sort_by-IsDict key d h))
        (All-take (λ e. get e.0 d ≢ none) n (sort_by key d)
          (All-sort_by key (λ e. get e.0 d ≢ none) d (found d d (λ k c. c)))),
    length-take n (sort_by key d),
    length-sort_by key d,
  )
