-- ===== src/Schedule/Periods.antt =====
-- The lists of periods: their shape, and what they cover.
use voltyk_bot_v3_python.Prelude.{
  ℕ, ◌≤◌, ◌<◌, ◌≡◌, refl, sym, ◌∙◌, Bool, false, ◌&&◌, ◌||◌, List, [], ◌∷◌, ltb, leb, ◌==◌, arith,
  Bool-cases, inl, inr, ◌++◌, ap,
}
use mathlib.Core.List.{append-nil, append_assoc}
use voltyk_bot_v3_python.Schedule.{Period, add_or_extend, merge_into, merge_consecutive}

-- Periods in order, none of them empty and no two that touch, all of them over by `limit`.
abbrev pub IsSpaced : ℕ → List Period → Type 0
IsSpaced limit [] = Unit
IsSpaced limit (p ∷ []) = (p.start < p.end) × (p.end ≤ limit)
IsSpaced limit (p ∷ q ∷ ps) = (p.start < p.end) × (p.end < q.start) × IsSpaced limit (q ∷ ps)

abbrev pub in_period : ℕ → Period → Bool
in_period s p = leb p.start s && ltb s p.end

-- whether the half hour `s` lies in one of the periods
abbrev pub covers : List Period → ℕ → Bool
covers [] s = false
covers (p ∷ ps) s = in_period s p || covers ps s

pub IsSpaced-mono : (l m : ℕ) (ps : List Period) → l ≤ m → IsSpaced l ps → IsSpaced m ps
IsSpaced-mono l m [] h v = tt
IsSpaced-mono l m (p ∷ []) h v = omega arith
IsSpaced-mono l m (p ∷ q ∷ ps) h v = (v.0, v.1, IsSpaced-mono l m (q ∷ ps) h v.2)

end-le : (l : ℕ) (p : Period) (ps : List Period) → IsSpaced l (p ∷ ps) → p.end ≤ l
end-le l p [] v = v.1
end-le l p (q ∷ ps) v = omega (arith, end-le l q ps v.2, start-lt-end l q ps v.2)
  where
    start-lt-end : (l : ℕ) (q : Period) (ps : List Period) → IsSpaced l (q ∷ ps) → q.start < q.end
    start-lt-end l q [] v = v.0
    start-lt-end l q (r ∷ ps) v = v.0

pub covers-beyond : (l : ℕ) (ps : List Period) (s : ℕ) → IsSpaced l ps → l ≤ s → covers ps s ≡ false
covers-beyond l [] s v h = refl
covers-beyond l (p ∷ []) s v h = ground arith
covers-beyond l (p ∷ q ∷ ps) s v h =
    ground (arith, covers-beyond l (q ∷ ps) s v.2 h, end-le l p (q ∷ ps) v)

-- An added half-open interval is covered, and nothing else changes.
pub covers-add_or_extend :
    (l a b s : ℕ) (ps : List Period)
    → IsSpaced l ps
    → l ≤ a
    → a < b
    → covers (add_or_extend ps a b) s ≡ (covers ps s || (leb a s && ltb s b))
unfolding add_or_extend
covers-add_or_extend l a b s [] v h k = ground arith
covers-add_or_extend l a b s (p ∷ []) v h k = ground arith
covers-add_or_extend l a b s (p ∷ q ∷ ps) v h k =
    ground (arith, covers-add_or_extend l a b s (q ∷ ps) v.2 h k)

-- The first period that a longer list begins with keeps its start.
starts-add_or_extend :
    (a b : ℕ) (q : Period) (ps : List Period)
    → (q' : Period) × (ps' : List Period) × (add_or_extend (q ∷ ps) a b ≡ q' ∷ ps')
      × (q'.start ≡ q.start)
unfolding add_or_extend
starts-add_or_extend a b q [] = elim (Bool-cases (q.end == a)) [
  | inl same ↦ (record q { end = b }, [], rw same, refl)
  | inr other ↦ (q, record { start = a; end = b } ∷ [], rw other, refl)
]
starts-add_or_extend a b q (r ∷ ps) = (q, add_or_extend (r ∷ ps) a b, refl, refl)

pub add_or_extend-IsSpaced :
    (l a b : ℕ) (ps : List Period)
    → IsSpaced l ps
    → l ≤ a
    → a < b
    → IsSpaced b (add_or_extend ps a b)
unfolding add_or_extend
add_or_extend-IsSpaced l a b [] v h k = omega arith
add_or_extend-IsSpaced l a b (p ∷ []) v h k = ground arith
add_or_extend-IsSpaced l a b (p ∷ q ∷ ps) v h k =
    let (q', ps', e, same) = starts-add_or_extend a b q ps in
    let rest : IsSpaced b (q' ∷ ps') = rw e at (add_or_extend-IsSpaced l a b (q ∷ ps) v.2 h k) in
    rw e (omega arith, omega arith, rest)

-- A period that comes after the others without touching them is appended.
add-apart :
    (l : ℕ) (p : Period) (merged ps : List Period)
    → IsSpaced l (merged ++ p ∷ ps)
    → add_or_extend merged p.start p.end ≡ merged ++ p ∷ []
unfolding add_or_extend
add-apart l p [] ps v = refl
add-apart l p (q ∷ []) ps v = ground arith
add-apart l p (q ∷ r ∷ merged) ps v = ap (◌∷◌ q) (add-apart l p (r ∷ merged) ps v.2)

merge_into-append :
    (l : ℕ) (merged ps : List Period)
    → IsSpaced l (merged ++ ps)
    → merge_into merged ps ≡ merged ++ ps
unfolding merge_into
merge_into-append l merged [] v = sym (append-nil merged)
merge_into-append l merged (p ∷ ps) v =
    let regroup : (merged ++ p ∷ []) ++ ps ≡ merged ++ p ∷ ps = append_assoc merged (p ∷ []) ps in
    rw (add-apart l p merged ps v)
      (merge_into-append l (merged ++ p ∷ []) ps (rw regroup v) ∙ regroup)

-- `_merge_consecutive` changes nothing in a list that `_add_or_extend` has built.
pub merge_consecutive-IsSpaced :
    (l : ℕ) (ps : List Period) → IsSpaced l ps → merge_consecutive ps ≡ ps
unfolding merge_consecutive
merge_consecutive-IsSpaced l ps v = merge_into-append l [] ps v
