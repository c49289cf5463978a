-- ===== src/Schedule/Coverage.antt =====
-- `_parse_hourly_schedule` against the table that it reads: which half hours have an outage.
use voltyk_bot_v3_python.Prelude.{
  ℕ, ◌-◌, ◌*◌, ◌%◌, ◌≤◌, ◌<◌, ◌≡◌, ap, Bool, true, false, ◌&&◌, ◌||◌, List, ltb, leb, ◌==◌, arith,
  Bool-cases, inl, inr,
}
use voltyk_bot_v3_python.Prelude.Text.{Text, text_eq_sound, codes}
use voltyk_bot_v3_python.Json.{Json, str, is_text}
use voltyk_bot_v3_python.Schedule.{Period, add_or_extend, value_step}
use voltyk_bot_v3_python.Schedule.Periods.{
  IsSpaced, IsSpaced-mono, covers, covers-add_or_extend, add_or_extend-IsSpaced,
}

is_text_sound : (s : Text) (v : Json) → is_text s v ≡ true → v ≡ str s
is_text_sound s (str t) h = ap str (text_eq_sound t s h)
is_text_sound s v h = cc

-- Whether a value marks the half hour `s` of its hour: the whole hour, or its first or second half.
abbrev pub marks : Text → Text → Text → Json → ℕ → Bool
marks whole first second v s =
    is_text whole v || ((is_text first v && (s % 2 == 0)) || (is_text second v && (s % 2 == 1)))

abbrev pub planned_mark : Json → ℕ → Bool
planned_mark = marks (codes "no") (codes "first") (codes "second")

abbrev pub possible_mark : Json → ℕ → Bool
possible_mark = marks (codes "maybe") (codes "mfirst") (codes "msecond")

abbrev pub in_hour : ℕ → ℕ → Bool
in_hour hour s = leb (2 * (hour - 1)) s && ltb s (2 * hour)

-- The values that the loop tells apart.
pub data Kind (v : Json) : Type 0 where
  no' : v ≡ str (codes "no") → Kind v
  first : v ≡ str (codes "first") → Kind v
  second : v ≡ str (codes "second") → Kind v
  maybe : v ≡ str (codes "maybe") → Kind v
  mfirst : v ≡ str (codes "mfirst") → Kind v
  msecond : v ≡ str (codes "msecond") → Kind v
  other :
      is_text (codes "no") v ≡ false
      → is_text (codes "first") v ≡ false
      → is_text (codes "second") v ≡ false
      → is_text (codes "maybe") v ≡ false
      → is_text (codes "mfirst") v ≡ false
      → is_text (codes "msecond") v ≡ false
      → Kind v

pub Kind-of : (v : Json) → Kind v
Kind-of v = elim (Bool-cases (is_text (codes "no") v)) [
  | inl e ↦ no' (is_text_sound _ v e)
  | inr a ↦ elim (Bool-cases (is_text (codes "first") v)) [
    | inl e ↦ first (is_text_sound _ v e)
    | inr b ↦ elim (Bool-cases (is_text (codes "second") v)) [
      | inl e ↦ second (is_text_sound _ v e)
      | inr c ↦ elim (Bool-cases (is_text (codes "maybe") v)) [
        | inl e ↦ maybe (is_text_sound _ v e)
        | inr d ↦ elim (Bool-cases (is_text (codes "mfirst") v)) [
          | inl e ↦ mfirst (is_text_sound _ v e)
          | inr f ↦ elim (Bool-cases (is_text (codes "msecond") v)) [
            | inl e ↦ msecond (is_text_sound _ v e)
            | inr g ↦ other a b c d f g
          ]
        ]
      ]
    ]
  ]
]

-- What the body of the loop does, in terms of the half hours that are covered.
pub record Stepped (hour : ℕ) (v : Json) (pl po pl' po' : List Period) : Type 0 where
  pub planned : (s : ℕ) → covers pl' s ≡ (covers pl s || (in_hour hour s && planned_mark v s))
  pub possible : (s : ℕ) → covers po' s ≡ (covers po s || (in_hour hour s && possible_mark v s))
  pub planned_spaced : IsSpaced (2 * hour) pl'
  pub possible_spaced : IsSpaced (2 * hour) po'

module _ (hour : ℕ) (pl po : List Period) (h : 1 ≤ hour) (w : IsSpaced (2 * (hour - 1)) pl)
    (u : IsSpaced (2 * (hour - 1)) po) where
  later : (ps : List Period) → IsSpaced (2 * (hour - 1)) ps → IsSpaced (2 * hour) ps
  later ps = IsSpaced-mono (2 * (hour - 1)) (2 * hour) ps (omega arith)

  -- a period of this hour, added to a list of earlier ones
  added_spaced :
      (a b : ℕ) (ps : List Period)
      → IsSpaced (2 * (hour - 1)) ps
      → 2 * (hour - 1) ≤ a
      → a < b
      → b ≤ 2 * hour
      → IsSpaced (2 * hour) (add_or_extend ps a b)
  added_spaced a b ps v p q r =
      IsSpaced-mono b (2 * hour) (add_or_extend ps a b) r
        (add_or_extend-IsSpaced (2 * (hour - 1)) a b ps v p q)

  added_covers :
      (a b s : ℕ) (ps : List Period)
      → IsSpaced (2 * (hour - 1)) ps
      → 2 * (hour - 1) ≤ a
      → a < b
      → covers (add_or_extend ps a b) s ≡ (covers ps s || (leb a s && ltb s b))
  added_covers a b s ps = covers-add_or_extend (2 * (hour - 1)) a b s ps

  pub value_step-Stepped :
      (v : Json)
      → Kind v
      → let (pl', po') = value_step v hour (pl, po) in Stepped hour v pl po pl' po'
  unfolding value_step
  value_step-Stepped v (no' e) = rw e (record {
    planned = λ s. ground (arith, added_covers (2 * (hour - 1)) (2 * hour) s pl w);
    possible = λ s. ground arith;
    planned_spaced =
        added_spaced (2 * (hour - 1)) (2 * hour) pl w (omega arith) (omega arith) (omega arith);
    possible_spaced = later po u;
  })
  value_step-Stepped v (first e) = rw e (record {
    planned = λ s. ground (arith, added_covers (2 * (hour - 1)) (2 * hour - 1) s pl w);
    possible = λ s. ground arith;
    planned_spaced =
        added_spaced (2 * (hour - 1)) (2 * hour - 1) pl w (omega arith) (omega arith) (omega arith);
    possible_spaced = later po u;
  })
  value_step-Stepped v (second e) = rw e (record {
    planned = λ s. ground (arith, added_covers (2 * hour - 1) (2 * hour) s pl w);
    possible = λ s. ground arith;
    planned_spaced =
        added_spaced (2 * hour - 1) (2 * hour) pl w (omega arith) (omega arith) (omega arith);
    possible_spaced = later po u;
  })
  value_step-Stepped v (maybe e) = rw e (record {
    planned = λ s. ground arith;
    possible = λ s. ground (arith, added_covers (2 * (hour - 1)) (2 * hour) s po u);
    planned_spaced = later pl w;
    possible_spaced =
        added_spaced (2 * (hour - 1)) (2 * hour) po u (omega arith) (omega arith) (omega arith);
  })
  value_step-Stepped v (mfirst e) = rw e (record {
    planned = λ s. ground arith;
    possible = λ s. ground (arith, added_covers (2 * (hour - 1)) (2 * hour - 1) s po u);
    planned_spaced = later pl w;
    possible_spaced =
        added_spaced (2 * (hour - 1)) (2 * hour - 1) po u (omega arith) (omega arith) (omega arith);
  })
  value_step-Stepped v (msecond e) = rw e (record {
    planned = λ s. ground arith;
    possible = λ s. ground (arith, added_covers (2 * hour - 1) (2 * hour) s po u);
    planned_spaced = later pl w;
    possible_spaced =
        added_spaced (2 * hour - 1) (2 * hour) po u (omega arith) (omega arith) (omega arith);
  })
  value_step-Stepped v (other a b c d f g) =
      rw (a, b, c, d, f, g)
        (record {
          planned = λ s. ground arith;
          possible = λ s. ground arith;
          planned_spaced = later pl w;
          possible_spaced = later po u;
        })
