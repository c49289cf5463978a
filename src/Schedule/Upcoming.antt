-- ===== src/Schedule/Upcoming.antt =====
-- `find_next_event`: the next moment at which an outage begins or ends.
use voltyk_bot_v3_python.Prelude.{
  ℕ, ◌≤◌, ◌<◌, ◌≡◌, refl, ◌∙◌, Bool, true, false, ◌&&◌, ◌||◌, List, [], ◌∷◌, ltb, leb, ◌==◌, arith,
  Bool-cases, ltb→lt, inl, inr,
}
use voltyk_bot_v3_python.Schedule.{Event, extend_end}

module _ (instant : ℕ → ℕ) where
  -- Events in order of time, none of them empty and no two at once.
  abbrev pub IsTimeline : List Event → Type 0
  IsTimeline [] = Unit
  IsTimeline (e ∷ []) = instant e.start < instant e.end
  IsTimeline (e ∷ f ∷ es) =
      (instant e.start < instant e.end) × (instant e.end ≤ instant f.start) × IsTimeline (f ∷ es)

  -- whether an event is on at the moment `t`
  abbrev pub is_out : List Event → ℕ → Bool
  is_out [] t = false
  is_out (e ∷ es) t = (leb (instant e.start) t && ltb t (instant e.end)) || is_out es t

  pub out_before :
      (e : Event) (es : List Event) (t : ℕ)
      → IsTimeline (e ∷ es)
      → t < instant e.start
      → is_out (e ∷ es) t ≡ false
  out_before e [] t v h = ground arith
  out_before e (f ∷ es) t v h = ground (arith, out_before f es t v.2)

  pub IsTimeline-tail : (e : Event) (es : List Event) → IsTimeline (e ∷ es) → IsTimeline es
  IsTimeline-tail e [] v = tt
  IsTimeline-tail e (f ∷ es) v = v.2

  pub IsTimeline-head :
      (e : Event) (es : List Event) → IsTimeline (e ∷ es) → instant e.start < instant e.end
  IsTimeline-head e [] v = v
  IsTimeline-head e (f ∷ es) v = v.0

  IsTimeline-next :
      (e f : Event) (es : List Event) → IsTimeline (e ∷ f ∷ es) → instant e.end ≤ instant f.start
  IsTimeline-next e f es v = v.1

  pub out_during :
      (e : Event) (es : List Event) (t : ℕ)
      → instant e.start ≤ t
      → t < instant e.end
      → is_out (e ∷ es) t ≡ true
  out_during e es t h k = ground arith

  pub out_after :
      (e : Event) (es : List Event) (t : ℕ) → instant e.end ≤ t → is_out (e ∷ es) t ≡ is_out es t
  out_after e es t h = ground arith

  out_more : (e : Event) (es : List Event) (t : ℕ) → is_out es t ≡ true → is_out (e ∷ es) t ≡ true
  out_more e es t h = ground arith

  -- where the events that follow one another without a break end
  unfoldable pub final_end : Event → List Event → Bool → ℕ
  final_end e es b = (extend_end instant e.end b es).0

  final_end-touch :
      (e f : Event) (es : List Event) (b : Bool)
      → (instant f.start == instant e.end) ≡ true
      → final_end e (f ∷ es) b ≡ final_end f es (b || f.is_possible)
  unfolding final_end extend_end
  final_end-touch e f es b h = rw (h, final_end)

  final_end-apart :
      (e f : Event) (es : List Event) (b : Bool)
      → (instant f.start == instant e.end) ≡ false
      → final_end e (f ∷ es) b ≡ e.end
  unfolding final_end extend_end
  final_end-apart e f es b h = rw (h, final_end)

  final_end-nil : (e : Event) (b : Bool) → final_end e [] b ≡ e.end
  unfolding final_end extend_end
  final_end-nil e b = refl

  pub end-le-final_end :
      (e : Event) (es : List Event) (b : Bool)
      → IsTimeline (e ∷ es)
      → instant e.end ≤ instant (final_end e es b)
  end-le-final_end e [] b v = rw (final_end-nil e b) (omega arith)
  end-le-final_end e (f ∷ es) b v = elim (Bool-cases (instant f.start == instant e.end)) [
    | inl touch ↦ rw (final_end-touch e f es b touch) (
        omega (
          arith,
          end-le-final_end f es (b || f.is_possible) v.2,
          IsTimeline-head f es v.2,
          IsTimeline-next e f es v,
        ))
    | inr apart ↦ rw (final_end-apart e f es b apart) (omega arith)
  ]

  -- an outage until then
  pub out_until :
      (e : Event) (es : List Event) (b : Bool) (t : ℕ)
      → IsTimeline (e ∷ es)
      → instant e.start ≤ t
      → t < instant (final_end e es b)
      → is_out (e ∷ es) t ≡ true
  out_until e [] b t v h k = out_during e [] t h (rw (final_end-nil e b) at k)
  out_until e (f ∷ es) b t v h k = elim (Bool-cases (instant f.start == instant e.end)) [
    | inl touch ↦ elim (Bool-cases (ltb t (instant e.end))) [
      | inl now ↦ out_during e (f ∷ es) t h (ltb→lt _ _ now)
      | inr after ↦ out_more e (f ∷ es) t (
          out_until f es (b || f.is_possible) t v.2 (ground arith)
            (rw (final_end-touch e f es b touch) at k))
    ]
    | inr apart ↦ out_during e (f ∷ es) t h (rw (final_end-apart e f es b apart) at k)
  ]

  -- and none at that moment
  pub not_out_at :
      (e : Event) (es : List Event) (b : Bool)
      → IsTimeline (e ∷ es)
      → is_out (e ∷ es) (instant (final_end e es b)) ≡ false
  not_out_at e [] b v = rw (final_end-nil e b) (out_after e [] _ (omega arith))
  not_out_at e (f ∷ es) b v = elim (Bool-cases (instant f.start == instant e.end)) [
    | inl touch ↦ rw (final_end-touch e f es b touch) (
        out_after e (f ∷ es) _ (
          omega (
            arith,
            end-le-final_end f es (b || f.is_possible) v.2,
            IsTimeline-head f es v.2,
            IsTimeline-next e f es v,
          ))
        ∙ not_out_at f es (b || f.is_possible) v.2)
    | inr apart ↦ rw (final_end-apart e f es b apart) (
        out_after e (f ∷ es) _ (omega arith)
        ∙ out_before f es (instant e.end) v.2 (before e f (IsTimeline-next e f es v) apart))
  ]
    where
      before :
          (e f : Event)
          → instant e.end ≤ instant f.start
          → (instant f.start == instant e.end) ≡ false
          → instant e.end < instant f.start
      before e f le ne = ground arith
