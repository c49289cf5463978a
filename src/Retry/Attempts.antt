-- ===== src/Retry/Attempts.antt =====
-- How many attempts a call makes, and which of them decides.
use voltyk_bot_v3_python.Prelude.{
  ℕ, zero, suc, ◌+◌, ◌≤◌, ◌<◌, ◌≡◌, refl, sym, ap, ◌∙◌, Bool, true, false, arith, ◌⊎◌, inl, inr,
}
use voltyk_bot_v3_python.Retry.{
  Answer, returned, retry_after, forbidden, failed, Outcome, result, raised_forbidden,
  raised_failed, raised_retry, Call, ends, after_sleep, attempt_with, attempt_from, retry_bot_call,
}

module _ {ℓ} {A : Type ℓ} where
  abbrev pub is_retry : Answer A → Bool
  is_retry (retry_after s) = true
  is_retry (returned a) = false
  is_retry forbidden = false
  is_retry failed = false

  -- what an answer makes of the call, if it is the last
  abbrev pub outcome_of : Answer A → Outcome A
  outcome_of (returned a) = result a
  outcome_of (retry_after s) = raised_retry s
  outcome_of forbidden = raised_forbidden
  outcome_of failed = raised_failed

  -- the seconds of an answer that tells to retry, and the sleeps after this many attempts
  abbrev pub seconds_of : Answer A → ℕ
  seconds_of (retry_after s) = s
  seconds_of (returned a) = 0
  seconds_of forbidden = 0
  seconds_of failed = 0

  abbrev pub sleeps : (ℕ → Answer A) → ℕ → ℕ → ℕ
  sleeps answer first zero = 0
  sleeps answer first (suc n) = (seconds_of (answer first) + 1) + sleeps answer (suc first) n

  -- What decides a call that may retry this often and starts at this attempt: the attempt that is
  -- the last one made. All before it were told to retry, it was not or had no retries left, and
  -- the call has slept the seconds told and one more for each before.
  pub record Decides (answer : ℕ → Answer A) (retries first : ℕ) (c : Call A) : Type ℓ where
    pub last : ℕ
    pub made : c.attempts ≡ suc last
    pub within : last ≤ retries
    pub before : (k : ℕ) → k < last → is_retry (answer (first + k)) ≡ true
    pub decided : c.outcome ≡ outcome_of (answer (first + last))
    pub final : (is_retry (answer (first + last)) ≡ false) ⊎ (last ≡ retries)
    pub slept : c.slept ≡ sleeps answer first last

  module _ (answer : ℕ → Answer A) where
    at_once :
        (retries first : ℕ) (o : Outcome A)
        → o ≡ outcome_of (answer first)
        → (is_retry (answer first) ≡ false) ⊎ (0 ≡ retries)
        → Decides answer retries first (ends o)
    at_once retries first o decided final =
        let zero_right : first + 0 ≡ first = omega arith in
        record {
          last = 0;
          made = refl;
          within = omega arith;
          before = λ k h. elim h [ ];
          decided = rw zero_right decided;
          final = rw zero_right final;
          slept = refl;
        }

    earlier_told :
        (first last : ℕ)
        → is_retry (answer first) ≡ true
        → ((k : ℕ) → k < last → is_retry (answer (suc first + k)) ≡ true)
        → (k : ℕ) → k < suc last
        → is_retry (answer (first + k)) ≡ true
    earlier_told first last told h zero lt =
        let zero_right : first + 0 ≡ first = omega arith in rw zero_right told
    earlier_told first last told h (suc k) lt =
        let shift : first + suc k ≡ suc first + k = omega arith in
        rw shift (h k (omega (arith, lt)))

    once_more :
        (retries first s : ℕ) (later : Call A)
        → answer first ≡ retry_after s
        → Decides answer retries (suc first) later
        → Decides answer (suc retries) first (after_sleep s later)
    once_more retries first s later e d =
        let shift : first + suc d.last ≡ suc first + d.last = omega arith in
        record {
          last = suc d.last;
          made = omega (arith, d.made);
          within = omega (arith, d.within);
          before = earlier_told first d.last (ap is_retry e) d.before;
          decided = d.decided ∙ ap (λ k. outcome_of (answer k)) (sym shift);
          final = rw shift (elim d.final [ inl stops ↦ inl stops | inr all ↦ inr (ap suc all) ]);
          slept = omega (arith, d.slept, ap seconds_of e);
        }

    attempt_with-Decides :
        (retries first : ℕ) (a : Answer A) (later : Call A)
        → answer first ≡ a
        → Decides answer retries (suc first) later
        → Decides answer (suc retries) first (attempt_with (suc retries) a later)
    attempt_with-Decides retries first (returned x) later e d =
        at_once (suc retries) first (result x) (ap outcome_of (sym e)) (inl (ap is_retry e))
    attempt_with-Decides retries first forbidden later e d =
        at_once (suc retries) first raised_forbidden (ap outcome_of (sym e)) (inl (ap is_retry e))
    attempt_with-Decides retries first failed later e d =
        at_once (suc retries) first raised_failed (ap outcome_of (sym e)) (inl (ap is_retry e))
    attempt_with-Decides retries first (retry_after s) later e d =
        once_more retries first s later e d

    no_retry-Decides :
        (first : ℕ) (a : Answer A)
        → answer first ≡ a
        → Decides answer 0 first (attempt_with 0 a (ends raised_failed))
    no_retry-Decides first (returned x) e =
        at_once 0 first (result x) (ap outcome_of (sym e)) (inr refl)
    no_retry-Decides first forbidden e =
        at_once 0 first raised_forbidden (ap outcome_of (sym e)) (inr refl)
    no_retry-Decides first failed e =
        at_once 0 first raised_failed (ap outcome_of (sym e)) (inr refl)
    no_retry-Decides first (retry_after s) e =
        at_once 0 first (raised_retry s) (ap outcome_of (sym e)) (inr refl)

    attempt_from-Decides :
        (retries first : ℕ) → Decides answer retries first (attempt_from answer retries first)
    unfolding attempt_from
    attempt_from-Decides zero first = no_retry-Decides first (answer first) refl
    attempt_from-Decides (suc retries) first =
        attempt_with-Decides retries first (answer first) (attempt_from answer retries (suc first))
          refl (attempt_from-Decides retries (suc first))

    -- A call ends after at most one attempt more than its retries, with the outcome of its last
    -- attempt: the first one that is not told to retry, or the last that is allowed, whose
    -- TelegramRetryAfter is then raised. It sleeps, after each attempt before, the seconds told and
    -- one more.
    pub retry_bot_call-Decides :
        (max_retries : ℕ) → Decides answer max_retries 0 (retry_bot_call answer max_retries)
    unfolding retry_bot_call
    retry_bot_call-Decides max_retries = attempt_from-Decides max_retries 0
