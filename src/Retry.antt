-- ===== src/Retry.antt =====
-- `retry_bot_call` of bot/utils/helpers.py. What Telegram would answer to each attempt is a
-- function of the attempt's number; seconds are whole.
pub mod Attempts
mod Tests
use voltyk_bot_v3_python.Prelude.{ℕ, zero, suc, ◌+◌}

-- the answer to an attempt, with TelegramRetryAfter, TelegramForbiddenError or another exception
pub data Answer {ℓ} (A : Type ℓ) : Type ℓ where
  returned : A → Answer A
  retry_after : ℕ → Answer A
  forbidden failed : Answer A

-- how the call ends: `raised_retry` is the TelegramRetryAfter of the last attempt
pub data Outcome {ℓ} (A : Type ℓ) : Type ℓ where
  result : A → Outcome A
  raised_forbidden raised_failed : Outcome A
  raised_retry : ℕ → Outcome A

-- the end, the number of attempts, and the seconds slept
pub record Call {ℓ} (A : Type ℓ) : Type ℓ where
  pub outcome : Outcome A
  pub attempts : ℕ
  pub slept : ℕ

abbrev pub ends {ℓ} : {A : Type ℓ} → Outcome A → Call A
ends o = record { outcome = o; attempts = 1; slept = 0 }

-- one attempt more, after a sleep of `e.retry_after + 1`
abbrev pub after_sleep {ℓ} : {A : Type ℓ} → ℕ → Call A → Call A
after_sleep seconds c = record c { attempts = suc c.attempts; slept = seconds + 1 + c.slept }

-- an attempt with this number of retries left, by its answer and by what the retries would do
abbrev pub attempt_with {ℓ} : {A : Type ℓ} → ℕ → Answer A → Call A → Call A
attempt_with retries (returned a) later = ends (result a)
attempt_with retries forbidden later = ends raised_forbidden
attempt_with retries failed later = ends raised_failed
attempt_with zero (retry_after s) later = ends (raised_retry s)
attempt_with (suc retries) (retry_after s) later = after_sleep s later

module _ {ℓ} {A : Type ℓ} (answer : ℕ → Answer A) where
  -- the loop, with the retries left and the number of the attempt
  unfoldable pub attempt_from : ℕ → ℕ → Call A
  attempt_from zero attempt = attempt_with zero (answer attempt) (ends raised_failed)
  attempt_from (suc retries) attempt =
      attempt_with (suc retries) (answer attempt) (attempt_from retries (suc attempt))

  unfoldable pub retry_bot_call : ℕ → Call A
  retry_bot_call max_retries = attempt_from max_retries 0
