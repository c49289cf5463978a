-- ===== src/Retry/Tests.antt =====
-- Calls that Telegram slows down.
use voltyk_bot_v3_python.Prelude.{ℕ, zero, suc, ◌≡◌, refl}
use voltyk_bot_v3_python.Retry.{
  Answer, returned, retry_after, result, raised_retry, attempt_from, retry_bot_call,
}
use voltyk_bot_v3_python.Retry.Attempts.{Decides, retry_bot_call-Decides}

-- two answers of "too many requests", and then message 7
abbrev third_time : ℕ → Answer ℕ
third_time zero = retry_after 5
third_time (suc zero) = retry_after 2
third_time (suc (suc k)) = returned 7

third_time_ends :
    retry_bot_call third_time 3 ≡ record { outcome = result 7; attempts = 3; slept = 9 }
unfolding retry_bot_call attempt_from
third_time_ends = refl

never_ends :
    retry_bot_call {A = ℕ} (λ k. retry_after 1) 3
    ≡ record { outcome = raised_retry 1; attempts = 4; slept = 6 }
unfolding retry_bot_call attempt_from
never_ends = refl

retry_bot_call-Decides_example : Decides third_time 3 0 (retry_bot_call third_time 3)
retry_bot_call-Decides_example = retry_bot_call-Decides third_time 3
