-- ===== src/Charts/Tests.antt =====
-- Charts.Stale and Charts.Bounded at concrete inputs.
use voltyk_bot_v3_python.Prelude.{ℕ, ◌≡◌, refl, true, false, Option, none, some, [], arith}
use voltyk_bot_v3_python.Prelude.Text.{Text, codes, text_dec}
use voltyk_bot_v3_python.Fetch.Caching.{IsBounded}
use voltyk_bot_v3_python.Charts.{
  commit, Images, Meets, invalidate_image_cache, fetch_schedule_image, prerender_chart,
  get_queue_source_updated_at, look_up,
}
use voltyk_bot_v3_python.Charts.Stale.{fetch_schedule_image-repeats}
use voltyk_bot_v3_python.Charts.Bounded.{fetch_schedule_image-IsBounded}

abbrev nothing_yet : Images ℕ
nothing_yet = record { times = record { cache = []; etags = [] }; l1 = []; redis = some [] }

-- a schedule is a number here, and so is its image
abbrev own : ℕ → ℕ → Text
own now schedule = codes "26.11.2026 10:00"

abbrev drawn : Text → Text → ℕ → Text → Option ℕ
drawn region queue schedule time = some schedule

abbrev same : Text → Text
same time = time

abbrev at_first : Meets ℕ
at_first = record {
  now = 0;
  reply = commit (some (codes "26.11.2026 09:00")) none;
  redis_works = true;
  github_image = none;
}

abbrev a_minute_later : Meets ℕ
a_minute_later = record {
  now = 60;
  reply = commit (some (codes "26.11.2026 10:01")) none;
  redis_works = true;
  github_image = none;
}

-- The schedule has changed from 7 to 8 and GitHub has its new time, but the image is that of 7.
fetch_schedule_image-repeats_example :
    (fetch_schedule_image own drawn same false a_minute_later
      (codes "kyiv")
      (codes "1.1")
      (some 8)
      (invalidate_image_cache
        (codes "kyiv")
        (codes "1.1")
        (fetch_schedule_image own drawn same false at_first
          (codes "kyiv")
          (codes "1.1")
          (some 7)
          nothing_yet).0)).1
    ≡ some 7
unfolding fetch_schedule_image get_queue_source_updated_at look_up
fetch_schedule_image-repeats_example =
    fetch_schedule_image-repeats own drawn same at_first a_minute_later (codes "kyiv") (codes "1.1")
      b'2' (codes "6.11.2026 09:00") none 7 8 nothing_yet 7 refl refl refl refl (omega arith)

fetch_schedule_image-IsBounded_example :
    IsBounded text_dec
      (fetch_schedule_image own drawn same false at_first
        (codes "kyiv")
        (codes "1.1")
        (some 7)
        nothing_yet).0.l1
fetch_schedule_image-IsBounded_example =
    fetch_schedule_image-IsBounded own drawn same at_first (codes "kyiv") (codes "1.1") false
      (some 7) nothing_yet (tt, omega arith)

-- What is drawn ahead of the notices is kept under the schedule's time, and not found under the
-- source's: 8 is there, but 9 is drawn.
prerendered_unread :
    (fetch_schedule_image own drawn same false a_minute_later
      (codes "kyiv")
      (codes "1.1")
      (some 9)
      (record nothing_yet {
        redis = prerender_chart own drawn same true 59 (codes "kyiv") (codes "1.1") 8 (some []);
      })).1
    ≡ some 9
unfolding fetch_schedule_image get_queue_source_updated_at look_up text_dec
prerendered_unread = refl
