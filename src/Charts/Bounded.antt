-- ===== src/Charts/Bounded.antt =====
-- How many images the memory holds, bot/services/api.py.
use voltyk_bot_v3_python.Prelude.{ℕ, ◌≡◌, refl, Bool, true, false, Option, none, some, arith}
use voltyk_bot_v3_python.Prelude.Dict
use voltyk_bot_v3_python.Prelude.Dict.{Dict}
use voltyk_bot_v3_python.Prelude.Text.{Text, text_dec}
use voltyk_bot_v3_python.Fetch.Caching.{IsBounded, store-IsBounded, moved-IsBounded}
use voltyk_bot_v3_python.Charts.{
  get_queue_source_updated_at, cache_key, chart_key, Images, Meets, l1_entry, redis_get,
  from_github, from_generated, from_redis, from_l1, look_up, stamped, build_chart_fingerprint,
  image_of, fetch_schedule_image,
}

module _ {I : Type 0} (m : Meets I) (region queue : Text) (fp : Option Text) where
  from_generated-IsBounded :
      (r : Option I) (s : Images I)
      → IsBounded text_dec s.l1
      → IsBounded text_dec (from_generated m region queue fp r s).0.l1
  from_generated-IsBounded none s v = from_github-IsBounded m.github_image s v
    where
      from_github-IsBounded :
          (r : Option I) (s : Images I)
          → IsBounded text_dec s.l1
          → IsBounded text_dec (from_github m region queue fp r s).0.l1
      from_github-IsBounded none s v = v
      from_github-IsBounded (some x) s v =
          store-IsBounded text_dec (cache_key region queue fp) m.now x s.l1 v
  from_generated-IsBounded (some x) s v =
      store-IsBounded text_dec (cache_key region queue fp) m.now x s.l1 v

  from_redis-IsBounded :
      (generated r : Option I) (s : Images I)
      → IsBounded text_dec s.l1
      → IsBounded text_dec (from_redis m region queue fp generated r s).0.l1
  from_redis-IsBounded generated none s v = from_generated-IsBounded generated s v
  from_redis-IsBounded generated (some x) s v =
      store-IsBounded text_dec (cache_key region queue fp) m.now x s.l1 v

  -- the entry that is young enough is the one of the key
  l1_entry-found :
      (o : Option (ℕ × I)) (entry : ℕ × I) → l1_entry m.now o ≡ some entry → o ≡ some entry
  l1_entry-found none entry h = cc
  l1_entry-found (some e) entry h = ground arith

  from_l1-IsBounded :
      (generated : Option I) (o : Option (ℕ × I)) (s : Images I)
      → ((entry : ℕ × I)
          → o ≡ some entry
          → Dict.get text_dec (cache_key region queue fp) s.l1 ≡ some entry)
      → IsBounded text_dec s.l1
      → IsBounded text_dec (from_l1 m region queue fp generated o s).0.l1
  from_l1-IsBounded generated none s found v =
      from_redis-IsBounded generated
        (redis_get m.redis_works m.now (chart_key region queue fp) s.redis) s v
  from_l1-IsBounded generated (some entry) s found v =
      moved-IsBounded text_dec (cache_key region queue fp) entry s.l1 v (found entry refl)

  look_up-IsBounded :
      (generated : Option I) (s : Images I)
      → IsBounded text_dec s.l1
      → IsBounded text_dec (look_up m region queue fp generated s).0.l1
  unfolding look_up
  look_up-IsBounded generated s v =
      let o = Dict.get text_dec (cache_key region queue fp) s.l1 in
      from_l1-IsBounded generated (l1_entry m.now o) s (l1_entry-found o) v

module _ {S I : Type 0} (own_time : ℕ → S → Text) (generate : Text → Text → S → Text → Option I)
    (digest : Text → Text) (m : Meets I) (region queue : Text) where
  image_of-IsBounded :
      (on_demand : Bool) (schedule : S) (source : Option Text) (s : Images I)
      → IsBounded text_dec s.l1
      → IsBounded text_dec
          (image_of own_time generate digest on_demand m region queue schedule source s).0.l1
  image_of-IsBounded true schedule source s v = v
  image_of-IsBounded false schedule source s v =
      let time = stamped source (own_time m.now schedule) in
      look_up-IsBounded m region queue (some (build_chart_fingerprint digest time))
        (generate region queue schedule time) s v

  -- A call of `fetch_schedule_image`, with a schedule or without, in either mode of rendering and
  -- by whichever way it finds the image, leaves at most 100 images in a memory that had at most
  -- 100, and each key once.
  pub fetch_schedule_image-IsBounded :
      (on_demand : Bool) (schedule : Option S) (s : Images I)
      → IsBounded text_dec s.l1
      → IsBounded text_dec
          (fetch_schedule_image own_time generate digest on_demand m region queue schedule s).0.l1
  unfolding fetch_schedule_image
  fetch_schedule_image-IsBounded on_demand none s v = look_up-IsBounded m region queue none none s v
  fetch_schedule_image-IsBounded on_demand (some schedule) s v =
      let learnt = get_queue_source_updated_at m.now region m.reply s.times in
      image_of-IsBounded on_demand schedule learnt.1 (record s { times = learnt.0 }) v
