-- ===== src/Charts/Stale.antt =====
-- The image of an earlier schedule: what a second call of `fetch_schedule_image` gives.
use voltyk_bot_v3_python.Prelude.{
  ℕ, ◌+◌, ◌<◌, ◌≡◌, ◌∙◌, sym, ap, false, Option, none, some, ◌∷◌, arith,
}
use voltyk_bot_v3_python.Prelude.Dict
use voltyk_bot_v3_python.Prelude.Dict.{Dict}
use voltyk_bot_v3_python.Prelude.Text.{Text, text_dec}
use voltyk_bot_v3_python.Charts.{
  cache_ttl, commit, source_path, get_queue_source_updated_at, cache_key, Images, Meets,
  invalidate_image_cache, look_up, build_chart_fingerprint, image_of, fetch_schedule_image,
}
use voltyk_bot_v3_python.Charts.Remembered.{
  look_up-stores, look_up-remembers, look_up-times, invalidate_image_cache-keeps,
  get_queue_source_updated_at-stores, get_queue_source_updated_at-remembers,
}

module _ {S I : Type 0} (own_time : ℕ → S → Text) (generate : Text → Text → S → Text → Option I)
    (digest : Text → Text) where
  -- a call that learns the source's time is the lookup under the fingerprint of that time
  fetch_as_look_up :
      (m : Meets I) (region queue : Text) (c : ℕ) (time : Text) (schedule : S) (s : Images I)
      → (get_queue_source_updated_at m.now region m.reply s.times).1 ≡ some (c ∷ time)
      → fetch_schedule_image own_time generate digest false m region queue (some schedule) s
        ≡ look_up m region queue
            (some (build_chart_fingerprint digest (c ∷ time)))
            (generate region queue schedule (c ∷ time))
            (record s { times = (get_queue_source_updated_at m.now region m.reply s.times).0 })
  unfolding fetch_schedule_image
  fetch_as_look_up m region queue c time schedule s h =
      ap
        (λ source.
          image_of own_time generate digest false m region queue schedule source
            (record s { times = (get_queue_source_updated_at m.now region m.reply s.times).0 }))
        h

  -- the call for which the memory knows the source's time and has its image
  fetch_schedule_image-remembers :
      (m : Meets I) (region queue : Text) (c : ℕ) (time : Text) (t : ℕ) (schedule : S)
      (s : Images I) (image : I)
      → Dict.get text_dec (source_path region) s.times.cache ≡ some (t, some (c ∷ time))
      → Dict.get text_dec
          (cache_key region queue (some (build_chart_fingerprint digest (c ∷ time))))
          s.l1
        ≡ some (t, image)
      → m.now < t + cache_ttl
      → (fetch_schedule_image own_time generate digest false m region queue (some schedule) s).1
        ≡ some image
  fetch_schedule_image-remembers m region queue c time t schedule s image kept there soon =
      ap (λ x. x.1)
        (fetch_as_look_up m region queue c time schedule s (
          get_queue_source_updated_at-remembers m.now t region m.reply (some (c ∷ time)) s.times
            kept (omega arith)))
      ∙ look_up-remembers m region queue (some (build_chart_fingerprint digest (c ∷ time)))
          (generate region queue schedule (c ∷ time))
          (record s { times = (get_queue_source_updated_at m.now region m.reply s.times).0 }) t
          image there soon

  -- Let a call of `fetch_schedule_image`, with a schedule and not on demand, have no cached time
  -- of the region's data, be answered by GitHub with a commit of a time that is not empty, find
  -- no image of the fingerprint of that time in the memory, and give an image. Then a second such
  -- call within two minutes gives the same image, whatever schedule it is given, whatever GitHub
  -- and Redis would answer by then, and even though `invalidate_image_cache` was called between.
  pub fetch_schedule_image-repeats :
      (m m' : Meets I) (region queue : Text) (c : ℕ) (time : Text) (etag : Option Text)
      (schedule schedule' : S) (s : Images I) (image : I)
      → m.reply ≡ commit (some (c ∷ time)) etag
      → Dict.get text_dec (source_path region) s.times.cache ≡ none
      → Dict.get text_dec
          (cache_key region queue (some (build_chart_fingerprint digest (c ∷ time))))
          s.l1
        ≡ none
      → (fetch_schedule_image own_time generate digest false m region queue (some schedule) s).1
        ≡ some image
      → m'.now < m.now + cache_ttl
      → (fetch_schedule_image own_time generate digest false m' region queue (some schedule') (
          invalidate_image_cache region queue
            (fetch_schedule_image own_time generate digest false m region queue
              (some schedule)
              s).0)).1
        ≡ some image
  unfolding invalidate_image_cache
  fetch_schedule_image-repeats m m' region queue c time etag schedule schedule' s image asked
        unknown absent given soon =
      let key = build_chart_fingerprint digest (c ∷ time) in
      let stores =
        get_queue_source_updated_at-stores m.now region m.reply (some (c ∷ time)) etag s.times asked
          unknown in
      let e = fetch_as_look_up m region queue c time schedule s stores.1 in
      let learnt = record s {
        times = (get_queue_source_updated_at m.now region m.reply s.times).0;
      } in
      let generated = generate region queue schedule (c ∷ time) in
      let after = (look_up m region queue (some key) generated learnt).0 in
      ap
        (λ x.
          (fetch_schedule_image own_time generate digest false m' region queue (some schedule')
            (invalidate_image_cache region queue x.0)).1)
        e
      ∙ fetch_schedule_image-remembers m' region queue c time m.now schedule'
          (invalidate_image_cache region queue after) image
          (ap (λ t. Dict.get text_dec (source_path region) t.cache)
              (look_up-times m region queue (some key) generated learnt)
            ∙ stores.0)
          (invalidate_image_cache-keeps region queue key after
            ∙ look_up-stores m region queue (some key) generated learnt image absent
                (sym (ap (λ x. x.1) e) ∙ given))
          soon
