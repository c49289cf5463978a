-- ===== src/Charts/Remembered.antt =====
-- What a lookup of an image keeps, and what the next one finds.
use voltyk_bot_v3_python.Prelude.{
  ℕ, ◌+◌, ◌<◌, ◌≡◌, ◌≢◌, refl, ◌∙◌, ap, Option, none, some, [], ◌∷◌, ◌++◌, arith, length,
  length-append,
}
use voltyk_bot_v3_python.Prelude.Dict
use voltyk_bot_v3_python.Prelude.Dict.{Dict}
use voltyk_bot_v3_python.Prelude.Text.{Text, codes, text_dec}
use voltyk_bot_v3_python.Fetch.{move_to_end, make_room, store}
use voltyk_bot_v3_python.Fetch.Caching.{get-append_last, get-move_to_end, removed-none}
use voltyk_bot_v3_python.Charts.{
  queue_source_update_ttl, cache_ttl, SourceTimes, Commit, commit, trim, keep_etag, source_path,
  source_unless, get_queue_source_updated_at, base_key, cache_key, Images, Meets, l1_entry,
  invalidate_image_cache, from_github, from_generated, from_redis, from_l1, look_up, redis_get,
  chart_key,
}

-- an entry that was just put last is not the one that goes for want of room
get-trim :
    (k : Text) (v : ℕ × Option Text) (d : Dict Text (ℕ × Option Text)) (etags : Dict Text Text)
    → Dict.get text_dec k d ≡ none
    → Dict.get text_dec k (trim (d ++ ((k, v) ∷ [])) etags).cache ≡ some v
get-trim k v [] etags h = ground arith
get-trim k v (e ∷ d) etags h =
    ground (arith, get-append_last text_dec k k v d, get-append_last text_dec k k v (e ∷ d))

fingerprinted-base_key :
    (region queue fp : Text) → cache_key region queue (some fp) ≢ base_key region queue
fingerprinted-base_key region queue fp h =
    omega (arith, length-append (base_key region queue) (codes "_" ++ fp), ap length h)

stored :
    {I : Type 0} (k : Text) (now : ℕ) (x y : I) (d : Dict Text (ℕ × I))
    → some x ≡ some y
    → Dict.get text_dec k (store text_dec k now x d) ≡ some (now, y)
stored k now x y d h = cc (get-move_to_end text_dec k (now, x) (make_room text_dec d))

module _ {I : Type 0} (m : Meets I) (region queue : Text) (fp : Option Text) where
  from_github-stores :
      (r : Option I) (s : Images I) (image : I)
      → (from_github m region queue fp r s).1 ≡ some image
      → Dict.get text_dec (cache_key region queue fp) (from_github m region queue fp r s).0.l1
        ≡ some (m.now, image)
  from_github-stores none s image h = cc
  from_github-stores (some x) s image h = stored (cache_key region queue fp) m.now x image s.l1 h

  from_generated-stores :
      (r : Option I) (s : Images I) (image : I)
      → (from_generated m region queue fp r s).1 ≡ some image
      → Dict.get text_dec (cache_key region queue fp) (from_generated m region queue fp r s).0.l1
        ≡ some (m.now, image)
  from_generated-stores none s image h = from_github-stores m.github_image s image h
  from_generated-stores (some x) s image h = stored (cache_key region queue fp) m.now x image s.l1 h

  from_redis-stores :
      (generated r : Option I) (s : Images I) (image : I)
      → (from_redis m region queue fp generated r s).1 ≡ some image
      → Dict.get text_dec
          (cache_key region queue fp)
          (from_redis m region queue fp generated r s).0.l1
        ≡ some (m.now, image)
  from_redis-stores generated none s image h = from_generated-stores generated s image h
  from_redis-stores generated (some x) s image h =
      stored (cache_key region queue fp) m.now x image s.l1 h

  from_l1-stores :
      (generated : Option I) (o : Option (ℕ × I)) (s : Images I) (image : I)
      → o ≡ none
      → (from_l1 m region queue fp generated o s).1 ≡ some image
      → Dict.get text_dec (cache_key region queue fp) (from_l1 m region queue fp generated o s).0.l1
        ≡ some (m.now, image)
  from_l1-stores generated none s image absent h =
      from_redis-stores generated
        (redis_get m.redis_works m.now (chart_key region queue fp) s.redis) s image h
  from_l1-stores generated (some entry) s image absent h = cc

  -- what a lookup gives, it has put into the memory
  pub look_up-stores :
      (generated : Option I) (s : Images I) (image : I)
      → Dict.get text_dec (cache_key region queue fp) s.l1 ≡ none
      → (look_up m region queue fp generated s).1 ≡ some image
      → Dict.get text_dec (cache_key region queue fp) (look_up m region queue fp generated s).0.l1
        ≡ some (m.now, image)
  unfolding look_up
  look_up-stores generated s image absent h =
      from_l1-stores generated (l1_entry m.now (Dict.get text_dec (cache_key region queue fp) s.l1))
        s image (ap (l1_entry m.now) absent) h

  -- and what the memory has, the next lookup gives, whatever it would render
  pub look_up-remembers :
      (generated : Option I) (s : Images I) (t : ℕ) (image : I)
      → Dict.get text_dec (cache_key region queue fp) s.l1 ≡ some (t, image)
      → m.now < t + cache_ttl
      → (look_up m region queue fp generated s).1 ≡ some image
  unfolding look_up
  look_up-remembers generated s t image found young =
      ap (λ o. (from_l1 m region queue fp generated (l1_entry m.now o) s).1) found ∙ ground arith

  -- a lookup leaves the times of the sources alone
  from_github-times :
      (r : Option I) (s : Images I) → (from_github m region queue fp r s).0.times ≡ s.times
  from_github-times none s = refl
  from_github-times (some x) s = refl

  from_redis-times :
      (generated r : Option I) (s : Images I)
      → (from_redis m region queue fp generated r s).0.times ≡ s.times
  from_redis-times none none s = from_github-times m.github_image s
  from_redis-times (some x) none s = refl
  from_redis-times generated (some x) s = refl

  from_l1-times :
      (generated : Option I) (o : Option (ℕ × I)) (s : Images I)
      → (from_l1 m region queue fp generated o s).0.times ≡ s.times
  from_l1-times generated none s =
      from_redis-times generated (redis_get m.redis_works m.now (chart_key region queue fp) s.redis)
        s
  from_l1-times generated (some entry) s = refl

  pub look_up-times :
      (generated : Option I) (s : Images I)
      → (look_up m region queue fp generated s).0.times ≡ s.times
  unfolding look_up
  look_up-times generated s =
      from_l1-times generated (l1_entry m.now (Dict.get text_dec (cache_key region queue fp) s.l1))
        s

-- the key that `invalidate_image_cache` removes is not the one of an image of a known time
pub invalidate_image_cache-keeps :
    {I : Type 0} (region queue fp : Text) (s : Images I)
    → Dict.get text_dec
        (cache_key region queue (some fp))
        (invalidate_image_cache region queue s).l1
      ≡ Dict.get text_dec (cache_key region queue (some fp)) s.l1
unfolding invalidate_image_cache
invalidate_image_cache-keeps region queue fp s = ground (
  arith,
  Dict.get-remove text_dec (cache_key region queue (some fp)) (base_key region queue) s.l1,
  fingerprinted-base_key region queue fp,
)

-- the ETag does not change which times are kept
keep_etag-cache :
    (path : Text) (etag : Option Text) (t : SourceTimes) → (keep_etag path etag t).cache ≡ t.cache
keep_etag-cache path none t = refl
keep_etag-cache path (some []) t = refl
keep_etag-cache path (some (c ∷ etag)) t = refl

-- a time that GitHub has just told is kept
source_unless-stores :
    (now : ℕ) (path : Text) (time etag : Option Text) (o : Option (ℕ × Option Text))
    (t : SourceTimes)
    → o ≡ none
    → (Dict.get text_dec path (source_unless now path (commit time etag) o t).0.cache
        ≡ some (now, time))
      × ((source_unless now path (commit time etag) o t).1 ≡ time)
source_unless-stores now path time etag (some entry) t h = cc
source_unless-stores now path time etag none t h = (
  ap (Dict.get text_dec path)
        (keep_etag-cache path etag (trim (move_to_end text_dec path (now, time) t.cache) t.etags))
      ∙ get-trim path (now, time) (Dict.remove text_dec path t.cache) t.etags
          (removed-none text_dec path t.cache),
  refl,
)

pub get_queue_source_updated_at-stores :
    (now : ℕ) (region : Text) (reply : Commit) (time etag : Option Text) (t : SourceTimes)
    → reply ≡ commit time etag
    → Dict.get text_dec (source_path region) t.cache ≡ none
    → (Dict.get text_dec
          (source_path region)
          (get_queue_source_updated_at now region reply t).0.cache
        ≡ some (now, time))
      × ((get_queue_source_updated_at now region reply t).1 ≡ time)
unfolding get_queue_source_updated_at
get_queue_source_updated_at-stores now region reply time etag t asked unknown = rw asked (
    source_unless-stores now (source_path region) time etag
      (Dict.get text_dec (source_path region) t.cache) t unknown)

-- and for ten minutes it is the answer, whatever GitHub would say
pub get_queue_source_updated_at-remembers :
    (now t0 : ℕ) (region : Text) (reply : Commit) (time : Option Text) (t : SourceTimes)
    → Dict.get text_dec (source_path region) t.cache ≡ some (t0, time)
    → now < t0 + queue_source_update_ttl
    → (get_queue_source_updated_at now region reply t).1 ≡ time
unfolding get_queue_source_updated_at
get_queue_source_updated_at-remembers now t0 region reply time t found young =
    ap (λ o. (source_unless now (source_path region) reply o t).1) found ∙ ground arith
