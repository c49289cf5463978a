-- ===== src/Charts.antt =====
-- The images of schedules in bot/services/api.py: `get_queue_source_updated_at`,
-- `fetch_schedule_image` with its two caches, and `invalidate_image_cache`; and the cache in Redis
-- of bot/services/chart_cache.py. Times are seconds. `S` is a schedule and `I` an image; what is
-- drawn, what the HTTP client answers and the digest in a fingerprint are parameters.
pub mod Remembered
pub mod Stale
pub mod Bounded
mod Tests
use voltyk_bot_v3_python.Prelude.{
  ℕ, ◌+◌, Bool, true, false, Option, none, some, [], ◌∷◌, ◌++◌, ltb, if◌then◌else◌, length,
}
use voltyk_bot_v3_python.Prelude.Dict
use voltyk_bot_v3_python.Prelude.Dict.{Dict}
use voltyk_bot_v3_python.Prelude.Text.{Text, codes, text_dec}
use voltyk_bot_v3_python.Fetch.{max_cache_size, move_to_end, store}

-- `QUEUE_SOURCE_UPDATE_TTL`, `CACHE_TTL` and `CHART_TTL_S`
abbrev pub queue_source_update_ttl : ℕ
queue_source_update_ttl = 600

abbrev pub cache_ttl : ℕ
cache_ttl = 120

abbrev pub chart_ttl_s : ℕ
chart_ttl_s = 90_000

-- `_queue_source_update_cache` and `_queue_source_update_etags`
pub record SourceTimes : Type 0 where
  pub cache : Dict Text (ℕ × Option Text)
  pub etags : Dict Text Text

-- How GitHub answers: 304, another status or an error or too large a body, or the normalized time
-- of the commit with the reply's ETag.
pub data Commit : Type 0 where
  not_modified unusable : Commit
  commit : Option Text → Option Text → Commit

abbrev pub cached_value : Option (ℕ × Option Text) → Option Text
cached_value none = none
cached_value (some entry) = entry.1

-- `f"data/{region}.json"`
abbrev pub source_path : Text → Text
source_path region = codes "data/" ++ region ++ codes ".json"

-- `if len(cache) > MAX_CACHE_SIZE: popitem(last=False)`, with the ETag of what goes
abbrev pub trim : Dict Text (ℕ × Option Text) → Dict Text Text → SourceTimes
trim [] etags = record { cache = []; etags = etags }
trim (e ∷ cache) etags =
    if ltb max_cache_size (length (e ∷ cache))
    then record { cache = cache; etags = Dict.remove text_dec e.0 etags }
    else record { cache = e ∷ cache; etags = etags }

-- `if new_etag:`
abbrev pub keep_etag : Text → Option Text → SourceTimes → SourceTimes
keep_etag path none t = t
keep_etag path (some []) t = t
keep_etag path (some (c ∷ etag)) t = record t {
  etags = Dict.insert text_dec path (c ∷ etag) t.etags;
}

-- the request, with what is cached of any age
abbrev pub ask_source : ℕ → Text → Option Text → Commit → SourceTimes → SourceTimes × Option Text
ask_source now path old not_modified t =
    (record t { cache = move_to_end text_dec path (now, old) t.cache }, old)
ask_source now path old unusable t = (t, old)
ask_source now path old (commit time etag) t =
    (keep_etag path etag (trim (move_to_end text_dec path (now, time) t.cache) t.etags), time)

abbrev pub source_unless :
    ℕ → Text → Commit → Option (ℕ × Option Text) → SourceTimes → SourceTimes × Option Text
source_unless now path reply none t = ask_source now path none reply t
source_unless now path reply (some entry) t =
    if ltb now (entry.0 + queue_source_update_ttl)
    then (record t { cache = move_to_end text_dec path entry t.cache }, entry.1)
    else ask_source now path entry.1 reply t

-- `get_queue_source_updated_at`
unfoldable pub get_queue_source_updated_at :
    ℕ → Text → Commit → SourceTimes → SourceTimes × Option Text
get_queue_source_updated_at now region reply t =
    source_unless now (source_path region) reply (Dict.get text_dec (source_path region) t.cache) t

-- `_key` of chart_cache, for a fingerprint or "base"
abbrev pub chart_key : Text → Text → Option Text → Text
chart_key region queue none = codes "chart:v18:" ++ region ++ codes ":" ++ queue ++ codes ":base"
chart_key region queue (some fingerprint) =
    codes "chart:v18:" ++ region ++ codes ":" ++ queue ++ codes ":" ++ fingerprint

-- `cache_key`
abbrev pub base_key : Text → Text → Text
base_key region queue = region ++ codes "_" ++ queue

abbrev pub cache_key : Text → Text → Option Text → Text
cache_key region queue none = base_key region queue
cache_key region queue (some fingerprint) = base_key region queue ++ (codes "_" ++ fingerprint)

-- Redis, as the entries with the time at which they expire; None without a client.
abbrev pub Redis : Type 0 → Type 0
Redis I = Option (Dict Text (ℕ × I))

-- all that lives between two calls
pub record Images (I : Type 0) : Type 0 where
  pub times : SourceTimes
  pub l1 : Dict Text (ℕ × I)
  pub redis : Redis I

-- What a call meets: the clock, GitHub's commit, whether Redis works for it, and the image that
-- GitHub would give.
pub record Meets (I : Type 0) : Type 0 where
  pub now : ℕ
  pub reply : Commit
  pub redis_works : Bool
  pub github_image : Option I

module _ {I : Type 0} where
  -- an entry of Redis that has not expired
  abbrev pub alive : ℕ → Option (ℕ × I) → Option I
  alive now none = none
  alive now (some entry) = if ltb now entry.0 then some entry.1 else none

  -- `chart_cache.get`, `store` and `delete`
  abbrev pub redis_get : Bool → ℕ → Text → Redis I → Option I
  redis_get works now key none = none
  redis_get false now key (some entries) = none
  redis_get true now key (some entries) = alive now (Dict.get text_dec key entries)

  abbrev pub redis_store : Bool → ℕ → Text → I → Redis I → Redis I
  redis_store works now key image none = none
  redis_store false now key image (some entries) = some entries
  redis_store true now key image (some entries) =
      some (Dict.insert text_dec key (now + chart_ttl_s, image) entries)

  abbrev pub redis_delete : Bool → Text → Redis I → Redis I
  redis_delete works key none = none
  redis_delete false key (some entries) = some entries
  redis_delete true key (some entries) = some (Dict.remove text_dec key entries)

  -- a generated image, if any, for Redis
  abbrev pub redis_store_if : Bool → ℕ → Text → Option I → Redis I → Redis I
  redis_store_if works now key none redis = redis
  redis_store_if works now key (some image) redis = redis_store works now key image redis

  -- the entry of the memory that is young enough
  abbrev pub l1_entry : ℕ → Option (ℕ × I) → Option (ℕ × I)
  l1_entry now none = none
  l1_entry now (some entry) = if ltb now (entry.0 + cache_ttl) then some entry else none

  -- `invalidate_image_cache`
  unfoldable pub invalidate_image_cache : Text → Text → Images I → Images I
  invalidate_image_cache region queue s = record s {
    l1 = Dict.remove text_dec (base_key region queue) s.l1;
  }

  module _ (m : Meets I) (region queue : Text) (fingerprint : Option Text) where
    -- `_l1_store_async`, and with `chart_cache.store` before it
    abbrev pub into_l1 : I → Images I → Images I
    into_l1 image s = record s {
      l1 = store text_dec (cache_key region queue fingerprint) m.now image s.l1;
    }

    abbrev pub into_both : I → Images I → Images I
    into_both image s = into_l1 image (record s {
      redis = redis_store m.redis_works m.now (chart_key region queue fingerprint) image s.redis;
    })

    -- "Fallback: GitHub pre-rendered PNG"
    abbrev pub from_github : Option I → Images I → Images I × Option I
    from_github none s = (s, none)
    from_github (some image) s = (into_both image s, some image)

    -- "Generate locally", which does not give an image without a schedule
    abbrev pub from_generated : Option I → Images I → Images I × Option I
    from_generated none s = from_github m.github_image s
    from_generated (some image) s = (into_both image s, some image)

    abbrev pub from_redis : Option I → Option I → Images I → Images I × Option I
    from_redis generated none s = from_generated generated s
    from_redis generated (some image) s = (into_l1 image s, some image)

    abbrev pub from_l1 : Option I → Option (ℕ × I) → Images I → Images I × Option I
    from_l1 generated (some entry) s = (
      record s { l1 = move_to_end text_dec (cache_key region queue fingerprint) entry s.l1 },
      some entry.1,
    )
    from_l1 generated none s =
        from_redis generated
          (redis_get m.redis_works m.now (chart_key region queue fingerprint) s.redis) s

    -- the lookup chain, with what would be generated
    unfoldable pub look_up : Option I → Images I → Images I × Option I
    look_up generated s =
        from_l1 generated
          (l1_entry m.now (Dict.get text_dec (cache_key region queue fingerprint) s.l1)) s

-- `if source_updated_at:`
abbrev pub stamped : Option Text → Text → Text
stamped none own = own
stamped (some []) own = own
stamped (some (c ∷ time)) own = c ∷ time

-- `build_chart_fingerprint`, which reads only the time on the chart
abbrev pub build_chart_fingerprint : (Text → Text) → Text → Text
build_chart_fingerprint digest time = digest (codes "v18:" ++ time)

module _ {S I : Type 0} (own_time : ℕ → S → Text) (generate : Text → Text → S → Text → Option I)
    (digest : Text → Text) where
  -- the branch with a schedule, once the source's time is known; `own_time` is the time that
  -- `normalize_schedule_chart_metadata` leaves, which is the clock's where the schedule has none
  abbrev pub image_of :
      Bool → Meets I → Text → Text → S → Option Text → Images I → Images I × Option I
  image_of on_demand m region queue schedule source s =
      let time = stamped source (own_time m.now schedule) in
      let generated = generate region queue schedule time in
      if on_demand
      then (s, generated)
      else look_up m region queue (some (build_chart_fingerprint digest time)) generated s

  -- `fetch_schedule_image`
  unfoldable pub fetch_schedule_image :
      Bool → Meets I → Text → Text → Option S → Images I → Images I × Option I
  fetch_schedule_image on_demand m region queue none s = look_up m region queue none none s
  fetch_schedule_image on_demand m region queue (some schedule) s =
      let (times, source) = get_queue_source_updated_at m.now region m.reply s.times in
      image_of on_demand m region queue schedule source (record s { times = times })

  -- `_prerender_chart` of bot/services/scheduler.py, which draws with the schedule's own time
  abbrev pub prerender_chart : Bool → ℕ → Text → Text → S → Redis I → Redis I
  prerender_chart works now region queue schedule redis =
      let time = own_time now schedule in
      let key = chart_key region queue (some (build_chart_fingerprint digest time)) in
      redis_store_if works now key (generate region queue schedule time)
        (redis_delete works key redis)
