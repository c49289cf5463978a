-- ===== src/Fetch/Caching.antt =====
-- What the cache of `fetch_schedule_data` keeps.
use voltyk_bot_v3_python.Prelude.{
  ℕ, ◌≤◌, ◌<◌, ◌≡◌, refl, ◌∙◌, Bool, Option, none, some, [], ◌∷◌, ◌++◌, arith, length, drop,
  if-either, length-append, length-drop, leb,
}
use voltyk_bot_v3_python.Prelude.Dict
use voltyk_bot_v3_python.Prelude.Dict.{Dict}
use voltyk_bot_v3_python.CircuitBreaker.{
  Breaker, Admission, rejected, admitted, is_opened, get_state, enter,
}
use voltyk_bot_v3_python.Fetch.{
  max_cache_size, Fetched, fetched, nothing, failed, network, other, Ticks, Source, Answer,
  move_to_end, make_room, store, fresh_entry, after_fetch, call_breaker, fetch_upstream,
  fetch_unless, fetch_schedule_data,
}

module _ {K D : Type 0} (dec : Discrete K) where
  -- A cache of at most 100 different regions.
  abbrev pub IsBounded : Dict K (ℕ × D) → Type 0
  IsBounded cache = Dict.IsDict dec cache × (length cache ≤ max_cache_size)

  length-remove-le : (k : K) (d : Dict K (ℕ × D)) → length (Dict.remove dec k d) ≤ length d
  length-remove-le k [] = omega arith
  length-remove-le k (e ∷ d) = ground (arith, length-remove-le k d)

  pub get-append_last :
      (j k : K) (v : ℕ × D) (d : Dict K (ℕ × D))
      → Dict.get dec j d ≡ none
      → Dict.get dec j (d ++ ((k, v) ∷ [])) ≡ Dict.get dec j ((k, v) ∷ [])
  get-append_last j k v [] h = refl
  get-append_last j k v (e ∷ d) h = ground (arith, get-append_last j k v d)

  get-append_found :
      (j k : K) (v w : ℕ × D) (d : Dict K (ℕ × D))
      → Dict.get dec j d ≡ some w
      → Dict.get dec j (d ++ ((k, v) ∷ [])) ≡ some w
  get-append_found j k v w [] h = cc
  get-append_found j k v w (e ∷ d) h = ground (arith, get-append_found j k v w d)

  append_last-IsDict :
      (k : K) (v : ℕ × D) (d : Dict K (ℕ × D))
      → Dict.IsDict dec d
      → Dict.get dec k d ≡ none
      → Dict.IsDict dec (d ++ ((k, v) ∷ []))
  append_last-IsDict k v [] h absent = (refl, tt)
  append_last-IsDict k v (e ∷ d) h absent =
      ground (arith, append_last-IsDict k v d h.1, get-append_last e.0 k v d h.0)

  pub removed-none : (k : K) (d : Dict K (ℕ × D)) → Dict.get dec k (Dict.remove dec k d) ≡ none
  removed-none k d = ground (arith, Dict.get-remove dec k k d)

  move_to_end-IsDict :
      (k : K) (v : ℕ × D) (d : Dict K (ℕ × D))
      → Dict.IsDict dec d
      → Dict.IsDict dec (move_to_end dec k v d)
  move_to_end-IsDict k v d h =
      append_last-IsDict k v (Dict.remove dec k d) (Dict.remove-IsDict dec k d h) (removed-none k d)

  pub get-move_to_end :
      (k : K) (v : ℕ × D) (d : Dict K (ℕ × D)) → Dict.get dec k (move_to_end dec k v d) ≡ some v
  get-move_to_end k v d =
      get-append_last k k v (Dict.remove dec k d) (removed-none k d) ∙ ground arith

  length-remove-lt :
      (k : K) (v : ℕ × D) (d : Dict K (ℕ × D))
      → Dict.get dec k d ≡ some v
      → length (Dict.remove dec k d) < length d
  length-remove-lt k v [] h = cc
  length-remove-lt k v (e ∷ d) h = ground (arith, length-remove-le k d, length-remove-lt k v d)

  pub moved-IsBounded :
      (k : K) (v : ℕ × D) (d : Dict K (ℕ × D))
      → IsBounded d
      → Dict.get dec k d ≡ some v
      → IsBounded (move_to_end dec k v d)
  moved-IsBounded k v d (h, n) found = (
    move_to_end-IsDict k v d h,
    omega (arith, length-append (Dict.remove dec k d) ((k, v) ∷ []), length-remove-lt k v d found),
  )

  drop-IsDict : (d : Dict K (ℕ × D)) → Dict.IsDict dec d → Dict.IsDict dec (drop 1 d)
  drop-IsDict [] h = h
  drop-IsDict (e ∷ d) h = h.1

  room :
      (d : Dict K (ℕ × D))
      → IsBounded d
      → Dict.IsDict dec (make_room dec d) × (length (make_room dec d) < max_cache_size)
  room d (h, n) =
      if-either (λ c. Dict.IsDict dec c × (length c < max_cache_size))
        (leb max_cache_size (length d)) (drop 1 d) d
        (λ full. (drop-IsDict d h, omega (arith, length-drop 1 d))) (λ space. (h, ground arith))

  pub store-IsBounded :
      (k : K) (now : ℕ) (x : D) (d : Dict K (ℕ × D)) → IsBounded d → IsBounded (store dec k now x d)
  store-IsBounded k now x d v =
      let (h, n) = room d v in
      (
        move_to_end-IsDict k (now, x) (make_room dec d) h,
        omega (
          arith,
          length-append (Dict.remove dec k (make_room dec d)) ((k, (now, x)) ∷ []),
          length-remove-le k (make_room dec d),
        ),
      )

  module _ (region : K) (now : ℕ) (ticks : Ticks) (result : Fetched D) where
    after_fetch-IsBounded :
        (f : Fetched D) (b : Breaker) (c : Dict K (ℕ × D))
        → IsBounded c
        → IsBounded (after_fetch dec region now ticks result f b c).0.cache
    unfolding after_fetch
    after_fetch-IsBounded (fetched d) b c v = store-IsBounded region now d c v
    after_fetch-IsBounded nothing b c v = v
    after_fetch-IsBounded (failed network) b c v = v
    after_fetch-IsBounded (failed other) b c v = v

    call_breaker-IsBounded :
        (a : Breaker × Admission) (c : Dict K (ℕ × D))
        → IsBounded c
        → IsBounded (call_breaker dec region now ticks result a c).0.cache
    unfolding call_breaker
    call_breaker-IsBounded (b, rejected r) c v = v
    call_breaker-IsBounded (b, admitted) c v = after_fetch-IsBounded result b c v

    fetch_upstream-IsBounded :
        (b : Breaker) (c : Dict K (ℕ × D))
        → IsBounded c
        → IsBounded (fetch_upstream dec region now ticks result b c).0.cache
    unfolding fetch_upstream
    fetch_upstream-IsBounded b c v =
        if-either (λ (x : Source K D × Answer D). IsBounded x.0.cache) (is_opened b.state) _ _
          (λ e. v) (λ e. call_breaker-IsBounded (enter ticks.at_call ticks.at_reject b) c v)

    -- the entry that is found fresh is the one of the region
    fresh_entry-found :
        (force_refresh : Bool) (ttl : ℕ) (o : Option (ℕ × D)) (entry : ℕ × D)
        → fresh_entry dec force_refresh ttl now o ≡ some entry
        → o ≡ some entry
    fresh_entry-found force_refresh ttl none entry h = cc
    fresh_entry-found force_refresh ttl (some e) entry h = ground arith

    fetch_unless-IsBounded :
        (o : Option (ℕ × D)) (s : Source K D)
        → ((entry : ℕ × D) → o ≡ some entry → Dict.get dec region s.cache ≡ some entry)
        → IsBounded s.cache
        → IsBounded (fetch_unless dec region now ticks result o s).0.cache
    unfolding fetch_unless
    fetch_unless-IsBounded (some entry) s h v =
        moved-IsBounded region entry s.cache v (h entry refl)
    fetch_unless-IsBounded none s h v =
        fetch_upstream-IsBounded (get_state ticks.at_state s.breaker) s.cache v

    -- A fetch of any kind leaves at most 100 regions in a cache that had at most 100, and each
    -- of them once.
    pub fetch_schedule_data-IsBounded :
        (force_refresh : Bool) (ttl : ℕ) (s : Source K D)
        → IsBounded s.cache
        → IsBounded (fetch_schedule_data dec region now ticks result force_refresh ttl s).0.cache
    unfolding fetch_schedule_data
    fetch_schedule_data-IsBounded force_refresh ttl s v =
        let found = Dict.get dec region s.cache in
        fetch_unless-IsBounded (fresh_entry dec force_refresh ttl now found) s
          (fresh_entry-found force_refresh ttl found) v
