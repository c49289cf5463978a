-- ===== src/PingAlerts/Touched.antt =====
-- What a round of alerts does to one row of ping_error_alerts.
use voltyk_bot_v3_python.Prelude.{
  ℕ, ◌≤◌, ◌<◌, ◌≡◌, ◌≢◌, refl, sym, ap, ◌∙◌, Bool, true, false, ◌&&◌, List, [], ◌∷◌, ◌++◌, map,
  arith, ltb, ◌==◌, if◌then◌else◌, select, any, All, Bool-cases, inl, inr, if-either, if-then,
  if-else, ==_iff,
}
use voltyk_bot_v3_python.Paging.Complete.{AreDistinct}
use voltyk_bot_v3_python.PingAlerts.{
  PingErrorAlert, alert_id, update_alert, inactive, alerted_at, Round, Done, too_recent, restored,
  alerted, blocked, failed, done_of, write, handle_alerts,
}

map-map :
    {A B C : Type 0} (f : A → B) (g : B → C) (xs : List A)
    → map g (map f xs) ≡ map (λ x. g (f x)) xs
map-map f g [] = refl
map-map f g (x ∷ xs) = ap (◌∷◌ (g (f x))) (map-map f g xs)

pub map_same :
    {A B : Type 0} (f g : A → B) (xs : List A) → All (λ x. f x ≡ g x) xs → map f xs ≡ map g xs
map_same f g [] h = refl
map_same f g (x ∷ xs) h = rw (h.0, map_same f g xs h.1) refl

map_id : {A : Type 0} (f : A → A) (xs : List A) → ((x : A) → f x ≡ x) → map f xs ≡ xs
map_id f [] h = refl
map_id f (x ∷ xs) h = rw (h x, map_id f xs h) refl

module _ (r : Round) where
  -- what one row becomes
  abbrev pub becomes : Done → ℕ → PingErrorAlert → PingErrorAlert
  becomes too_recent tid a = a
  becomes restored tid a = inactive a
  becomes alerted tid a = alerted_at (r.noted_at tid) a
  becomes blocked tid a = inactive a
  becomes failed tid a = a

  -- a row under one alert, and under several
  abbrev touch_by : PingErrorAlert → PingErrorAlert → PingErrorAlert
  touch_by x a = if a.telegram_id == x.telegram_id then becomes (done_of r x) x.telegram_id a else a

  abbrev pub touch : List PingErrorAlert → PingErrorAlert → PingErrorAlert
  touch [] a = a
  touch (x ∷ xs) a = touch xs (touch_by x a)

  write_lem :
      (d : Done) (tid : ℕ) (table : List PingErrorAlert)
      → write r d tid table ≡ map (λ a. if a.telegram_id == tid then becomes d tid a else a) table
  unfolding update_alert
  write_lem too_recent tid table = sym (map_id _ table (λ a. ground arith))
  write_lem restored tid table = refl
  write_lem alerted tid table = refl
  write_lem blocked tid table = refl
  write_lem failed tid table = sym (map_id _ table (λ a. ground arith))

  pub handle_alerts_lem :
      (alerts table : List PingErrorAlert) → handle_alerts r alerts table ≡ map (touch alerts) table
  unfolding handle_alerts
  handle_alerts_lem [] table = sym (map_id _ table (λ a. refl))
  handle_alerts_lem (x ∷ xs) table =
      handle_alerts_lem xs (write r (done_of r x) x.telegram_id table)
      ∙ ap (map (touch xs)) (write_lem (done_of r x) x.telegram_id table)
      ∙ map-map (touch_by x) (touch xs) table

  pub no_alerts : (table : List PingErrorAlert) → handle_alerts r [] table ≡ table
  unfolding handle_alerts
  no_alerts table = refl

  pub handle_alerts_append :
      (xs ys table : List PingErrorAlert)
      → handle_alerts r (xs ++ ys) table ≡ handle_alerts r ys (handle_alerts r xs table)
  unfolding handle_alerts
  handle_alerts_append [] ys table = refl
  handle_alerts_append (x ∷ xs) ys table =
      handle_alerts_append xs ys (write r (done_of r x) x.telegram_id table)

  -- a change keeps the keys, and made twice is made once
  becomes-id : (d : Done) (tid : ℕ) (a : PingErrorAlert) → (becomes d tid a).id ≡ a.id
  becomes-id too_recent tid a = refl
  becomes-id restored tid a = refl
  becomes-id alerted tid a = refl
  becomes-id blocked tid a = refl
  becomes-id failed tid a = refl

  becomes-telegram_id :
      (d : Done) (tid : ℕ) (a : PingErrorAlert) → (becomes d tid a).telegram_id ≡ a.telegram_id
  becomes-telegram_id too_recent tid a = refl
  becomes-telegram_id restored tid a = refl
  becomes-telegram_id alerted tid a = refl
  becomes-telegram_id blocked tid a = refl
  becomes-telegram_id failed tid a = refl

  becomes-becomes :
      (d : Done) (tid : ℕ) (a : PingErrorAlert) → becomes d tid (becomes d tid a) ≡ becomes d tid a
  becomes-becomes too_recent tid a = refl
  becomes-becomes restored tid a = refl
  becomes-becomes alerted tid a = refl
  becomes-becomes blocked tid a = refl
  becomes-becomes failed tid a = refl

  touch-id : (xs : List PingErrorAlert) (a : PingErrorAlert) → (touch xs a).id ≡ a.id
  touch-id [] a = refl
  touch-id (x ∷ xs) a =
      touch-id xs (touch_by x a)
      ∙ if-either (λ (b : PingErrorAlert). b.id ≡ a.id) (a.telegram_id == x.telegram_id) _ a
          (λ e. becomes-id (done_of r x) x.telegram_id a) (λ e. refl)

  touch-telegram_id :
      (xs : List PingErrorAlert) (a : PingErrorAlert) → (touch xs a).telegram_id ≡ a.telegram_id
  touch-telegram_id [] a = refl
  touch-telegram_id (x ∷ xs) a =
      touch-telegram_id xs (touch_by x a)
      ∙ if-either (λ (b : PingErrorAlert). b.telegram_id ≡ a.telegram_id)
          (a.telegram_id == x.telegram_id) _ a
          (λ e. becomes-telegram_id (done_of r x) x.telegram_id a) (λ e. refl)

  abbrev pub mine : PingErrorAlert → PingErrorAlert → Bool
  mine a x = a.telegram_id == x.telegram_id

  touch_by-mine :
      (d : Done) (x a c : PingErrorAlert)
      → mine a x ≡ true
      → done_of r x ≡ d
      → c.telegram_id ≡ a.telegram_id
      → touch_by x c ≡ becomes d a.telegram_id c
  touch_by-mine d x a c same ends key =
      if-then (c.telegram_id == x.telegram_id) _ c (ap (λ t. t == x.telegram_id) key ∙ same)
      ∙ ap (λ k. becomes k x.telegram_id c) ends
      ∙ ap (λ t. becomes d t c) (sym ((==_iff a.telegram_id x.telegram_id).0 same))

  touch_by-other :
      (x a c : PingErrorAlert) → mine a x ≡ false → c.telegram_id ≡ a.telegram_id → touch_by x c ≡ c
  touch_by-other x a c other key =
      if-else (c.telegram_id == x.telegram_id) _ c (ap (λ t. t == x.telegram_id) key ∙ other)

  -- whoever's alerts all end in one way has its row changed in that way, if it is among them
  touch-settled :
      (d : Done) (xs : List PingErrorAlert) (a : PingErrorAlert)
      → All (λ x. mine a x ≡ true → done_of r x ≡ d) xs
      → touch xs (becomes d a.telegram_id a) ≡ becomes d a.telegram_id a
  touch-settled d [] a h = refl
  touch-settled d (x ∷ xs) a h =
      let b = becomes d a.telegram_id a in
      let key = becomes-telegram_id d a.telegram_id a in
      elim (Bool-cases (mine a x)) [
        | inl same ↦
            ap (touch xs)
              (touch_by-mine d x a b same (h.0 same) key ∙ becomes-becomes d a.telegram_id a)
            ∙ touch-settled d xs a h.1
        | inr other ↦ ap (touch xs) (touch_by-other x a b other key) ∙ touch-settled d xs a h.1
      ]

  pub touch_lem :
      (d : Done) (xs : List PingErrorAlert) (a : PingErrorAlert)
      → All (λ x. mine a x ≡ true → done_of r x ≡ d) xs
      → touch xs a ≡ (if any (mine a) xs then becomes d a.telegram_id a else a)
  touch_lem d [] a h = refl
  touch_lem d (x ∷ xs) a h = elim (Bool-cases (mine a x)) [
    | inl same ↦
        ap (touch xs) (touch_by-mine d x a a same (h.0 same) refl)
        ∙ touch-settled d xs a h.1
        ∙ rw same refl
    | inr other ↦
        ap (touch xs) (touch_by-other x a a other refl) ∙ touch_lem d xs a h.1 ∙ rw other refl
  ]

  -- A table whose ids differ and are told by the Telegram ids, which differ too.
  pub record IsAlertTable (owner : ℕ → ℕ) (table : List PingErrorAlert) : Type 0 where
    pub distinct : AreDistinct alert_id table
    pub owned : All (λ (a : PingErrorAlert). a.id ≡ owner a.telegram_id) table

  All-map_to :
      (P Q : PingErrorAlert → Type 0) (f : PingErrorAlert → PingErrorAlert)
      → ((a : PingErrorAlert) → P a → Q (f a))
      → (table : List PingErrorAlert) → All P table
      → All Q (map f table)
  All-map_to P Q f h [] all = tt
  All-map_to P Q f h (a ∷ table) all = (h a all.0, All-map_to P Q f h table all.1)

  map-touch-AreDistinct :
      (xs table : List PingErrorAlert)
      → AreDistinct alert_id table
      → AreDistinct alert_id (map (touch xs) table)
  map-touch-AreDistinct xs [] h = tt
  map-touch-AreDistinct xs (a ∷ table) h = (
    All-map_to (λ b. a.id ≢ b.id) (λ b. (touch xs a).id ≢ b.id) (touch xs)
        (λ b ne e. ne (sym (touch-id xs a) ∙ e ∙ touch-id xs b)) table h.0,
    map-touch-AreDistinct xs table h.1,
  )

  pub touch-IsAlertTable :
      (owner : ℕ → ℕ) (xs table : List PingErrorAlert)
      → IsAlertTable owner table
      → IsAlertTable owner (map (touch xs) table)
  touch-IsAlertTable owner xs table t = record {
    distinct = map-touch-AreDistinct xs table t.distinct;
    owned =
        All-map_to (λ (a : PingErrorAlert). a.id ≡ owner a.telegram_id)
          (λ (a : PingErrorAlert). a.id ≡ owner a.telegram_id) (touch xs)
          (λ a e. touch-id xs a ∙ e ∙ ap owner (sym (touch-telegram_id xs a))) table t.owned;
  }

  -- the rows beyond those that are dealt with stay
  touch-beyond :
      (owner : ℕ → ℕ) (b : ℕ) (xs : List PingErrorAlert) (a : PingErrorAlert)
      → All (λ (x : PingErrorAlert). owner x.telegram_id ≤ b) xs
      → b < owner a.telegram_id
      → touch xs a ≡ a
  touch-beyond owner b [] a low above = refl
  touch-beyond owner b (x ∷ xs) a low above = elim (Bool-cases (mine a x)) [
    | inl same ↦
        let key = ap owner ((==_iff a.telegram_id x.telegram_id).0 same) in
        absurd (omega (arith, low.0, above, key))
    | inr other ↦
        ap (touch xs) (touch_by-other x a a other refl) ∙ touch-beyond owner b xs a low.1 above
  ]

  pub select-touch :
      (owner : ℕ → ℕ) (b : ℕ) (xs table : List PingErrorAlert)
      → All (λ (x : PingErrorAlert). owner x.telegram_id ≤ b) xs
      → All (λ (a : PingErrorAlert). a.id ≡ owner a.telegram_id) table
      → select (λ (a : PingErrorAlert). a.is_active && ltb b a.id) (map (touch xs) table)
        ≡ select (λ (a : PingErrorAlert). a.is_active && ltb b a.id) table
  select-touch owner b xs [] low owned = refl
  select-touch owner b xs (a ∷ table) low owned =
      let rest = select-touch owner b xs table low owned.1 in
      elim (Bool-cases (ltb b a.id)) [
        | inl above ↦
            let beyond : b < a.id = ground arith in
            let same = touch-beyond owner b xs a low (omega (arith, owned.0, beyond)) in
            rw (same, rest) refl
        | inr below ↦
            let below' : ltb b (touch xs a).id ≡ false = ap (ltb b) (touch-id xs a) ∙ below in
            ground (arith, below', rest)
      ]
