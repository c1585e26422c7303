-- ===== src/Events/Reads.antt =====
-- The reads through the cache: what they answer and what they leave.
use eventify_backend_course.Common.{
  String, ◌+◌, ◌≡◌, ◌≢◌, ◌⊎◌, inl, inr, refl, ◌∙◌, ap, none, some, true, false, arith, find,
  Bool-cases, Option-cases,
}
use eventify_backend_course.Errors.{Thrown, Result, ok, err, >>=_ok, >>=_err}
use eventify_backend_course.Store.{Event}
use eventify_backend_course.Events.Cache.{Redis}
use eventify_backend_course.Events.Table.{EventTable, is_event, row_at, malformed_id, IsMissing}
use eventify_backend_course.Events.Repository.{get_by_id}
use eventify_backend_course.Events.Service.{
  World, record_hit, record_miss, event_not_found, lookup_event, store_event, read_event,
  fetch_event, get_event_by_id,
}
use eventify_backend_course.Events.Fresh.{IsFresh, IsFresh-set_event}

module _ (redis : Redis) (table : EventTable) where
  open redis use {Cache, is_ready, get_event, get_page, get_version, version}

  -- Neither read changes the table; each counts one hit or one miss.
  abbrev pub Counts : World Cache → World Cache → Type 0
  Counts w w' = (w'.events ≡ w.events) × (w'.hits + w'.misses ≡ w.hits + w.misses + 1)

  -- A read that does not find the event in the cache.
  abbrev pub Missing : String → World Cache → Type 0
  Missing id w = (is_ready w.cache ≡ false) ⊎ ((e : Event) → get_event id w.cache ≢ some (some e))

  lookup_event-hit :
      (id : String) (w : World Cache) (e : Event)
      → is_ready w.cache ≡ true
      → get_event id w.cache ≡ some (some e)
      → lookup_event redis id w ≡ (ok (some e), record_hit w)
  unfolding lookup_event
  lookup_event-hit id w e ready at = ground arith

  lookup_event-miss :
      (id : String) (w : World Cache)
      → Missing id w
      → lookup_event redis id w ≡ (ok none, record_miss w)
  unfolding lookup_event
  lookup_event-miss id w (inl down) = ground arith
  lookup_event-miss id w (inr gone) = elim (Option-cases (get_event id w.cache)) [
    | inl failed ↦ ground arith
    | inr (o, at) ↦ elim (Option-cases o) [
      | inl n ↦ ground arith
      | inr (e, there) ↦ absurd (gone e (at ∙ ap some there))
    ]
  ]

  pub get_event-hit :
      (id : String) (w : World Cache) (e : Event)
      → is_ready w.cache ≡ true
      → get_event id w.cache ≡ some (some e)
      → get_event_by_id redis table id w ≡ (ok e, record_hit w)
  unfolding get_event_by_id
  get_event-hit id w e ready at =
      rw (>>=_ok (lookup_event redis id) _ w (lookup_event-hit id w e ready at)) refl

  pub get_event-miss :
      (id : String) (w : World Cache)
      → Missing id w
      → get_event_by_id redis table id w ≡ fetch_event redis table id (record_miss w)
  unfolding get_event_by_id
  get_event-miss id w missing =
      rw (>>=_ok (lookup_event redis id) _ w (lookup_event-miss id w missing)) refl

  -- A text that is no uuid, or that names no row.
  read_event-none :
      (id : String) (w : World Cache)
      → row_at table id w.events ≡ none
      → (x : Thrown) × IsMissing table id event_not_found x
        × (read_event redis table id w ≡ (err x, w))
  unfolding read_event get_by_id
  read_event-none id w e = elim (Option-cases (table.uuid id)) [
    | inl bad ↦
        (malformed_id, inl (bad, refl), ground (arith, table.event_find_malformed id w.events bad))
    | inr (n, names) ↦
        let gone : find (is_event n) w.events ≡ none = rw names at e in
        (
          event_not_found,
          inr (n, names, refl),
          ground (arith, table.event_find_lem id n w.events names),
        )
  ]

  read_event-some :
      (id : String) (w : World Cache) (e : Event)
      → row_at table id w.events ≡ some e
      → read_event redis table id w ≡ (ok e, w)
  unfolding read_event get_by_id
  read_event-some id w e row = elim (Option-cases (table.uuid id)) [
    | inl bad ↦ let none_some : none ≡ some e = rw bad at row in cc
    | inr (n, names) ↦
        let there : find (is_event n) w.events ≡ some e = rw names at row in
        ground (arith, table.event_find_lem id n w.events names)
  ]

  fetch_event-none :
      (id : String) (w : World Cache)
      → row_at table id w.events ≡ none
      → (x : Thrown) × IsMissing table id event_not_found x
        × (fetch_event redis table id w ≡ (err x, w))
  unfolding fetch_event
  fetch_event-none id w e =
      let (x, missing, failed) = read_event-none id w e in
      (x, missing, rw (>>=_err (read_event redis table id) _ w failed) refl)

  pub fetch_event-some :
      (id : String) (w : World Cache) (e : Event)
      → row_at table id w.events ≡ some e
      → fetch_event redis table id w ≡ (ok e, (store_event redis id e w).1)
  unfolding fetch_event store_event
  fetch_event-some id w e row =
      rw (>>=_ok (read_event redis table id) _ w (read_event-some id w e row)) refl

  -- Each entry of the cache is there before, or it is of the text `id`.
  abbrev pub Adds : String → Cache → Cache → Type 0
  Adds id c c' =
      (i : String) (f : Event)
      → get_event i c' ≡ some (some f)
      → (i ≡ id) ⊎ (get_event i c ≡ some (some f))

  -- What `getEventById` answers where the cache is fresh, and what it leaves.
  abbrev pub GetsEvent : String → World Cache → Result Event × World Cache → Type 0
  GetsEvent id w (ok e, w') =
      (row_at table id w.events ≡ some e)
      × Counts w w'
      × IsFresh redis table w'.cache w.events
      × Adds id w.cache w'.cache
  GetsEvent id w (err e, w') =
      (row_at table id w.events ≡ none)
      × IsMissing table id event_not_found e
      × Counts w w'
      × IsFresh redis table w'.cache w.events
      × Adds id w.cache w'.cache

  fetch_event-GetsEvent :
      (id : String) (w : World Cache)
      → IsFresh redis table w.cache w.events
      → GetsEvent id w (fetch_event redis table id (record_miss w))
  unfolding store_event
  fetch_event-GetsEvent id w h = elim (Option-cases (row_at table id w.events)) [
    | inl e ↦
        let (x, missing, failed) = fetch_event-none id (record_miss w) e in
        rw failed (e, missing, (refl, omega arith), h, λ i f at. inr at)
    | inr (e, row) ↦
        rw (fetch_event-some id (record_miss w) e row) elim (Bool-cases (is_ready w.cache)) [
          | inl ready ↦ rw ready (
            row,
            (refl, omega arith),
            IsFresh-set_event redis table id e w.cache w.events row h,
            λ i f at. elim (redis.set_event_event id i e f w.cache at) [
              | inl (same, _) ↦ inl same
              | inr before ↦ inr before
            ],
          )
          | inr down ↦ rw down (row, (refl, omega arith), h, λ i f at. inr at)
        ]
  ]

  -- `getEventById` on a fresh cache, on every branch, whether Redis is reachable or not: it answers
  -- with the row of the table that the id names, with the 404 where there is none, or with the error of
  -- the database where the id is no uuid; it counts one hit or one miss,
  -- writes no row, and leaves the cache fresh.
  pub get_event_by_id-GetsEvent :
      (id : String) (w : World Cache)
      → IsFresh redis table w.cache w.events
      → GetsEvent id w (get_event_by_id redis table id w)
  get_event_by_id-GetsEvent id w h = elim (Bool-cases (is_ready w.cache)) [
    | inr down ↦ rw (get_event-miss id w (inl down)) (fetch_event-GetsEvent id w h)
    | inl ready ↦ elim (Option-cases (get_event id w.cache)) [
      | inl failed ↦
          rw (get_event-miss id w (inr (λ e at. ground arith))) (fetch_event-GetsEvent id w h)
      | inr (o, at) ↦ elim (Option-cases o) [
        | inl n ↦
            rw (get_event-miss id w (inr (λ e there. ground arith))) (fetch_event-GetsEvent id w h)
        | inr (e, it) ↦
            let found : get_event id w.cache ≡ some (some e) = at ∙ ap some it in
            rw (get_event-hit id w e ready found)
              (h.0 id e found, (refl, omega arith), h, λ i f at. inr at)
      ]
    ]
  ]
