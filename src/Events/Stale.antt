-- ===== src/Events/Stale.antt =====
-- The gap in `updateEvent` between its invalidation and its write.
use eventify_backend_course.Common.{
  String, ◌≢◌, ◌≡◌, inr, inl, refl, ◌∙◌, ap, sym, some, true, arith, find, List,
}
use eventify_backend_course.Errors.{Thrown, Result, ok, err}
use eventify_backend_course.Store.{Event}
use eventify_backend_course.Events.Cache.{Redis}
use eventify_backend_course.Events.Table.{EventTable, EventUpdateInput, is_event, row_at}
use eventify_backend_course.Events.Repository.{updated, update}
use eventify_backend_course.Events.Service.{
  World, record_miss, store_event, invalidate_event, on_events, get_event_by_id,
}
use eventify_backend_course.Events.Fresh.{find-change_self, updated_id}
use eventify_backend_course.Events.Reads.{get_event-miss, get_event-hit, fetch_event-some}

module _ (redis : Redis) (table : EventTable) (id : String) (input : EventUpdateInput) where
  open redis use {Cache, get_event, is_ready, del_event, set_event, incr_version}

  -- The cache is reachable, deletes, and keeps what it is given until it expires.
  abbrev pub Keeps : Type 0
  Keeps =
      ((c : Cache) → is_ready c ≡ true)
      × ((c : Cache) → (del_event id c).0 ≡ true)
      × ((e : Event) (c : Cache) → get_event id (set_event id e c).1 ≡ some (some e))

  -- The worlds of the schedule: a writer that passed its checks invalidates, then a reader reads.
  abbrev emptied : World Cache → World Cache
  emptied w = record w { cache = (incr_version (del_event id w.cache).1).1 }

  abbrev refilled : Event → World Cache → World Cache
  refilled e w = record (record_miss (emptied w)) { cache = (set_event id e (emptied w).cache).1 }

  emptied_lem : Keeps → (w : World Cache) → invalidate_event redis id w ≡ (ok tt, emptied w)
  unfolding invalidate_event
  emptied_lem (ready, deletes, _) w = rw (ready w.cache, deletes w.cache) refl

  refilled_lem :
      Keeps
      → (w : World Cache) (e : Event) → row_at table id w.events ≡ some e
      → get_event_by_id redis table id (emptied w) ≡ (ok e, refilled e w)
  unfolding store_event
  refilled_lem (ready, deletes, _) w e row =
      rw
        (
          get_event-miss redis table id (emptied w) (
              inr (λ f at.
                redis.del_event_self id f w.cache (deletes w.cache)
                  (redis.incr_version_event id f (del_event id w.cache).1 at))),
          fetch_event-some redis table id (record_miss (emptied w)) e row,
          ready (emptied w).cache,
        )
        refl

  update-row :
      (e e' : Event) (es es' : List Event)
      → row_at table id es ≡ some e
      → update table id input es ≡ (ok e', es')
      → row_at table id es' ≡ some (updated input e)
  unfolding update
  update-row e e' es es' row done = elim (table.event_update_lem id (updated input) es) [
    | inl (x, failed) ↦ absurd (ok-err (ap (λ r. r.0) (sym done ∙ failed)))
    | inr (n, f, names, row', changed) ↦
        let there : find (is_event n) es ≡ some e = rw names at row in
        let one : some f ≡ some e = sym row' ∙ there in
        let same : f ≡ e = ground arith in
        ap (λ r. row_at table id r.1) (sym done ∙ changed)
        ∙ rw names (find-change_self n (updated input) es f (updated_id input) row')
        ∙ ap (λ g. some (updated input g)) same
  ]
    where
      ok-err : {x : Thrown} → ¬ (◌≡◌ {A = Result Event} (ok e') (err x))
      ok-err q = cc

  -- If another client reads an event between the invalidation of an update and its write, and the
  -- cache keeps what it is given, then after the update the table has the new row, and the next
  -- read still answers with the old one.
  pub stale_refill :
      Keeps
      → (w : World Cache) (e e' : Event) (es' : List Event) → row_at table id w.events ≡ some e
      → update table id input w.events ≡ (ok e', es')
      → let (_, w1) = invalidate_event redis id w in
        let (_, w2) = get_event_by_id redis table id w1 in
        let (written, w3) = on_events {A = Event} (update table id input) w2 in
        (written ≡ ok e')
        × (row_at table id w3.events ≡ some (updated input e))
        × ((get_event_by_id redis table id w3).0 ≡ ok e)
  stale_refill keeps w e e' es' row done =
      rw (emptied_lem keeps w, refilled_lem keeps w e row, done)
        (
          refl,
          update-row e e' w.events es' row done,
          ap (λ r. r.0)
              (get_event-hit redis table id (record (refilled e w) { events = es' }) e
                (keeps.0 (refilled e w).cache) (keeps.2 e (emptied w).cache)),
        )

  -- The cache is reachable, and no command takes the entry of another text away.
  abbrev pub Retains : Type 0
  Retains =
      ((c : Cache) → is_ready c ≡ true)
      × ((c : Cache) → (del_event id c).0 ≡ true)
      × ((i : String) (c : Cache) → i ≢ id → get_event i (del_event id c).1 ≡ get_event i c)
      × ((i : String) (c : Cache) → get_event i (incr_version c).1 ≡ get_event i c)

  -- Another text of the uuid, under which the row is in the cache: after the invalidation and the
  -- write of an update by `id`, the table has the new row for both texts, and a read by the other
  -- text still answers with the old one, where the cache keeps the entries of other texts.
  pub respelled_stale :
      Retains
      → (other : String) (w : World Cache) (e e' : Event) (es' : List Event) → other ≢ id
      → table.uuid other ≡ table.uuid id
      → get_event other w.cache ≡ some (some e)
      → row_at table id w.events ≡ some e
      → update table id input w.events ≡ (ok e', es')
      → let (_, w1) = invalidate_event redis id w in
        let (written, w2) = on_events {A = Event} (update table id input) w1 in
        (written ≡ ok e')
        × (row_at table id w2.events ≡ some (updated input e))
        × (row_at table other w2.events ≡ some (updated input e))
        × ((get_event_by_id redis table other w2).0 ≡ ok e)
  unfolding invalidate_event
  respelled_stale (ready, deletes, keeps, counts) other w e e' es' apart same at row done =
      let new = update-row e e' w.events es' row done in
      let kept : get_event other (incr_version (del_event id w.cache).1).1 ≡ some (some e) =
        counts other (del_event id w.cache).1 ∙ keeps other w.cache apart ∙ at in
      rw (ready w.cache, deletes w.cache, done)
        (
          refl,
          new,
          rw same new,
          ap (λ r. r.0)
              (get_event-hit redis table other
                (record w { events = es'; cache = (incr_version (del_event id w.cache).1).1 }) e
                (ready (incr_version (del_event id w.cache).1).1) kept),
        )
