-- ===== src/Events/Service.antt =====
-- src/events/events.service.ts: reads through the cache, and writes that invalidate. Each call here
-- finds no fetch of its key in flight (`Flights` has the map of those); the log lines of the
-- counters are left out.
use eventify_backend_course.Common.{
  ℕ, ◌+◌, String, ◌&&◌, not, Option, none, some, List, ◌==◌, if◌then◌else◌,
}
use eventify_backend_course.Errors.{
  Thrown, http_error, Result, ok, Action, pure, throw, throw_if, gets, ◌>>=◌, ◌>>◌,
}
use eventify_backend_course.Store.{Event, Actor, role_eq, admin}
use eventify_backend_course.Events.Cache.{Redis, ListKey, Page}
use eventify_backend_course.Events.Table.{EventTable, EventCreateInput, EventUpdateInput}
use eventify_backend_course.Events.Repository.{given, create, list, get_by_id, update, remove}

pub record EventQuery : Type 0 where
  pub page : Option ℕ
  pub limit : Option ℕ
  pub venue : Option String
  pub from : Option ℕ
  pub to : Option ℕ

-- The table, the cache, and the variables of the module.
pub record World (C : Type 0) : Type 0 where
  pub events : List Event
  pub cache : C
  pub list_version : ℕ
  pub hits : ℕ
  pub misses : ℕ

abbrev pub event_not_found : Thrown
event_not_found = http_error 404 "Event not found"

abbrev pub may_not_modify : Thrown
may_not_modify = http_error 403 "You do not have permission to modify this event"

abbrev pub record_hit : {C : Type 0} → World C → World C
record_hit w = record w { hits = w.hits + 1 }

abbrev pub record_miss : {C : Type 0} → World C → World C
record_miss w = record w { misses = w.misses + 1 }

-- What a cached read found, and the counters after it.
abbrev pub count_read : {C A : Type 0} → Option (Option A) → World C → Option A × World C
count_read (some (some a)) w = (some a, record_hit w)
count_read (some none) w = (none, record_miss w)
count_read none w = (none, record_miss w)

unfoldable pub list_key : ℕ → EventQuery → ListKey
list_key version query = record {
  version = version;
  page = given query.page 1;
  limit = given query.limit 20;
  venue = query.venue;
  from = query.from;
  to = query.to;
}

unfoldable pub assert_can_modify : {C : Type 0} → Event → Actor → Action (World C) (Unit {0})
assert_can_modify event actor =
    throw_if (not (role_eq actor.role admin) && not (event.organizer_id == actor.sub))
      may_not_modify

-- A call that may write the table of events.
abbrev pub on_events : {C A : Type 0} → (List Event → Result A × List Event) → Action (World C) A
on_events call w = let (r, es) = call w.events in (r, record w { events = es })

module _ (redis : Redis) where
  open redis use {
    Cache, is_ready, get_event, get_page, get_version, set_event, set_page, del_event, incr_version,
  }

  unfoldable pub refresh_list_version : Action (World Cache) (Unit {0})
  refresh_list_version w =
      if is_ready w.cache
      then elim (get_version w.cache) as (λ _. Result (Unit {0}) × World Cache) [
        | none ↦ (ok tt, w)
        | some none ↦ (ok tt, record w { list_version = 0 })
        | some (some v) ↦ (ok tt, record w { list_version = v })
      ]
      else (ok tt, w)

  unfoldable pub bump_list_version : Action (World Cache) (Unit {0})
  bump_list_version w =
      (ok tt, if is_ready w.cache then record w { cache = (incr_version w.cache).1 } else w)

  -- Where the deletion is rejected, the counter is not reached.
  unfoldable pub invalidate_event : String → Action (World Cache) (Unit {0})
  invalidate_event id w =
      let (fulfilled, c) = del_event id w.cache in
      (
        ok tt,
        if is_ready w.cache
            then record w { cache = if fulfilled then (incr_version c).1 else c }
            else w,
      )

  -- The read path of `getEventById`, and the write of what the database answered.
  unfoldable pub lookup_event : String → Action (World Cache) (Option Event)
  lookup_event id w =
      let (found, w') = count_read (if is_ready w.cache then get_event id w.cache else none) w in
      (ok found, w')

  unfoldable pub store_event : String → Event → Action (World Cache) (Unit {0})
  store_event id event w =
      (ok tt, if is_ready w.cache then record w { cache = (set_event id event w.cache).1 } else w)

  unfoldable pub lookup_page : ListKey → Action (World Cache) (Option Page)
  lookup_page key w =
      let (found, w') = count_read (if is_ready w.cache then get_page key w.cache else none) w in
      (ok found, w')

  unfoldable pub store_page : ListKey → Page → Action (World Cache) (Unit {0})
  store_page key page w =
      (ok tt, if is_ready w.cache then record w { cache = (set_page key page w.cache).1 } else w)

module _ (redis : Redis) (table : EventTable) where
  open redis use {Cache}

  unfoldable pub read_event : String → Action (World Cache) Event
  read_event id = do
    event ← (λ w. (get_by_id table id w.events, w))
    elim event [ none ↦ throw event_not_found | some e ↦ pure e ]

  unfoldable pub fetch_event : String → Action (World Cache) Event
  fetch_event id = do event ← read_event id; store_event redis id event; pure event

  unfoldable pub get_event_by_id : String → Action (World Cache) Event
  get_event_by_id id = do
    cached ← lookup_event redis id
    elim cached [ some e ↦ pure e | none ↦ fetch_event id ]

  -- The page that the database has for a key.
  unfoldable pub page_of : ListKey → List Event → Page
  page_of key es =
      let (rows, total) =
        list table key.page key.limit (record { venue = key.venue; from = key.from; to = key.to })
          es in
      record { data_rows = rows; page = key.page; limit = key.limit; total = total }

  unfoldable pub fetch_page : ListKey → Action (World Cache) Page
  fetch_page key = do page ← gets λ w. page_of key w.events; store_page redis key page; pure page

  unfoldable pub list_events : EventQuery → Action (World Cache) Page
  list_events query = do
    refresh_list_version redis
    key ← gets λ w. list_key w.list_version query
    cached ← lookup_page redis key
    elim cached [ some page ↦ pure page | none ↦ fetch_page key ]

  unfoldable pub create_event : EventCreateInput → Action (World Cache) Event
  create_event input = do
    event ← on_events (create table input)
    bump_list_version redis
    pure event

  unfoldable pub update_event : String → EventUpdateInput → Actor → Action (World Cache) Event
  update_event id input actor = do
    event ← get_event_by_id id
    assert_can_modify event actor
    invalidate_event redis id
    on_events (update table id input)

  unfoldable pub delete_event : String → Actor → Action (World Cache) Event
  delete_event id actor = do
    event ← get_event_by_id id
    assert_can_modify event actor
    invalidate_event redis id
    on_events (remove table id)
