-- ===== src/Events/Creation.antt =====
-- `createEvent` of src/events/events.service.ts, where the table fails and where it answers.
use eventify_backend_course.Common.{◌≡◌, refl, List}
use eventify_backend_course.Errors.{Thrown, ok, err, >>=_ok, >>=_err}
use eventify_backend_course.Store.{Event}
use eventify_backend_course.Events.Cache.{Redis, IsUp}
use eventify_backend_course.Events.Table.{EventTable, EventCreateInput}
use eventify_backend_course.Events.Repository.{create}
use eventify_backend_course.Events.Service.{World, bump_list_version, on_events, create_event}

module _ (redis : Redis) (table : EventTable) where
  open redis use {Cache, incr_version}

  on_events-err :
      (input : EventCreateInput) (w : World Cache) (x : Thrown)
      → create table input w.events ≡ (err x, w.events)
      → on_events {A = Event} (create table input) w ≡ (err x, w)
  on_events-err input w x failed = rw failed refl

  pub create_event-err :
      (input : EventCreateInput) (w : World Cache) (x : Thrown)
      → create table input w.events ≡ (err x, w.events)
      → create_event redis table input w ≡ (err x, w)
  unfolding create_event
  create_event-err input w x failed =
      rw (>>=_err (on_events (create table input)) _ w (on_events-err input w x failed)) refl

  on_events-ok :
      (input : EventCreateInput) (w : World Cache) (e : Event) (es : List Event)
      → create table input w.events ≡ (ok e, es)
      → on_events {A = Event} (create table input) w ≡ (ok e, record w { events = es })
  on_events-ok input w e es done = rw done refl

  pub create_event-ok :
      IsUp redis
      → (input : EventCreateInput) (w : World Cache) (e : Event) (es : List Event)
      → create table input w.events ≡ (ok e, es)
      → create_event redis table input w
        ≡ (ok e, record w { events = es; cache = (incr_version w.cache).1 })
  unfolding create_event bump_list_version
  create_event-ok up input w e es done =
      rw
        (
          >>=_ok (on_events (create table input)) _ w (on_events-ok input w e es done),
          up.ready w.cache,
        )
        refl
