-- ===== src/Tests/Events.antt =====
-- Events behind a cache, in memory.
use eventify_backend_course.Common.{
  ℕ, ◌≡◌, refl, String, Option, none, some, [], ◌∷◌, arith, if◌then◌else◌, ◌==◌, str_eq,
}
use eventify_backend_course.Errors.{ok, err}
use eventify_backend_course.Store.{Event, Actor, attendee, organizer}
use eventify_backend_course.Events.Table.{EventUpdateInput, row_at}
use eventify_backend_course.Events.Repository.{updated, update, remove, get_by_id}
use eventify_backend_course.Events.Service.{
  World, EventQuery, may_not_modify, event_not_found, invalidate_event, on_events, get_event_by_id,
  list_events, update_event, delete_event, lookup_event, store_event, read_event, fetch_event,
  assert_can_modify,
}
use eventify_backend_course.Events.Memory.{
  Entries, put-other, redis_memory, redis_memory-IsUp, event_memory,
}
use eventify_backend_course.Events.Fresh.{IsFresh}
use eventify_backend_course.Events.Reads.{GetsEvent}
use eventify_backend_course.Events.Lists.{ListsEvents}
use eventify_backend_course.Events.Modify.{Answers, IsAlone}
use eventify_backend_course.Events.Writes.{
  Updates, Deletes, update_event-Answers, delete_event-Answers,
}
use eventify_backend_course.Events.Runs.{
  IsSpelled, Reach, start, next, gets, updates, Reach-IsTransparent,
}
use eventify_backend_course.Events.Stale.{stale_refill, respelled_stale}
use eventify_backend_course.Events.Flights.{requests, settles, run, fetches, run-fetches}
use eventify_backend_course.Tests.Bookings.{event}

abbrev pub cold : World Entries
cold = record {
  events = event ∷ [];
  cache = record { rows = λ i. none; counter = 0 };
  list_version = 0;
  hits = 0;
  misses = 0;
}

pub cold-IsFresh : IsFresh redis_memory event_memory cold.cache cold.events
cold-IsFresh = ((λ i e at. let gone : none ≡ some e = ground arith in cc), (λ k p at. ground arith))

cold-IsAlone : IsAlone redis_memory event_memory redis_memory-IsUp "a1" cold.cache
cold-IsAlone i e at same = let gone : none ≡ some e = ground arith in cc

abbrev pub enlarge : EventUpdateInput
enlarge = record {
  title = none;
  description = none;
  venue = none;
  starts_at = none;
  capacity = some 2;
  price_cents = none;
  organizer_id = none;
}

abbrev pub owner : Actor
owner = record { sub = 9; role = organizer }

abbrev stranger : Actor
stranger = record { sub = 8; role = attendee }

event_calls :
    ((get_event_by_id redis_memory event_memory "a1" cold).0 ≡ ok event)
    × ((update_event redis_memory event_memory "a1" enlarge owner cold).0
        ≡ ok (updated enlarge event))
    × ((update_event redis_memory event_memory "a1" enlarge stranger cold).0 ≡ err may_not_modify)
    × ((delete_event redis_memory event_memory "a2" owner cold).0 ≡ err event_not_found)
unfolding event_memory get_event_by_id lookup_event store_event read_event fetch_event get_by_id
    update_event update assert_can_modify invalidate_event delete_event remove updated
event_calls = (refl, refl, refl, refl)

update_event-Answers_example :
    let (r, w') = update_event redis_memory event_memory "a1" enlarge owner cold in
    Answers redis_memory event_memory redis_memory-IsUp "a1" owner
      (Updates redis_memory event_memory redis_memory-IsUp "a1" enlarge)
      cold
      (r, w')
    × IsFresh redis_memory event_memory w'.cache w'.events
update_event-Answers_example =
    update_event-Answers redis_memory event_memory redis_memory-IsUp "a1" enlarge owner cold
      cold-IsFresh cold-IsAlone

delete_event-Answers_example :
    let (r, w') = delete_event redis_memory event_memory "a1" owner cold in
    Answers redis_memory event_memory redis_memory-IsUp "a1" owner
      (Deletes redis_memory event_memory redis_memory-IsUp "a1" cold.events)
      cold
      (r, w')
    × IsFresh redis_memory event_memory w'.cache w'.events
delete_event-Answers_example =
    delete_event-Answers redis_memory event_memory redis_memory-IsUp "a1" owner cold cold-IsFresh
      cold-IsAlone

-- The cached read, then an update.
abbrev raised : World Entries
raised =
    (update_event redis_memory event_memory "a1" enlarge owner
      (get_event_by_id redis_memory event_memory "a1" cold).1).1

lower : ℕ → String
lower n = if n == 1 then "a1" else "a2"

a1-IsSpelled : IsSpelled redis_memory event_memory lower "a1"
unfolding lower event_memory
a1-IsSpelled n names = ground arith

raised-Reach : Reach redis_memory event_memory lower cold raised
raised-Reach = next (next start (gets "a1" a1-IsSpelled)) (updates "a1" enlarge owner a1-IsSpelled)

Reach-IsTransparent_example :
    ((id : String)
      → GetsEvent redis_memory event_memory id raised
          (get_event_by_id redis_memory event_memory id raised))
    × ((q : EventQuery)
        → ListsEvents redis_memory event_memory q raised
            (list_events redis_memory event_memory q raised))
Reach-IsTransparent_example =
    Reach-IsTransparent redis_memory event_memory lower redis_memory-IsUp cold raised cold-IsFresh
      (λ i e at. let gone : none ≡ some e = ground arith in cc) raised-Reach

stale_refill_example :
    let (_, w1) = invalidate_event redis_memory "a1" cold in
    let (_, w2) = get_event_by_id redis_memory event_memory "a1" w1 in
    let (written, w3) = on_events {A = Event} (update event_memory "a1" enlarge) w2 in
    (written ≡ ok (updated enlarge event))
    × (row_at event_memory "a1" w3.events ≡ some (updated enlarge event))
    × ((get_event_by_id redis_memory event_memory "a1" w3).0 ≡ ok event)
unfolding event_memory update updated
stale_refill_example =
    stale_refill redis_memory event_memory "a1" enlarge ((λ c. refl), (λ c. refl), (λ e c. refl))
      cold event (updated enlarge event) (updated enlarge event ∷ []) refl refl

-- The event is in the cache under its capital letters.
abbrev capital : World Entries
capital = record cold { cache = record { rows = only; counter = 0 } }
  where
    only : String → Option Event
    only i = if str_eq i "A1" then some event else none

respelled_stale_example :
    let (_, w1) = invalidate_event redis_memory "a1" capital in
    let (written, w2) = on_events {A = Event} (update event_memory "a1" enlarge) w1 in
    (written ≡ ok (updated enlarge event))
    × (row_at event_memory "a1" w2.events ≡ some (updated enlarge event))
    × (row_at event_memory "A1" w2.events ≡ some (updated enlarge event))
    × ((get_event_by_id redis_memory event_memory "A1" w2).0 ≡ ok event)
unfolding event_memory update updated
respelled_stale_example =
    respelled_stale redis_memory event_memory "a1" enlarge
      ((λ c. refl), (λ c. refl), (λ i c ne. put-other "a1" i c.rows ne), (λ i c. refl)) "A1" capital
      event (updated enlarge event) (updated enlarge event ∷ []) (λ e. cc) refl refl refl refl

-- Three requests for the event 1, and another event in between.
run-fetches_example :
    fetches 1 (
      run
        (requests 1 ∷ requests 2 ∷ requests 1 ∷ settles 2 ∷ requests 1 ∷ [])
        (record { inflight = []; started = [] }))
    ≡ 1
run-fetches_example =
    run-fetches 1 (requests 1 ∷ requests 2 ∷ requests 1 ∷ settles 2 ∷ requests 1 ∷ [])
      (record { inflight = []; started = [] }) refl refl refl
