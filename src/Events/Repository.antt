-- ===== src/Events/Repository.antt =====
-- src/events/repository.ts.
use eventify_backend_course.Common.{
  ℕ, ◌-◌, ◌*◌, Bool, true, false, ◌&&◌, Option, none, some, List, leb, str_eq, String,
}
use eventify_backend_course.Errors.{Result}
use eventify_backend_course.Store.{Event}
use eventify_backend_course.Events.Table.{
  EventTable, EventCreateInput, EventUpdateInput, EventWhereInput,
}

abbrev pub given {ℓ} : {A : Type ℓ} → Option A → A → A
given none a = a
given (some b) a = b

-- The `where` that `list` builds: a filter that is not given does not restrict.
abbrev is_venue : Option String → Option String → Bool
is_venue none v = true
is_venue (some f) none = false
is_venue (some f) (some v) = str_eq v f

abbrev is_from : Option ℕ → ℕ → Bool
is_from none t = true
is_from (some from) t = leb from t

abbrev is_to : Option ℕ → ℕ → Bool
is_to none t = true
is_to (some to) t = leb t to

unfoldable pub matches : EventWhereInput → Event → Bool
matches filters e =
    is_venue filters.venue e.venue
    && is_from filters.from e.starts_at
    && is_to filters.to e.starts_at

-- `updateData`: a field that is not given stays.
unfoldable pub updated : EventUpdateInput → Event → Event
updated input e = record e {
  title = given input.title e.title;
  description = given input.description e.description;
  venue = given input.venue e.venue;
  starts_at = given input.starts_at e.starts_at;
  capacity = given input.capacity e.capacity;
  price_cents = given input.price_cents e.price_cents;
  organizer_id = given input.organizer_id e.organizer_id;
}

unfoldable pub created : EventCreateInput → ℕ → Event
created input id = record {
  id = id;
  title = input.title;
  description = input.description;
  venue = given input.venue none;
  starts_at = input.starts_at;
  capacity = input.capacity;
  price_cents = given input.price_cents 0;
  organizer_id = input.organizer_id;
}

module _ (table : EventTable) where
  open table use {
    event_create, event_find_many, event_count, event_find, event_update, event_delete,
  }

  unfoldable pub create : EventCreateInput → List Event → Result Event × List Event
  create input es = event_create (created input) es

  -- The rows and the total, read by two queries at once. The schema has `1 ≤ page`.
  unfoldable pub list : ℕ → ℕ → EventWhereInput → List Event → List Event × ℕ
  list page limit filters es = (
    event_find_many (matches filters) ((page - 1) * limit) limit es,
    event_count (matches filters) es,
  )

  unfoldable pub get_by_id : String → List Event → Result (Option Event)
  get_by_id id es = event_find id es

  unfoldable pub update : String → EventUpdateInput → List Event → Result Event × List Event
  update id input es = event_update id (updated input) es

  unfoldable pub remove : String → List Event → Result Event × List Event
  remove id es = event_delete id es
