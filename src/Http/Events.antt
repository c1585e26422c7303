-- ===== src/Http/Events.antt =====
-- src/events/controller.ts, and the routes of src/events/routes.ts that write. An id is `none`
-- where the parameter is missing or empty; the parses of the two schemas are parameters.
use eventify_backend_course.Common.{String, Option, none, some, [], ◌∷◌}
use eventify_backend_course.Errors.{Thrown, http_error, throw}
use eventify_backend_course.Store.{Event, Actor, organizer, admin}
use eventify_backend_course.Events.Cache.{Redis, Page}
use eventify_backend_course.Events.Table.{EventTable, EventCreateInput, EventUpdateInput}
use eventify_backend_course.Events.Service as Service
use eventify_backend_course.Events.Service.{World, EventQuery}
use eventify_backend_course.Http.Respond.{Response, send, next_with}
use eventify_backend_course.Http.Validate.{Parsed, validate}
use eventify_backend_course.Http.Access.{
  Tokens, authentication_required, require_auth, require_role,
}

abbrev pub event_id_required : Thrown
event_id_required = http_error 400 "Event id is required"

module _ (redis : Redis) (table : EventTable) where
  open redis use {Cache}

  unfoldable pub create_event : EventCreateInput → World Cache → Response Event × World Cache
  create_event body = send 201 (Service.create_event redis table body)

  unfoldable pub list_events : EventQuery → World Cache → Response Page × World Cache
  list_events query = send 200 (Service.list_events redis table query)

  unfoldable pub get_event : Option String → World Cache → Response Event × World Cache
  get_event none = send 200 (throw event_id_required)
  get_event (some id) = send 200 (Service.get_event_by_id redis table id)

  unfoldable pub update_event :
      Option String → Option Actor → EventUpdateInput → World Cache → Response Event × World Cache
  update_event none user body = send 200 (throw event_id_required)
  update_event (some id) none body = send 200 (throw authentication_required)
  update_event (some id) (some user) body = send 200 (Service.update_event redis table id body user)

  unfoldable pub delete_event :
      Option String → Option Actor → World Cache → Response Event × World Cache
  delete_event none user = send 200 (throw event_id_required)
  delete_event (some id) none = send 200 (throw authentication_required)
  delete_event (some id) (some user) = send 200 (Service.delete_event redis table id user)

-- `createEventSchema` and `updateEventSchema`.
pub record EventSchemas : Type 1 where
  pub Body : Type 0
  pub create_event_schema : Body → Parsed EventCreateInput
  pub update_event_schema : Body → Parsed EventUpdateInput

-- A request to one of the three routes that write.
pub data WriteRequest (Body : Type 0) : Type 0 where
  posts : Body → WriteRequest Body
  patches : Option String → Body → WriteRequest Body
  deletes : Option String → WriteRequest Body

module _ (redis : Redis) (table : EventTable) (tokens : Tokens) (schemas : EventSchemas) where
  open redis use {Cache}
  open schemas use {Body, create_event_schema, update_event_schema}

  -- The rest of a route, behind `requireAuth`.
  unfoldable pub write_events :
      WriteRequest Body → Actor → World Cache → Response Event × World Cache
  write_events (posts body) user =
      next_with (require_role (organizer ∷ admin ∷ []) (some user))
        λ _. next_with (validate create_event_schema body) λ input. create_event redis table input
  write_events (patches id body) user =
      next_with (validate update_event_schema body)
        λ input. update_event redis table id (some user) input
  write_events (deletes id) user = delete_event redis table id (some user)

  unfoldable pub write_route :
      Option String → WriteRequest Body → World Cache → Response Event × World Cache
  write_route header request = next_with (require_auth tokens header) (write_events request)
