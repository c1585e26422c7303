-- ===== src/Http/Venues.antt =====
-- src/venues/controller.ts and src/venues/routes.ts. An id is `none` where the parameter is missing
-- or empty; the parses of the schemas are parameters.
use eventify_backend_course.Common.{ℕ, Option, none, some, List}
use eventify_backend_course.Errors.{Thrown, http_error, Result, ok, err}
use eventify_backend_course.Store.{Venue}
use eventify_backend_course.Venues.Table.{VenueTable}
use eventify_backend_course.Venues.Service as Service
use eventify_backend_course.Venues.Service.{VenueCreateInput, VenueUpdateInput}
use eventify_backend_course.Http.Respond.{Response, send, next_with}
use eventify_backend_course.Http.Validate.{Parsed, validate, validate_query}

abbrev pub venue_id_required : Thrown
venue_id_required = http_error 400 "Venue id is required"

unfoldable pub get_venue_id : Option ℕ → Result ℕ
get_venue_id none = err venue_id_required
get_venue_id (some id) = ok id

-- The members of a validated query that the handler reads.
pub record VenueQuery : Type 0 where
  pub limit : Option ℕ

-- `req.validatedQuery ?? {}`
unfoldable pub limit_of : Option VenueQuery → Option ℕ
limit_of none = none
limit_of (some query) = query.limit

module _ (table : VenueTable) where
  unfoldable pub create_venue : VenueCreateInput → List Venue → Response Venue × List Venue
  create_venue body = send 201 (Service.create_venue table body)

  unfoldable pub list_venues : Option VenueQuery → List Venue → Response (List Venue) × List Venue
  unfolding limit_of
  list_venues query = send 200 (Service.list_venues table (limit_of query))

  unfoldable pub get_venue : Option ℕ → List Venue → Response Venue × List Venue
  unfolding get_venue_id
  get_venue id =
      next_with (get_venue_id id) λ venue_id. send 200 (Service.get_venue_by_id table venue_id)

  unfoldable pub update_venue :
      Option ℕ → VenueUpdateInput → List Venue → Response Venue × List Venue
  unfolding get_venue_id
  update_venue id body =
      next_with (get_venue_id id) λ venue_id. send 200 (Service.update_venue table venue_id body)

  unfoldable pub delete_venue : Option ℕ → List Venue → Response Venue × List Venue
  unfolding get_venue_id
  delete_venue id =
      next_with (get_venue_id id) λ venue_id. send 200 (Service.delete_venue table venue_id)

-- The schemas of src/venues/schema.ts.
pub record VenueSchemas : Type 1 where
  pub Body : Type 0
  pub create_venue_schema : Body → Parsed VenueCreateInput
  pub update_venue_schema : Body → Parsed VenueUpdateInput
  pub list_venue_query_schema : Body → Parsed VenueQuery

-- A request to one of the routes that answer with a venue.
pub data VenueRouteRequest (Body : Type 0) : Type 0 where
  posts : Body → VenueRouteRequest Body
  gets : Option ℕ → VenueRouteRequest Body
  patches : Option ℕ → Body → VenueRouteRequest Body
  deletes : Option ℕ → VenueRouteRequest Body

module _ (table : VenueTable) (schemas : VenueSchemas) where
  open schemas use {Body, create_venue_schema, update_venue_schema, list_venue_query_schema}

  unfoldable pub venue_route : VenueRouteRequest Body → List Venue → Response Venue × List Venue
  venue_route (posts body) = next_with (validate create_venue_schema body) (create_venue table)
  venue_route (gets id) = get_venue table id
  venue_route (patches id body) =
      next_with (validate update_venue_schema body) (update_venue table id)
  venue_route (deletes id) = delete_venue table id

  unfoldable pub list_route : Body → List Venue → Response (List Venue) × List Venue
  list_route query =
      next_with (validate_query list_venue_query_schema query)
        λ valid. list_venues table (some valid)
