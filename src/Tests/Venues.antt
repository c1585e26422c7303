-- ===== src/Tests/Venues.antt =====
-- Venues in memory.
use eventify_backend_course.Common.{ℕ, ◌≡◌, refl, none, some, [], ◌∷◌}
use eventify_backend_course.Errors.{known_error, ok, err}
use eventify_backend_course.Store.{Venue}
use eventify_backend_course.Venues.Service.{
  VenueCreateInput, VenueUpdateInput, create, created, update, updated, remove, get_by_id,
  get_by_name, refuse_taken, refuse_other, check_name, create_venue, update_venue, delete_venue,
  get_venue_by_id, venue_not_found,
}
use eventify_backend_course.Venues.Memory.{venue_memory, insert, change_row, delete_row}
use eventify_backend_course.Venues.Names.{Creates, create_venue-Creates, cased_duplicate}
use eventify_backend_course.Venues.Changes.{Deletes, delete_venue-Deletes}
use eventify_backend_course.Http.Validate.{parsed, refused}
use eventify_backend_course.Http.Venues.{VenueSchemas, patches, venue_route}
use eventify_backend_course.Http.Openings.{Handles, venue_route-Handles}

abbrev hall : Venue
hall = record {
  id = 0;
  name = "Hall";
  address = "Main St";
  capacity = 10;
  contact_email = "hall@eventify.dev";
  created_at = 0;
}

abbrev again : VenueCreateInput
again = record {
  name = "Hall";
  address = "Side St";
  capacity = 5;
  contact_email = "x@eventify.dev";
}

abbrev rename : VenueUpdateInput
rename = record { name = some "barn"; address = none; capacity = none; contact_email = none }

venue_calls :
    ((create_venue venue_memory again []).0 ≡ ok (created venue_memory again 0 0))
    × ((update_venue venue_memory 0 rename (hall ∷ [])).1 ≡ record hall { name = "barn" } ∷ [])
    × ((delete_venue venue_memory 0 (hall ∷ [])).1 ≡ [])
    × ((delete_venue venue_memory 1 (hall ∷ [])).0 ≡ err venue_not_found)
unfolding create_venue get_by_name refuse_taken create created insert update_venue get_venue_by_id
    get_by_id check_name refuse_other update updated change_row delete_venue remove delete_row
venue_calls = (refl, refl, refl, refl)

create_venue-Creates_example :
    Creates venue_memory again (hall ∷ []) (create_venue venue_memory again (hall ∷ []))
create_venue-Creates_example = create_venue-Creates venue_memory again (hall ∷ [])

cased_duplicate_example :
    create_venue venue_memory again (hall ∷ []) ≡ (err (known_error "P2002"), hall ∷ [])
cased_duplicate_example = cased_duplicate venue_memory again (hall ∷ []) hall refl refl

delete_venue-Deletes_example :
    Deletes venue_memory 0 (hall ∷ []) (delete_venue venue_memory 0 (hall ∷ []))
delete_venue-Deletes_example = delete_venue-Deletes venue_memory 0 (hall ∷ [])

abbrev schemas : VenueSchemas
schemas = record {
  Body = ℕ;
  create_venue_schema = λ body. parsed again;
  update_venue_schema = λ body. parsed rename;
  list_venue_query_schema = λ body. refused [];
}

venue_route-Handles_example :
    Handles venue_memory schemas
      (patches (some 0) 1)
      (hall ∷ [])
      (venue_route venue_memory schemas (patches (some 0) 1) (hall ∷ []))
venue_route-Handles_example =
    venue_route-Handles venue_memory schemas (patches (some 0) 1) (hall ∷ [])
