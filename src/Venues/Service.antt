-- ===== src/Venues/Service.antt =====
-- src/venues/service.ts and src/venues/repository.ts.
use eventify_backend_course.Common.{
  ℕ, String, not, Option, none, some, List, str_eq, ◌==◌, if◌then◌else◌,
}
use eventify_backend_course.Errors.{
  Thrown, http_error, Action, pure, throw, throw_if, gets, ◌>>=◌, ◌>>◌,
}
use eventify_backend_course.Store.{Venue}
use eventify_backend_course.Venues.Table.{VenueTable}

pub record VenueCreateInput : Type 0 where
  pub name : String
  pub address : String
  pub capacity : ℕ
  pub contact_email : String

pub record VenueUpdateInput : Type 0 where
  pub name : Option String
  pub address : Option String
  pub capacity : Option ℕ
  pub contact_email : Option String

abbrev pub venue_not_found : Thrown
venue_not_found = http_error 404 "Venue not found"

abbrev pub name_exists : Thrown
name_exists = http_error 409 "Venue name already exists"

abbrev either : {A : Type 0} → Option A → (A → A) → A → A
either none f a = a
either (some b) f a = f b

module _ (table : VenueTable) where
  open table use {
    trim, to_lower_case, venue_create, venue_find_many, venue_find, venue_find_name, venue_update,
    venue_delete,
  }

  unfoldable pub created : VenueCreateInput → ℕ → ℕ → Venue
  created input id now = record {
    id = id;
    name = trim input.name;
    address = trim input.address;
    capacity = input.capacity;
    contact_email = trim input.contact_email;
    created_at = now;
  }

  unfoldable pub updated : VenueUpdateInput → Venue → Venue
  updated input v = record v {
    name = either input.name trim v.name;
    address = either input.address trim v.address;
    capacity = either input.capacity (λ n. n) v.capacity;
    contact_email = either input.contact_email trim v.contact_email;
  }

  unfoldable pub create : VenueCreateInput → Action (List Venue) Venue
  create input = venue_create (created input)

  unfoldable pub list : Option ℕ → Action (List Venue) (List Venue)
  list limit = gets (venue_find_many limit)

  unfoldable pub get_by_id : ℕ → Action (List Venue) (Option Venue)
  get_by_id id = gets (venue_find id)

  unfoldable pub get_by_name : String → Action (List Venue) (Option Venue)
  get_by_name name = gets (venue_find_name name)

  unfoldable pub update : ℕ → VenueUpdateInput → Action (List Venue) Venue
  update id input = venue_update id (updated input)

  unfoldable pub remove : ℕ → Action (List Venue) Venue
  remove id = venue_delete id

  unfoldable pub refuse_taken : Option Venue → Action (List Venue) (Unit {0})
  refuse_taken none = pure tt
  refuse_taken (some v) = throw name_exists

  unfoldable pub create_venue : VenueCreateInput → Action (List Venue) Venue
  create_venue input = do
    existing ← get_by_name (to_lower_case (trim input.name))
    refuse_taken existing
    create input

  unfoldable pub list_venues : Option ℕ → Action (List Venue) (List Venue)
  list_venues limit = list limit

  unfoldable pub get_venue_by_id : ℕ → Action (List Venue) Venue
  get_venue_by_id id = do
    venue ← get_by_id id
    elim venue [ none ↦ throw venue_not_found | some v ↦ pure v ]

  -- `if (duplicate && duplicate.id !== id)`
  unfoldable pub refuse_other : ℕ → Option Venue → Action (List Venue) (Unit {0})
  refuse_other id none = pure tt
  refuse_other id (some v) = throw_if (not (v.id == id)) name_exists

  -- `if (input.name)`: not for a name that is not given or empty.
  unfoldable pub check_name : ℕ → Option String → Action (List Venue) (Unit {0})
  unfolding refuse_other
  check_name id none = pure tt
  check_name id (some name) =
      if str_eq name ""
      then pure tt
      else (do duplicate ← get_by_name (to_lower_case (trim name)); refuse_other id duplicate)

  unfoldable pub update_venue : ℕ → VenueUpdateInput → Action (List Venue) Venue
  update_venue id input = do get_venue_by_id id; check_name id input.name; update id input

  unfoldable pub delete_venue : ℕ → Action (List Venue) Venue
  delete_venue id = do existing ← get_venue_by_id id; remove id; pure existing
