-- ===== src/Venues/Table.antt =====
-- What src/venues/ uses of code outside the repository: the table of venues behind Prisma, and
-- `trim` and `toLowerCase` of strings.
use eventify_backend_course.Common.{
  ℕ, ◌≡◌, ◌⊎◌, String, Bool, Option, none, some, List, [], ◌∷◌, find, change, str_eq, ◌==◌,
  if◌then◌else◌,
}
use eventify_backend_course.Errors.{Thrown, Failure, failure, known_error, Result, ok, err}
use eventify_backend_course.Store.{Venue}

abbrev pub is_venue : ℕ → Venue → Bool
is_venue id v = v.id == id

abbrev pub is_named : String → Venue → Bool
is_named name v = str_eq v.name name

abbrev pub without : ℕ → List Venue → List Venue
without id [] = []
without id (v ∷ vs) = if is_venue id v then vs else v ∷ without id vs

pub record VenueTable : Type 0 where
  pub trim : String → String
  pub to_lower_case : String → String
  -- venue.findUnique({ where: { id } })
  pub venue_find : ℕ → List Venue → Option Venue
  pub venue_find_lem : (id : ℕ) (vs : List Venue) → venue_find id vs ≡ find (is_venue id) vs
  -- venue.findUnique({ where: { name } })
  pub venue_find_name : String → List Venue → Option Venue
  pub venue_find_name_lem :
      (name : String) (vs : List Venue) → venue_find_name name vs ≡ find (is_named name) vs
  -- venue.findMany({ take, orderBy: { createdAt: "desc" } })
  pub venue_find_many : Option ℕ → List Venue → List Venue
  -- venue.create({ data }), the data without the id and the time, which the schema gives; it may
  -- fail, as where the capacity is above the 32 bits of its column
  pub venue_row : (ℕ → ℕ → Venue) → List Venue → Venue
  pub venue_row_lem :
      (row : ℕ → ℕ → Venue) (vs : List Venue)
      → (id : ℕ) × (now : ℕ) × (venue_row row vs ≡ row id now)
  pub venue_create : (ℕ → ℕ → Venue) → List Venue → Result Venue × List Venue
  pub venue_create_new :
      (row : ℕ → ℕ → Venue) (vs : List Venue)
      → find (is_named (venue_row row vs).name) vs ≡ none
      → ((f : Failure) × (venue_create row vs ≡ (err (failure f), vs)))
        ⊎ (venue_create row vs ≡ (ok (venue_row row vs), venue_row row vs ∷ vs))
  pub venue_create_taken :
      (row : ℕ → ℕ → Venue) (vs : List Venue) (v : Venue)
      → find (is_named (venue_row row vs).name) vs ≡ some v
      → venue_create row vs ≡ (err (known_error "P2002"), vs)
  -- venue.update({ where: { id }, data }): it fails where the row is missing or the name taken
  pub venue_update : ℕ → (Venue → Venue) → List Venue → Result Venue × List Venue
  pub venue_update_lem :
      (id : ℕ) (f : Venue → Venue) (vs : List Venue)
      → ((e : Thrown) × (venue_update id f vs ≡ (err e, vs)))
        ⊎ ((v : Venue) × (find (is_venue id) vs ≡ some v)
            × (venue_update id f vs ≡ (ok (f v), change (is_venue id) f vs)))
  -- venue.delete({ where: { id } })
  pub venue_delete : ℕ → List Venue → Result Venue × List Venue
  pub venue_delete_lem :
      (id : ℕ) (vs : List Venue)
      → ((e : Thrown) × (venue_delete id vs ≡ (err e, vs)))
        ⊎ ((v : Venue) × (find (is_venue id) vs ≡ some v)
            × (venue_delete id vs ≡ (ok v, without id vs)))
