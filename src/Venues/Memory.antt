-- ===== src/Venues/Memory.antt =====
-- A table of venues in memory that meets the laws of `VenueTable`, for the tests.
use eventify_backend_course.Common.{
  ℕ, ◌≡◌, ◌⊎◌, inl, inr, refl, String, true, false, Bool, none, some, List, ◌∷◌, find, change,
  str_eq, ◌==◌, if◌then◌else◌, Option-cases, Bool-cases, length,
}
use eventify_backend_course.Errors.{Thrown, known_error, Result, ok, err}
use eventify_backend_course.Store.{Venue}
use eventify_backend_course.Venues.Table.{VenueTable, is_venue, is_named, without}

-- Whether a row other than `id` has the name.
abbrev pub taken_by : ℕ → String → List Venue → Bool
taken_by id name vs = elim (find (is_named name) vs) [
  | none ↦ false
  | some w ↦ if w.id == id then false else true
]

unfoldable pub insert : (ℕ → ℕ → Venue) → List Venue → Result Venue × List Venue
insert row vs = elim (find (is_named (row (length vs) 0).name) vs) [
  | some v ↦ (err (known_error "P2002"), vs)
  | none ↦ (ok (row (length vs) 0), row (length vs) 0 ∷ vs)
]

unfoldable pub change_row : ℕ → (Venue → Venue) → List Venue → Result Venue × List Venue
change_row id f vs = elim (find (is_venue id) vs) [
  | none ↦ (err (known_error "P2025"), vs)
  | some v ↦
      if taken_by id (f v).name vs
      then (err (known_error "P2002"), vs)
      else (ok (f v), change (is_venue id) f vs)
]

unfoldable pub delete_row : ℕ → List Venue → Result Venue × List Venue
delete_row id vs = elim (find (is_venue id) vs) [
  | none ↦ (err (known_error "P2025"), vs)
  | some v ↦ (ok v, without id vs)
]

pub insert_new :
    (row : ℕ → ℕ → Venue) (vs : List Venue)
    → find (is_named (row (length vs) 0).name) vs ≡ none
    → insert row vs ≡ (ok (row (length vs) 0), row (length vs) 0 ∷ vs)
unfolding insert
insert_new row vs e = rw (e, insert)

pub insert_taken :
    (row : ℕ → ℕ → Venue) (vs : List Venue) (v : Venue)
    → find (is_named (row (length vs) 0).name) vs ≡ some v
    → insert row vs ≡ (err (known_error "P2002"), vs)
unfolding insert
insert_taken row vs v e = rw (e, insert)

pub change_row_lem :
    (id : ℕ) (f : Venue → Venue) (vs : List Venue)
    → ((e : Thrown) × (change_row id f vs ≡ (err e, vs)))
      ⊎ ((v : Venue) × (find (is_venue id) vs ≡ some v)
          × (change_row id f vs ≡ (ok (f v), change (is_venue id) f vs)))
unfolding change_row
change_row_lem id f vs = elim (Option-cases (find (is_venue id) vs)) [
  | inl e ↦ inl (known_error "P2025", rw (e, change_row))
  | inr (v, row) ↦ elim (Bool-cases (taken_by id (f v).name vs)) [
    | inl taken ↦ inl (known_error "P2002", rw (row, taken, change_row))
    | inr free ↦ inr (v, row, rw (row, free, change_row))
  ]
]

pub delete_row_lem :
    (id : ℕ) (vs : List Venue)
    → ((e : Thrown) × (delete_row id vs ≡ (err e, vs)))
      ⊎ ((v : Venue) × (find (is_venue id) vs ≡ some v)
          × (delete_row id vs ≡ (ok v, without id vs)))
unfolding delete_row
delete_row_lem id vs = elim (Option-cases (find (is_venue id) vs)) [
  | inl e ↦ inl (known_error "P2025", rw (e, delete_row))
  | inr (v, row) ↦ inr (v, row, rw (row, delete_row))
]

-- The one name with a capital that the tests use.
abbrev lower : String → String
lower name = if str_eq name "Hall" then "hall" else name

abbrev pub venue_memory : VenueTable
venue_memory = record {
  trim = λ s. s;
  to_lower_case = lower;
  venue_find = λ id vs. find (is_venue id) vs;
  venue_find_lem = λ id vs. refl;
  venue_find_name = λ name vs. find (is_named name) vs;
  venue_find_name_lem = λ name vs. refl;
  venue_find_many = λ limit vs. vs;
  venue_row = λ row vs. row (length vs) 0;
  venue_row_lem = λ row vs. (length vs, 0, refl);
  venue_create = insert;
  venue_create_new = λ row vs e. inr (insert_new row vs e);
  venue_create_taken = insert_taken;
  venue_update = change_row;
  venue_update_lem = change_row_lem;
  venue_delete = delete_row;
  venue_delete_lem = delete_row_lem;
}
