-- ===== src/Venues/Names.antt =====
-- The unique names of venues, under creation and update.
use eventify_backend_course.Common.{
  ◌≡◌, ◌⊎◌, inl, inr, refl, ap, none, some, List, ◌∷◌, find, Option-cases, String,
}
use eventify_backend_course.Errors.{Failure, failure, known_error, Result, ok, err, >>=_ok}
use eventify_backend_course.Store.{Venue}
use eventify_backend_course.Venues.Table.{VenueTable, is_named}
use eventify_backend_course.Venues.Service.{
  VenueCreateInput, name_exists, created, create, get_by_name, refuse_taken, create_venue,
}

module _ (table : VenueTable) where
  open table use {
    trim, to_lower_case, venue_row, venue_row_lem, venue_find_lem, venue_find_name_lem,
    venue_create_new, venue_create_taken, venue_update_lem,
  }

  pub get_by_name_lem :
      (name : String) (vs : List Venue)
      → get_by_name table name vs ≡ (ok (find (is_named name) vs), vs)
  unfolding get_by_name
  get_by_name_lem name vs = rw (venue_find_name_lem name vs) refl

  create_venue-refused :
      (input : VenueCreateInput) (vs : List Venue) (v : Venue)
      → find (is_named (to_lower_case (trim input.name))) vs ≡ some v
      → create_venue table input vs ≡ (err name_exists, vs)
  unfolding create_venue refuse_taken
  create_venue-refused input vs v there =
      rw
        (
          >>=_ok (get_by_name table (to_lower_case (trim input.name))) _ vs (get_by_name_lem _ vs),
          there,
        )
        refl

  create_venue-unmatched :
      (input : VenueCreateInput) (vs : List Venue)
      → find (is_named (to_lower_case (trim input.name))) vs ≡ none
      → create_venue table input vs ≡ create table input vs
  unfolding create_venue refuse_taken
  create_venue-unmatched input vs free =
      rw
        (
          >>=_ok (get_by_name table (to_lower_case (trim input.name))) _ vs (get_by_name_lem _ vs),
          free,
        )
        refl

  row_name :
      (input : VenueCreateInput) (vs : List Venue)
      → (venue_row (created table input) vs).name ≡ trim input.name
  unfolding created
  row_name input vs =
      let (id, now, same) = venue_row_lem (created table input) vs in ap (λ v. v.name) same

  -- The outcome of a creation at the rows `vs`.
  abbrev pub Creates : VenueCreateInput → List Venue → Result Venue × List Venue → Type 0
  Creates input vs (err e, vs') =
      (vs' ≡ vs)
      × (((v : Venue) × (e ≡ name_exists)
            × (find (is_named (to_lower_case (trim input.name))) vs ≡ some v))
          ⊎ ((v : Venue) × (e ≡ known_error "P2002")
              × (find (is_named (trim input.name)) vs ≡ some v))
          ⊎ ((f : Failure) × (e ≡ failure f)
              × (find (is_named (trim input.name)) vs ≡ none)
              × (find (is_named (to_lower_case (trim input.name))) vs ≡ none)))
  Creates input vs (ok v, vs') =
      (vs' ≡ v ∷ vs)
      × (v.name ≡ trim input.name)
      × (find (is_named (trim input.name)) vs ≡ none)
      × (find (is_named (to_lower_case (trim input.name))) vs ≡ none)

  -- `createVenue` on every branch: it is refused with the 409 where a venue has the lowercase name,
  -- fails with the database's P2002 where a venue has the name as it is given, and otherwise
  -- either the database fails by itself or one venue with the trimmed name, which no venue had, is
  -- added; an error changes no row.
  pub create_venue-Creates :
      (input : VenueCreateInput) (vs : List Venue) → Creates input vs (create_venue table input vs)
  unfolding create
  create_venue-Creates input vs =
      elim (Option-cases (find (is_named (to_lower_case (trim input.name))) vs)) [
        | inr (v, there) ↦ rw (create_venue-refused input vs v there) (refl, inl (v, refl, there))
        | inl free ↦
            rw (create_venue-unmatched input vs free)
              elim (Option-cases (find (is_named (trim input.name)) vs)) [
                | inr (v, taken) ↦
                    rw
                      (venue_create_taken (created table input) vs v (rw (row_name input vs) taken))
                      (refl, inr (inl (v, refl, taken)))
                | inl unused ↦
                    elim (venue_create_new (created table input) vs
                      (rw (row_name input vs) unused)) [
                        | inl (f, failed) ↦ rw failed (refl, inr (inr (f, refl, unused, free)))
                        | inr done ↦ rw done (refl, row_name input vs, unused, free)
                      ]
              ]
      ]

  -- A venue whose name is not all lowercase is created twice: where a venue has the name as it is
  -- given and none has it in lowercase, the check lets it pass, and the call fails with the
  -- database's error, which is no `HttpError`, in place of the 409.
  pub cased_duplicate :
      (input : VenueCreateInput) (vs : List Venue) (v : Venue)
      → find (is_named (trim input.name)) vs ≡ some v
      → find (is_named (to_lower_case (trim input.name))) vs ≡ none
      → create_venue table input vs ≡ (err (known_error "P2002"), vs)
  unfolding create
  cased_duplicate input vs v taken free =
      rw (create_venue-unmatched input vs free)
        (venue_create_taken (created table input) vs v (rw (row_name input vs) taken))
