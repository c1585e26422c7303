-- ===== src/Venues/Changes.antt =====
-- Updates and deletions of venues.
use eventify_backend_course.Common.{
  ℕ, ◌≡◌, ◌⊎◌, inl, inr, refl, ◌∙◌, none, some, List, true, false, arith, find, change, str_eq,
  ◌==◌, Bool-cases, Option-cases, Option, String,
}
use eventify_backend_course.Errors.{Thrown, Result, ok, err, >>=_ok, >>=_err}
use eventify_backend_course.Store.{Venue}
use eventify_backend_course.Venues.Table.{VenueTable, is_venue, is_named, without}
use eventify_backend_course.Venues.Service.{
  VenueUpdateInput, venue_not_found, name_exists, updated, update, remove, get_by_id, get_by_name,
  get_venue_by_id, refuse_other, check_name, update_venue, delete_venue,
}
use eventify_backend_course.Venues.Names.{get_by_name_lem}

module _ (table : VenueTable) where
  open table use {trim, to_lower_case, venue_find_lem, venue_update_lem, venue_delete_lem}

  pub get_venue-none :
      (id : ℕ) (vs : List Venue)
      → find (is_venue id) vs ≡ none
      → get_venue_by_id table id vs ≡ (err venue_not_found, vs)
  unfolding get_venue_by_id get_by_id
  get_venue-none id vs gone = ground (arith, venue_find_lem id vs)

  pub get_venue-some :
      (id : ℕ) (vs : List Venue) (v : Venue)
      → find (is_venue id) vs ≡ some v
      → get_venue_by_id table id vs ≡ (ok v, vs)
  unfolding get_venue_by_id get_by_id
  get_venue-some id vs v there = ground (arith, venue_find_lem id vs)

  -- Another venue has the new name, in lowercase.
  abbrev pub IsTaken : ℕ → Option String → List Venue → Type 0
  IsTaken id name vs =
      (given : String) × (w : Venue) × (name ≡ some given)
      × (str_eq given "" ≡ false)
      × (find (is_named (to_lower_case (trim given))) vs ≡ some w)
      × ((w.id == id) ≡ false)

  -- The check answers, with the rows as they are.
  abbrev Checks : ℕ → Option String → List Venue → Type 0
  Checks id name vs =
      ((check_name table id name vs ≡ (ok tt, vs)) × (¬ IsTaken id name vs))
      ⊎ ((check_name table id name vs ≡ (err name_exists, vs)) × IsTaken id name vs)

  check_given :
      (id : ℕ) (name : String) (vs : List Venue)
      → str_eq name "" ≡ false
      → check_name table id (some name) vs
        ≡ refuse_other table id (find (is_named (to_lower_case (trim name))) vs) vs
  unfolding check_name
  check_given id name vs given =
      rw
        (
          given,
          >>=_ok (get_by_name table (to_lower_case (trim name))) _ vs (get_by_name_lem table _ vs),
        )
        refl

  check_name-none : (id : ℕ) (vs : List Venue) → check_name table id none vs ≡ (ok tt, vs)
  unfolding check_name
  check_name-none id vs = refl

  check_blank :
      (id : ℕ) (name : String) (vs : List Venue)
      → str_eq name "" ≡ true
      → check_name table id (some name) vs ≡ (ok tt, vs)
  unfolding check_name
  check_blank id name vs blank = rw blank refl

  check_name-Checks : (id : ℕ) (name : Option String) (vs : List Venue) → Checks id name vs
  unfolding refuse_other
  check_name-Checks id none vs = inl (check_name-none id vs, λ taken. ground arith)
  check_name-Checks id (some name) vs = elim (Bool-cases (str_eq name "")) [
    | inl blank ↦ inl (check_blank id name vs blank, λ taken. ground arith)
    | inr given ↦ elim (Option-cases (find (is_named (to_lower_case (trim name))) vs)) [
      | inl free ↦
          inl (check_given id name vs given ∙ rw free refl, λ (n, w, p, q, r, t). ground arith)
      | inr (w, there) ↦ elim (Bool-cases (w.id == id)) [
        | inl own ↦ inl (
          check_given id name vs given ∙ rw (there, own) refl,
          λ (n, u, p, q, r, t). ground arith,
        )
        | inr other ↦ inr (
          check_given id name vs given ∙ rw (there, other) refl,
          (name, w, refl, given, there, other),
        )
      ]
    ]
  ]

  -- The outcome of an update at the rows `vs`.
  abbrev pub Updates : ℕ → VenueUpdateInput → List Venue → Result Venue × List Venue → Type 0
  Updates id input vs (err e, vs') =
      (vs' ≡ vs)
      × (find (is_venue id) vs ≡ none → e ≡ venue_not_found)
      × ((v : Venue) → find (is_venue id) vs ≡ some v → IsTaken id input.name vs → e ≡ name_exists)
  Updates id input vs (ok w, vs') =
      (v : Venue) × (find (is_venue id) vs ≡ some v)
      × (w ≡ updated table input v)
      × (vs' ≡ change (is_venue id) (updated table input) vs)
      × (¬ IsTaken id input.name vs)

  update-Updates :
      (id : ℕ) (input : VenueUpdateInput) (vs : List Venue) (v : Venue)
      → find (is_venue id) vs ≡ some v
      → ¬ IsTaken id input.name vs
      → Updates id input vs (update table id input vs)
  unfolding update
  update-Updates id input vs v there free = elim (venue_update_lem id (updated table input) vs) [
    | inl (e, failed) ↦ rw failed (refl, (λ gone. ground arith), (λ w _ taken. absurd (free taken)))
    | inr (w, row, done) ↦ rw done (w, row, refl, refl, free)
  ]

  update_venue-none :
      (id : ℕ) (input : VenueUpdateInput) (vs : List Venue)
      → find (is_venue id) vs ≡ none
      → update_venue table id input vs ≡ (err venue_not_found, vs)
  unfolding update_venue
  update_venue-none id input vs gone =
      rw (>>=_err (get_venue_by_id table id) _ vs (get_venue-none id vs gone)) refl

  update_venue-checked :
      (id : ℕ) (input : VenueUpdateInput) (vs : List Venue) (v : Venue)
      → find (is_venue id) vs ≡ some v
      → check_name table id input.name vs ≡ (ok tt, vs)
      → update_venue table id input vs ≡ update table id input vs
  unfolding update_venue
  update_venue-checked id input vs v there passed =
      rw
        (
          >>=_ok (get_venue_by_id table id) _ vs (get_venue-some id vs v there),
          >>=_ok (check_name table id input.name) _ vs passed,
        )
        refl

  update_venue-taken :
      (id : ℕ) (input : VenueUpdateInput) (vs : List Venue) (v : Venue)
      → find (is_venue id) vs ≡ some v
      → check_name table id input.name vs ≡ (err name_exists, vs)
      → update_venue table id input vs ≡ (err name_exists, vs)
  unfolding update_venue
  update_venue-taken id input vs v there failed =
      rw
        (
          >>=_ok (get_venue_by_id table id) _ vs (get_venue-some id vs v there),
          >>=_err (check_name table id input.name) _ vs failed,
        )
        refl

  pub update_venue-Updates :
      (id : ℕ) (input : VenueUpdateInput) (vs : List Venue)
      → Updates id input vs (update_venue table id input vs)
  update_venue-Updates id input vs = elim (Option-cases (find (is_venue id) vs)) [
    | inl gone ↦
        rw (update_venue-none id input vs gone) (refl, (λ _. refl), (λ v there taken. ground arith))
    | inr (v, there) ↦ elim (check_name-Checks id input.name vs) [
      | inl (passed, free) ↦
          rw (update_venue-checked id input vs v there passed)
            (update-Updates id input vs v there free)
      | inr (failed, taken) ↦
          rw (update_venue-taken id input vs v there failed)
            (refl, (λ gone. ground arith), (λ _ _ _. refl))
    ]
  ]

  -- The outcome of a deletion at the rows `vs`.
  abbrev pub Deletes : ℕ → List Venue → Result Venue × List Venue → Type 0
  Deletes id vs (err e, vs') = (vs' ≡ vs) × (find (is_venue id) vs ≡ none → e ≡ venue_not_found)
  Deletes id vs (ok v, vs') = (find (is_venue id) vs ≡ some v) × (vs' ≡ without id vs)

  delete_venue-none :
      (id : ℕ) (vs : List Venue)
      → find (is_venue id) vs ≡ none
      → delete_venue table id vs ≡ (err venue_not_found, vs)
  unfolding delete_venue
  delete_venue-none id vs gone =
      rw (>>=_err (get_venue_by_id table id) _ vs (get_venue-none id vs gone)) refl

  delete_venue-err :
      (id : ℕ) (vs : List Venue) (v : Venue) (e : Thrown)
      → find (is_venue id) vs ≡ some v
      → remove table id vs ≡ (err e, vs)
      → delete_venue table id vs ≡ (err e, vs)
  unfolding delete_venue
  delete_venue-err id vs v e there failed =
      rw
        (
          >>=_ok (get_venue_by_id table id) _ vs (get_venue-some id vs v there),
          >>=_err (remove table id) _ vs failed,
        )
        refl

  delete_venue-ok :
      (id : ℕ) (vs ws : List Venue) (v w : Venue)
      → find (is_venue id) vs ≡ some v
      → remove table id vs ≡ (ok w, ws)
      → delete_venue table id vs ≡ (ok v, ws)
  unfolding delete_venue
  delete_venue-ok id vs ws v w there done =
      rw
        (
          >>=_ok (get_venue_by_id table id) _ vs (get_venue-some id vs v there),
          >>=_ok (remove table id) _ vs done,
        )
        refl

  -- `deleteVenue` on every branch: 404 without a row, an error of the database with no row changed,
  -- or the row, which is then gone, and it alone.
  pub delete_venue-Deletes : (id : ℕ) (vs : List Venue) → Deletes id vs (delete_venue table id vs)
  unfolding remove
  delete_venue-Deletes id vs = elim (Option-cases (find (is_venue id) vs)) [
    | inl gone ↦ rw (delete_venue-none id vs gone) (refl, λ _. refl)
    | inr (v, there) ↦ elim (venue_delete_lem id vs) [
      | inl (e, failed) ↦ rw (delete_venue-err id vs v e there failed) (refl, λ gone. ground arith)
      | inr (w, row, done) ↦ rw (delete_venue-ok id vs (without id vs) v w there done) (there, refl)
    ]
  ]
