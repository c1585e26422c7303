-- ===== src/Http/Openings.antt =====
-- What the routes of venues do to the table: they are open to everyone.
use eventify_backend_course.Common.{
  ℕ, ◌≡◌, inl, inr, refl, Option, none, some, find, change, List, ◌∷◌, Option-cases,
}
use eventify_backend_course.Errors.{Thrown, http, failure, Result, ok, err}
use eventify_backend_course.Store.{Venue}
use eventify_backend_course.Venues.Table.{VenueTable, is_venue, is_named, without}
use eventify_backend_course.Venues.Service as Service
use eventify_backend_course.Venues.Service.{VenueCreateInput, VenueUpdateInput, updated}
use eventify_backend_course.Venues.Names.{Creates, create_venue-Creates}
use eventify_backend_course.Venues.Changes.{
  Updates, update_venue-Updates, Deletes, delete_venue-Deletes, get_venue-none, get_venue-some,
}
use eventify_backend_course.Http.Respond.{
  Response, success, error, thrown, respond, send, next_with,
}
use eventify_backend_course.Http.Rights.{next_with-cases}
use eventify_backend_course.Http.Validate.{parsed, validate, validate_parsed}
use eventify_backend_course.Http.Venues.{
  get_venue_id, create_venue, get_venue, update_venue, delete_venue, VenueSchemas,
  VenueRouteRequest, posts, gets, patches, deletes, venue_route,
}

module _ (table : VenueTable) (schemas : VenueSchemas) where
  open schemas use {Body, create_venue_schema, update_venue_schema}

  -- What a request that succeeds did.
  abbrev pub Did : VenueRouteRequest Body → ℕ → List Venue → Venue → List Venue → Type 0
  Did (posts body) status vs v vs' =
      (status ≡ 201)
      × (input : VenueCreateInput) × (create_venue_schema body ≡ parsed input)
      × (v.name ≡ table.trim input.name)
      × (find (is_named v.name) vs ≡ none)
      × (vs' ≡ v ∷ vs)
  Did (gets id) status vs v vs' =
      (status ≡ 200) × (n : ℕ) × (id ≡ some n) × (find (is_venue n) vs ≡ some v) × (vs' ≡ vs)
  Did (patches id body) status vs v vs' =
      (status ≡ 200)
      × (n : ℕ) × (input : VenueUpdateInput) × (w : Venue) × (id ≡ some n)
      × (update_venue_schema body ≡ parsed input)
      × (find (is_venue n) vs ≡ some w)
      × (v ≡ updated table input w)
      × (vs' ≡ change (is_venue n) (updated table input) vs)
  Did (deletes id) status vs v vs' =
      (status ≡ 200)
      × (n : ℕ) × (id ≡ some n)
      × (find (is_venue n) vs ≡ some v)
      × (vs' ≡ without n vs)

  abbrev pub Handles : VenueRouteRequest Body → List Venue → Response Venue × List Venue → Type 0
  Handles request vs (error status message details, vs') = vs' ≡ vs
  Handles request vs (success status v, vs') = Did request status vs v vs'

  abbrev Serves : VenueRouteRequest Body → ℕ → List Venue → Result Venue × List Venue → Type 0
  Serves request status vs (err e, vs') = vs' ≡ vs
  Serves request status vs (ok v, vs') = Did request status vs v vs'

  stops :
      (request : VenueRouteRequest Body) (vs vs' : List Venue) (e : Thrown)
      → vs' ≡ vs
      → Handles request vs (respond (thrown e), vs')
  unfolding respond
  stops request vs vs' (http e) same = same
  stops request vs vs' (failure e) same = same

  sends :
      (request : VenueRouteRequest Body) (vs : List Venue) (status : ℕ)
      (call : List Venue → Result Venue × List Venue)
      → Serves request status vs (call vs)
      → Handles request vs (send status call vs)
  unfolding send
  sends request vs status call done = let (r, vs') = call vs in sent r vs' done
    where
      sent :
          (r : Result Venue) (vs' : List Venue)
          → Serves request status vs (r, vs')
          → Handles request vs (
            elim r as (λ x. Response Venue) [
              | ok a ↦ success status a
              | err e ↦ respond (thrown e)
            ],
            vs',
          )
      sent (ok v) vs' done = done
      sent (err e) vs' done = stops request vs vs' e done

  post-Serves :
      (body : Body) (input : VenueCreateInput) (vs : List Venue) (r : Result Venue × List Venue)
      → create_venue_schema body ≡ parsed input
      → Creates table input vs r
      → Serves (posts body) 201 vs r
  post-Serves body input vs (ok v, vs') valid (added, named, fresh, _) =
      (refl, input, valid, named, rw named fresh, added)
  post-Serves body input vs (err e, vs') valid (same, _) = same

  get-Serves :
      (n : ℕ) (vs : List Venue) → Serves (gets (some n)) 200 vs (Service.get_venue_by_id table n vs)
  get-Serves n vs = elim (Option-cases (find (is_venue n) vs)) [
    | inl gone ↦ rw (get_venue-none table n vs gone) refl
    | inr (v, there) ↦ rw (get_venue-some table n vs v there) (refl, n, refl, there, refl)
  ]

  patch-Serves :
      (n : ℕ) (body : Body) (input : VenueUpdateInput) (vs : List Venue)
      (r : Result Venue × List Venue)
      → update_venue_schema body ≡ parsed input
      → Updates table n input vs r
      → Serves (patches (some n) body) 200 vs r
  patch-Serves n body input vs (ok v, vs') valid (w, there, is_v, rows, _) =
      (refl, n, input, w, refl, valid, there, is_v, rows)
  patch-Serves n body input vs (err e, vs') valid (same, _, _) = same

  delete-Serves :
      (n : ℕ) (vs : List Venue) (r : Result Venue × List Venue)
      → Deletes table n vs r
      → Serves (deletes (some n)) 200 vs r
  delete-Serves n vs (ok v, vs') (there, gone) = (refl, n, refl, there, gone)
  delete-Serves n vs (err e, vs') (same, _) = same

  patched :
      (id : Option ℕ) (body : Body) (input : VenueUpdateInput) (vs : List Venue)
      → update_venue_schema body ≡ parsed input
      → Handles (patches id body) vs (update_venue table id input vs)
  unfolding update_venue get_venue_id next_with
  patched none body input vs valid = refl
  patched (some n) body input vs valid =
      sends (patches (some n) body) vs 200 (Service.update_venue table n input) (
        patch-Serves n body input vs (Service.update_venue table n input vs) valid
          (update_venue-Updates table n input vs))

  -- The routes of one venue, on every branch and for every client: an error leaves the rows as they
  -- were; a post adds one venue, with a name that no venue had; a get answers with the row; a patch
  -- gives the fields of the body to the row of the id, and a delete removes it, and no other.
  pub venue_route-Handles :
      (request : VenueRouteRequest Body) (vs : List Venue)
      → Handles request vs (venue_route table schemas request vs)
  unfolding venue_route create_venue get_venue delete_venue get_venue_id next_with
  venue_route-Handles (posts body) vs =
      next_with-cases (Handles (posts body) vs) (validate create_venue_schema body)
        (create_venue table) vs (λ e _. stops (posts body) vs vs e refl)
        λ input valid. sends (posts body) vs 201 (Service.create_venue table input) (
          post-Serves body input vs (Service.create_venue table input vs)
            (validate_parsed create_venue_schema body input valid)
            (create_venue-Creates table input vs))
  venue_route-Handles (gets none) vs = refl
  venue_route-Handles (gets (some n)) vs =
      sends (gets (some n)) vs 200 (Service.get_venue_by_id table n) (get-Serves n vs)
  venue_route-Handles (patches id body) vs =
      next_with-cases (Handles (patches id body) vs) (validate update_venue_schema body)
        (update_venue table id) vs (λ e _. stops (patches id body) vs vs e refl)
        λ input valid.
          patched id body input vs (validate_parsed update_venue_schema body input valid)
  venue_route-Handles (deletes none) vs = refl
  venue_route-Handles (deletes (some n)) vs =
      sends (deletes (some n)) vs 200 (Service.delete_venue table n)
        (delete-Serves n vs (Service.delete_venue table n vs) (delete_venue-Deletes table n vs))
