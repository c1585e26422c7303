-- ===== src/Http/Writers.antt =====
-- Who can change events through the routes that write.
use eventify_backend_course.Common.{
  ◌≡◌, inl, inr, refl, String, Option, none, some, [], ◌∷◌, subst, sym,
}
use eventify_backend_course.Errors.{Thrown, Result, ok, err}
use eventify_backend_course.Store.{Event, Actor, organizer, admin}
use eventify_backend_course.Events.Cache.{Redis, IsUp}
use eventify_backend_course.Events.Table.{EventTable, EventCreateInput, EventUpdateInput, row_at}
use eventify_backend_course.Events.Repository.{created, create}
use eventify_backend_course.Events.Service as Service
use eventify_backend_course.Events.Service.{World}
use eventify_backend_course.Events.Fresh.{IsFresh}
use eventify_backend_course.Events.Guard.{MayModify}
use eventify_backend_course.Events.Modify.{Answers}
use eventify_backend_course.Events.Writes.{Updates, Deletes, update_event_lem, delete_event_lem}
use eventify_backend_course.Events.Creation.{create_event-err, create_event-ok}
use eventify_backend_course.Http.Respond.{respond, send}
use eventify_backend_course.Http.Validate.{parsed, validate, validate_parsed}
use eventify_backend_course.Http.Access.{Tokens, require_auth, require_role}
use eventify_backend_course.Http.Guarded.{Authenticates, require_auth-Authenticates}
use eventify_backend_course.Http.Events.{
  create_event, update_event, delete_event, EventSchemas, WriteRequest, posts, patches, deletes,
  write_events, write_route,
}
use eventify_backend_course.Http.Rights.{
  MayPost, require_role-MayPost, next_with-cases, IsRight, stops, Performs, sends,
}

module _ (redis : Redis) (table : EventTable) (up : IsUp redis) (tokens : Tokens)
    (schemas : EventSchemas) where
  open redis use {Cache}
  open schemas use {Body, create_event_schema, update_event_schema}

  -- The header carries the claims of the user.
  abbrev pub Knows : Option String → Actor → Type 0
  Knows header user = Authenticates tokens header (ok user)

  create-Performs :
      (body : Body) (user : Actor) (w : World Cache) (input : EventCreateInput)
      → MayPost user
      → create_event_schema body ≡ parsed input
      → Performs table schemas (posts body) user w (Service.create_event redis table input w)
  unfolding create
  create-Performs body user w input may valid =
      elim (table.event_create_lem (created input) w.events) [
        | inl (x, failed) ↦ rw (create_event-err redis table input w x failed) refl
        | inr done ↦
            rw (create_event-ok redis table up input w _ _ done) (may, input, valid, refl, refl)
      ]

  post-IsRight :
      (Known : Actor → Type 0) (body : Body) (user : Actor) (w : World Cache)
      → Known user
      → IsRight table schemas Known
          (posts body)
          w
          (write_events redis table tokens schemas (posts body) user w)
  unfolding write_events create_event
  post-IsRight Known body user w known =
      let Q = IsRight table schemas Known (posts body) w in
      let stop = λ (e : Thrown). stops table schemas Known (posts body) w w e refl in
      next_with-cases Q (require_role (organizer ∷ admin ∷ []) (some user)) _ w (λ e _. stop e)
        λ _ has_role.
          next_with-cases Q (validate create_event_schema body) (create_event redis table) w
            (λ e _. stop e)
            λ input valid.
              sends table schemas Known (posts body) w user 201
                (Service.create_event redis table input) known
                (create-Performs body user w input (require_role-MayPost user has_role)
                  (validate_parsed create_event_schema body input valid))

  update-Performs :
      (n : String) (body : Body) (user : Actor) (w : World Cache) (input : EventUpdateInput)
      (r : Result Event × World Cache)
      → update_event_schema body ≡ parsed input
      → Answers redis table up n user (Updates redis table up n input) w r
      → Performs table schemas (patches (some n) body) user w r
  update-Performs n body user w input (ok e, w') valid ((f, row, may, (is_e, there)), _) =
      (n, f, input, refl, valid, row, may, is_e, there)
  update-Performs n body user w input (err e, w') valid (same, _, _, _) = same

  delete-Performs :
      (n : String) (user : Actor) (w : World Cache) (r : Result Event × World Cache)
      → Answers redis table up n user (Deletes redis table up n w.events) w r
      → Performs table schemas (deletes (some n)) user w r
  delete-Performs n user w (ok e, w') ((f, row, may, (is_f, k, names, gone)), _) =
      let same = sym is_f in
      (
        n,
        k,
        refl,
        names,
        subst (λ x. row_at table n w.events ≡ some x) same row,
        subst (λ x. MayModify x user) same may,
        gone,
      )
  delete-Performs n user w (err e, w') (same, _, _, _) = same

  module _ (Known : Actor → Type 0) (user : Actor) (w : World Cache) (known : Known user)
      (h : IsFresh redis table w.cache w.events) where
    updates-IsRight :
        (id : Option String) (body : Body) (input : EventUpdateInput)
        → update_event_schema body ≡ parsed input
        → IsRight table schemas Known
            (patches id body)
            w
            (update_event redis table id (some user) input w)
    unfolding update_event send respond
    updates-IsRight none body input valid = refl
    updates-IsRight (some n) body input valid =
        sends table schemas Known (patches (some n) body) w user 200
          (Service.update_event redis table n input user) known
          (update-Performs n body user w input (Service.update_event redis table n input user w)
            valid (update_event_lem redis table up n input user w h).0)

    patch-IsRight :
        (id : Option String) (body : Body)
        → IsRight table schemas Known
            (patches id body)
            w
            (write_events redis table tokens schemas (patches id body) user w)
    unfolding write_events
    patch-IsRight id body =
        next_with-cases (IsRight table schemas Known (patches id body) w)
          (validate update_event_schema body) (update_event redis table id (some user)) w
          (λ e _. stops table schemas Known (patches id body) w w e refl)
          λ input valid.
            updates-IsRight id body input (validate_parsed update_event_schema body input valid)

    delete-IsRight :
        (id : Option String)
        → IsRight table schemas Known
            (deletes id)
            w
            (write_events redis table tokens schemas (deletes id) user w)
    unfolding write_events delete_event send respond
    delete-IsRight none = refl
    delete-IsRight (some n) =
        sends table schemas Known (deletes (some n)) w user 200
          (Service.delete_event redis table n user) known
          (delete-Performs n user w (Service.delete_event redis table n user w)
            (delete_event_lem redis table up n user w h).0)

  write-IsRight :
      (Known : Actor → Type 0) (request : WriteRequest Body) (user : Actor) (w : World Cache)
      → Known user
      → IsFresh redis table w.cache w.events
      → IsRight table schemas Known request w
          (write_events redis table tokens schemas request user w)
  write-IsRight Known (posts body) user w known h = post-IsRight Known body user w known
  write-IsRight Known (patches id body) user w known h = patch-IsRight Known user w known h id body
  write-IsRight Known (deletes id) user w known h = delete-IsRight Known user w known h id

  -- The routes of POST, PATCH and DELETE of events, on every branch, on a fresh cache that carries
  -- out every command: an error leaves the rows as they were, and a success means that the header
  -- carries a token with the claims of a user who has the right. Who posts is an organizer or an
  -- admin, and one row is added, with the fields of the body; who patches or deletes is the
  -- organizer of the event or an admin, and the row has the given fields afterwards, or it alone is
  -- gone.
  pub write_route-IsRight :
      (header : Option String) (request : WriteRequest Body) (w : World Cache)
      → IsFresh redis table w.cache w.events
      → IsRight table schemas
          (Knows header)
          request
          w
          (write_route redis table tokens schemas header request w)
  unfolding write_route
  write_route-IsRight header request w h =
      next_with-cases (IsRight table schemas (Knows header) request w) (require_auth tokens header)
        (write_events redis table tokens schemas request) w
        (λ e _. stops table schemas (Knows header) request w w e refl)
        (λ user found.
          write-IsRight (Knows header) request user w
            (subst (Authenticates tokens header) found (require_auth-Authenticates tokens header))
            h)
