-- ===== src/Http/Rights.antt =====
-- What a request that writes events may change, and for whom.
use eventify_backend_course.Common.{
  ℕ, String, ◌≡◌, ◌⊎◌, inl, inr, refl, some, arith, List, [], ◌∷◌, ◌++◌,
}
use eventify_backend_course.Errors.{Thrown, http, failure, Result, ok, err}
use eventify_backend_course.Store.{Event, Actor, Role, attendee, organizer, admin}
use eventify_backend_course.Events.Table.{
  EventTable, EventCreateInput, EventUpdateInput, row_at, without,
}
use eventify_backend_course.Events.Repository.{created, updated}
use eventify_backend_course.Events.Service.{World}
use eventify_backend_course.Events.Guard.{MayModify}
use eventify_backend_course.Http.Respond.{
  Response, success, error, thrown, respond, send, next_with,
}
use eventify_backend_course.Http.Validate.{parsed}
use eventify_backend_course.Http.Access.{require_role}
use eventify_backend_course.Http.Events.{EventSchemas, WriteRequest, posts, patches, deletes}

abbrev pub MayPost : Actor → Type 0
MayPost user = (user.role ≡ organizer) ⊎ (user.role ≡ admin)

-- `requireRole("ORGANIZER", "ADMIN")`
pub require_role-MayPost :
    (user : Actor) → require_role (organizer ∷ admin ∷ []) (some user) ≡ ok tt → MayPost user
unfolding require_role
require_role-MayPost user h = by_role user.role refl h
  where
    by_role :
        (r : Role)
        → user.role ≡ r
        → require_role (organizer ∷ admin ∷ []) (some user) ≡ ok tt
        → MayPost user
    by_role organizer e h = inl e
    by_role admin e h = inr e
    by_role attendee e h = ground arith

-- What follows a middleware: it stopped, or went on with what it found.
pub next_with-cases :
    {S A B : Type 0} (Q : Response B × S → Type 0) (r : Result A) (handler : A → S → Response B × S)
    (s : S)
    → ((e : Thrown) → r ≡ err e → Q (respond (thrown e), s))
    → ((a : A) → r ≡ ok a → Q (handler a s))
    → Q (next_with r handler s)
unfolding next_with
next_with-cases Q (ok a) handler s stop go = go a refl
next_with-cases Q (err e) handler s stop go = stop e refl

module _ (table : EventTable) (schemas : EventSchemas) where
  open schemas use {Body, create_event_schema, update_event_schema}

  -- What the request of a user who has the right may change.
  abbrev pub Changes : WriteRequest Body → Actor → List Event → Event → List Event → Type 0
  Changes (posts body) user es e es' =
      MayPost user
      × (input : EventCreateInput) × (create_event_schema body ≡ parsed input)
      × (e ≡ created input (table.event_id es))
      × (es' ≡ es ++ e ∷ [])
  Changes (patches id body) user es e es' =
      (n : String) × (f : Event) × (input : EventUpdateInput) × (id ≡ some n)
      × (update_event_schema body ≡ parsed input)
      × (row_at table n es ≡ some f)
      × MayModify f user
      × (e ≡ updated input f)
      × (row_at table n es' ≡ some e)
  Changes (deletes id) user es e es' =
      (n : String) × (k : ℕ) × (id ≡ some n)
      × (table.uuid n ≡ some k)
      × (row_at table n es ≡ some e)
      × MayModify e user
      × (es' ≡ without k es)

module _ (table : EventTable) (schemas : EventSchemas) {C : Type 0} where
  open schemas use {Body}

  -- An error leaves the rows as they were; a success is a change by a user who has the right.
  abbrev pub IsRight :
      (Actor → Type 0) → WriteRequest Body → World C → Response Event × World C → Type 0
  IsRight Known request w (error status message details, w') = w'.events ≡ w.events
  IsRight Known request w (success status e, w') =
      (user : Actor) × Known user × Changes table schemas request user w.events e w'.events

  pub stops :
      (Known : Actor → Type 0) (request : WriteRequest Body) (w w' : World C) (e : Thrown)
      → w'.events ≡ w.events
      → IsRight Known request w (respond (thrown e), w')
  unfolding respond
  stops Known request w w' (http e) same = same
  stops Known request w w' (failure e) same = same

  -- What the service answers to such a request.
  abbrev pub Performs : WriteRequest Body → Actor → World C → Result Event × World C → Type 0
  Performs request user w (err e, w') = w'.events ≡ w.events
  Performs request user w (ok e, w') = Changes table schemas request user w.events e w'.events

  pub sends :
      (Known : Actor → Type 0) (request : WriteRequest Body) (w : World C) (user : Actor)
      (status : ℕ) (call : World C → Result Event × World C)
      → Known user
      → Performs request user w (call w)
      → IsRight Known request w (send status call w)
  unfolding send
  sends Known request w user status call known done = let (r, w') = call w in sent r w' done
    where
      sent :
          (r : Result Event) (w' : World C)
          → Performs request user w (r, w')
          → IsRight Known request w (
            elim r as (λ x. Response Event) [
              | ok a ↦ success status a
              | err e ↦ respond (thrown e)
            ],
            w',
          )
      sent (ok e) w' done = (user, known, done)
      sent (err e) w' done = stops Known request w w' e done
