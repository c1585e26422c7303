-- ===== src/Prisma.antt =====
-- What the booking code uses of code outside the repository: the Prisma client over PostgreSQL
-- (src/db.ts, src/generated/prisma) and the BullMQ queues. Each call is a parameter; the laws are
-- the documented behaviour that the program relies on. How a call that writes fails other than by
-- a unique constraint or a missing row shows as an aborted transaction.
use eventify_backend_course.Common.{
  ℕ, String, ◌≤◌, ◌≡◌, ◌⊎◌, Option, none, some, true, List, [], ◌∷◌, ◌++◌, count_where, find,
  change, ◌==◌,
}
use eventify_backend_course.Errors.{Failure, failure, known_error, Result, ok, err, Action}
use eventify_backend_course.Store.{
  Event, Booking, BookingStatus, Store, has_id, is_of, is_for, with_status,
}
use eventify_backend_course.Bookings.Rows.{IsConsistent}

-- A row as `create` makes it.
abbrev pub new_booking : ℕ → ℕ → ℕ → ℕ → BookingStatus → Booking
new_booking id now user_id event_id status = record {
  id = id;
  user_id = user_id;
  event_id = event_id;
  status = status;
  created_at = now;
}

-- A transaction that commits keeps all that its callback wrote; a callback that throws keeps none.
abbrev pub commit : {A : Type 0} → Store → Result A × Store → Result A × Store
commit s (ok a, s') = (ok a, s')
commit s (err e, s') = (err e, s)

abbrev pub atomically : {A : Type 0} → Action Store A → Action Store A
atomically body s = commit s (body s)

pub record Prisma : Type 1 where
  -- an id, as a template writes it
  pub text_of : ℕ → String
  -- event.findUnique({ where: { id } })
  pub event_find : ℕ → List Event → Option Event
  pub event_find_lem : (id : ℕ) (es : List Event) → event_find id es ≡ find (λ e. e.id == id) es
  -- booking.count({ where: { eventId, status } })
  pub booking_count : ℕ → BookingStatus → List Booking → ℕ
  pub booking_count_lem :
      (event_id : ℕ) (status : BookingStatus) (bs : List Booking)
      → booking_count event_id status bs ≡ count_where (is_for event_id status) bs
  -- booking.findUnique({ where: { id } })
  pub booking_find : ℕ → List Booking → Option Booking
  pub booking_find_lem : (id : ℕ) (bs : List Booking) → booking_find id bs ≡ find (has_id id) bs
  -- booking.findUnique({ where: { userId_eventId: { userId, eventId } } })
  pub booking_find_pair : ℕ → ℕ → List Booking → Option Booking
  pub booking_find_pair_lem :
      (user_id event_id : ℕ) (bs : List Booking)
      → booking_find_pair user_id event_id bs ≡ find (is_of user_id event_id) bs
  -- booking.findFirst({ where: { eventId, status }, orderBy: { createdAt: "asc" } })
  pub booking_first : ℕ → BookingStatus → List Booking → Option Booking
  pub booking_first_none :
      (event_id : ℕ) (status : BookingStatus) (bs : List Booking)
      → booking_first event_id status bs ≡ none
      → find (is_for event_id status) bs ≡ none
  pub booking_first_some :
      (event_id : ℕ) (status : BookingStatus) (bs : List Booking) (b : Booking)
      → IsConsistent bs
      → booking_first event_id status bs ≡ some b
      → (find (has_id b.id) bs ≡ some b) × (is_for event_id status b ≡ true)
  pub booking_first_oldest :
      (event_id : ℕ) (status : BookingStatus) (bs : List Booking) (b c : Booking)
      → booking_first event_id status bs ≡ some b
      → find (has_id c.id) bs ≡ some c
      → is_for event_id status c ≡ true
      → b.created_at ≤ c.created_at
  -- booking.update({ where: { id }, data: { status } })
  pub booking_update : ℕ → BookingStatus → List Booking → Result Booking × List Booking
  pub booking_update_some :
      (id : ℕ) (status : BookingStatus) (bs : List Booking) (b : Booking)
      → find (has_id id) bs ≡ some b
      → booking_update id status bs
        ≡ (ok (with_status status b), change (has_id id) (with_status status) bs)
  pub booking_update_none :
      (id : ℕ) (status : BookingStatus) (bs : List Booking)
      → find (has_id id) bs ≡ none
      → booking_update id status bs ≡ (err (known_error "P2025"), bs)
  -- booking.create({ data: { userId, eventId, status } }); the id is the default of the schema,
  -- and the first argument is the time of the call. A user or an event that is not there breaks a foreign
  -- key, which shows as a transaction that the server aborts, with the error P2003
  pub new_id : List Booking → ℕ
  pub new_id_lem : (bs : List Booking) → find (has_id (new_id bs)) bs ≡ none
  pub booking_create : ℕ → ℕ → ℕ → BookingStatus → List Booking → Result Booking × List Booking
  pub booking_create_new :
      (now user_id event_id : ℕ) (status : BookingStatus) (bs : List Booking)
      → find (is_of user_id event_id) bs ≡ none
      → booking_create now user_id event_id status bs ≡ (
        ok (new_booking (new_id bs) now user_id event_id status),
        bs ++ new_booking (new_id bs) now user_id event_id status ∷ [],
      )
  pub booking_create_taken :
      (now user_id event_id : ℕ) (status : BookingStatus) (bs : List Booking) (b : Booking)
      → find (is_of user_id event_id) bs ≡ some b
      → booking_create now user_id event_id status bs ≡ (err (known_error "P2002"), bs)
  -- $transaction(body, { isolationLevel: "Serializable" }); the first argument is the error with
  -- which the server aborts it, if it does
  pub transaction : Option Failure → (A : Type 0) → Action Store A → Action Store A
  pub transaction_commits :
      (A : Type 0) (body : Action Store A) (s : Store)
      → transaction none A body s ≡ atomically body s
  pub transaction_aborts :
      (e : Failure) (A : Type 0) (body : Action Store A) (s : Store)
      → transaction (some e) A body s ≡ (err (failure e), s)
  -- Queue.add: `none` where the promise is rejected
  pub queue_add : ℕ → List ℕ → Option (List ℕ)
  pub queue_add_lem :
      (job : ℕ) (jobs : List ℕ)
      → (queue_add job jobs ≡ none) ⊎ (queue_add job jobs ≡ some (jobs ++ job ∷ []))
