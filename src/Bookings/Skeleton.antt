-- ===== src/Bookings/Skeleton.antt =====
-- src/bookings/create-booking.skeleton.ts: an older `createBooking`, which nothing imports. Where
-- the event is full it refuses, and it gives up after three attempts.
use eventify_backend_course.Common.{
  ℕ, zero, suc, ◌+◌, ◌&&◌, Option, none, some, leb, ltb, if◌then◌else◌,
}
use eventify_backend_course.Errors.{
  Thrown, http, failure, http_error, Result, ok, err, Action, throw, throw_if, ◌>>=◌, ◌>>◌,
}
use eventify_backend_course.Store.{Event, Booking, confirmed, cancelled, waitlisted, Store}
use eventify_backend_course.Prisma.{Prisma}
use eventify_backend_course.Bookings.Repository.{
  get_event, count_confirmed, find_by_user_event, reactivate, create,
}
use eventify_backend_course.Bookings.Service.{is_code, already_booked, already_waitlisted, Attempt}

abbrev pub max_retries : ℕ
max_retries = 3

abbrev pub at_capacity : Thrown
at_capacity = http_error 409 "Event at capacity"

-- The `catch` of the loop, in attempt `attempt`.
abbrev pub on_error : ℕ → Thrown → Action Store Booking → Action Store Booking
on_error attempt (http e) rest = throw (http e)
on_error attempt (failure e) rest =
    if is_code "P2034" e.code && ltb attempt max_retries
    then rest
    else if is_code "P2002" e.code
    then throw already_booked
    else throw (failure e)

abbrev pub settle :
    ℕ → Result Booking × Store → (Thrown → Action Store Booking) → Result Booking × Store
settle attempt (ok b, s) rest = (ok b, s)
settle attempt (err e, s) rest = on_error attempt e (rest e) s

module _ (prisma : Prisma) where
  book_existing : ℕ → ℕ → ℕ → Option Booking → Action Store Booking
  book_existing now user_id event_id none = create prisma now user_id event_id
  book_existing now user_id event_id (some b) = elim b.status [
    | cancelled ↦ reactivate prisma b.id
    | confirmed ↦ throw already_booked
    | waitlisted ↦ throw already_waitlisted
  ]

  -- The callback of the transaction.
  unfoldable pub book : Event → ℕ → ℕ → ℕ → Action Store Booking
  unfolding book_existing
  book event now user_id event_id = do
    confirmed_count ← count_confirmed prisma event_id
    throw_if (leb event.capacity confirmed_count) at_capacity
    existing ← find_by_user_event prisma user_id event_id
    book_existing now user_id event_id existing

  -- The loop, with the attempts left.
  unfoldable pub attempts : ℕ → (ℕ → Attempt) → ℕ → Thrown → Event → ℕ → ℕ → Action Store Booking
  attempts zero env attempt last_error event user_id event_id s = (err last_error, s)
  attempts (suc left) env attempt last_error event user_id event_id s =
      let try = env attempt in
      settle attempt
        (prisma.transaction try.abort Booking (book event try.now user_id event_id) (try.others s))
        (λ e. attempts left env (attempt + 1) e event user_id event_id)

  unfoldable pub create_booking : (ℕ → Attempt) → ℕ → ℕ → Action Store Booking
  create_booking env user_id event_id = do
    found ← get_event prisma event_id
    elim found [
      | none ↦ throw (http_error 404 "Unknown eventId")
      | some event ↦
          attempts max_retries env 1 (http_error 500 "Booking failed after retries") event user_id
            event_id
    ]
