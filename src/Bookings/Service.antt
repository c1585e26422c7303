-- ===== src/Bookings/Service.antt =====
-- src/bookings/service.ts. A call is a sequence of database steps; before each attempt of the retry
-- loop other clients may have changed the store, and the server may abort the attempt.
use eventify_backend_course.Common.{
  ℕ, zero, suc, ◌+◌, String, Bool, false, not, ◌&&◌, ◌||◌, Option, none, some, str_eq, ◌==◌, leb,
  if◌then◌else◌,
}
use eventify_backend_course.Errors.{
  Thrown, http, failure, Failure, http_error, Result, ok, err, Action, pure, throw, throw_if, ◌>>=◌,
  ◌>>◌,
}
use eventify_backend_course.Store.{
  Event, Booking, confirmed, cancelled, waitlisted, status_eq, role_eq, admin, Actor, Store,
}
use eventify_backend_course.Prisma.{Prisma}
use eventify_backend_course.Bookings.Repository.{
  get_event, count_confirmed, find_by_user_event, reactivate, create, create_waitlisted, waitlist,
  get_by_id, cancel,
}

abbrev pub is_code : String → Option String → Bool
is_code code none = false
is_code code (some c) = str_eq c code

unfoldable pub is_serialization_failure : Failure → Bool
is_serialization_failure e =
    is_code "P2034" e.code
    || is_code "40001" e.code
    || is_code "40001" e.original_code
    || is_code "TransactionWriteConflict" e.kind

abbrev pub already_booked : Thrown
already_booked = http_error 409 "This user already has a booking for this event"

abbrev pub already_waitlisted : Thrown
already_waitlisted = http_error 409 "Booking already exists (waitlisted)"

abbrev pub max_retries : ℕ
max_retries = 8

-- What one attempt meets: the time, the abort by the server if any, and what other clients did to
-- the store before it.
pub record Attempt : Type 0 where
  pub now : ℕ
  pub abort : Option Failure
  pub others : Store → Store

-- The `catch` of the loop: `continue` with the last error, or throw.
abbrev pub on_error : Thrown → Action Store Booking → Action Store Booking
on_error (http e) rest = throw (http e)
on_error (failure e) rest =
    if is_code "P2002" e.code
    then throw already_booked
    else if is_serialization_failure e
    then rest
    else throw (failure e)

-- `try { return … } catch (error) { … }`, with what remains of the loop after `continue`.
abbrev pub settle :
    Result Booking × Store → (Thrown → Action Store Booking) → Result Booking × Store
settle (ok b, s) rest = (ok b, s)
settle (err e, s) rest = on_error e (rest e) s

-- What `cancelBooking` checks of the booking that it read.
unfoldable pub may_cancel : Booking → Actor → Action Store (Unit {0})
may_cancel b actor = do
  throw_if (not (role_eq actor.role admin) && not (b.user_id == actor.sub))
      (http_error 403 "You do not have permission to cancel this booking")
  throw_if (status_eq b.status cancelled) (http_error 409 "Booking is already cancelled")

module _ (prisma : Prisma) where
  -- The callback of the transaction, in the branch where the event is full.
  book_full : ℕ → ℕ → ℕ → Option Booking → Action Store Booking
  book_full now user_id event_id none = create_waitlisted prisma now user_id event_id
  book_full now user_id event_id (some b) = elim b.status [
    | waitlisted ↦ pure b
    | cancelled ↦ waitlist prisma b.id
    | confirmed ↦ throw already_booked
  ]

  -- The callback in the branch where a seat is free.
  book_free : ℕ → ℕ → ℕ → Option Booking → Action Store Booking
  book_free now user_id event_id none = create prisma now user_id event_id
  book_free now user_id event_id (some b) = elim b.status [
    | cancelled ↦ reactivate prisma b.id
    | confirmed ↦ throw already_booked
    | waitlisted ↦ throw already_waitlisted
  ]

  unfoldable pub book : Event → ℕ → ℕ → ℕ → Action Store Booking
  unfolding book_full book_free
  book event now user_id event_id = do
    confirmed_count ← count_confirmed prisma event_id
    existing ← find_by_user_event prisma user_id event_id
    if leb event.capacity confirmed_count
        then book_full now user_id event_id existing
        else book_free now user_id event_id existing

  -- The loop, with the attempts left; `throw lastError ?? …` after the last.
  unfoldable pub attempts : ℕ → (ℕ → Attempt) → ℕ → Thrown → Event → ℕ → ℕ → Action Store Booking
  attempts zero env attempt last_error event user_id event_id s = (err last_error, s)
  attempts (suc left) env attempt last_error event user_id event_id s =
      let try = env attempt in
      settle
        (prisma.transaction try.abort Booking (book event try.now user_id event_id) (try.others s))
        (λ e. attempts left env (attempt + 1) e event user_id event_id)

  unfoldable pub create_booking : (ℕ → Attempt) → ℕ → ℕ → Action Store Booking
  create_booking env user_id event_id = do
    found ← get_event prisma event_id
    elim found [
      | none ↦ throw (http_error 404 "Unknown eventId")
      | some event ↦
          attempts max_retries env 0 (http_error 500 "Booking failed after retries") event user_id
            event_id
    ]

  unfoldable pub get_booking_by_id : ℕ → Action Store Booking
  get_booking_by_id id = do
    booking ← get_by_id prisma id
    elim booking [ none ↦ throw (http_error 404 "Booking not found") | some b ↦ pure b ]

  -- A rejected `addWaitlistPromotion` is logged and swallowed.
  add_waitlist_promotion : ℕ → Action Store (Unit {0})
  add_waitlist_promotion event_id s = elim (prisma.queue_add event_id s.waitlist_queue) [
    | none ↦ (ok tt, s)
    | some jobs ↦ (ok tt, record s { waitlist_queue = jobs })
  ]

  -- `if (booking.status === "CONFIRMED")`: the queue hears of the free seat.
  unfoldable pub request_promotion : Booking → Action Store (Unit {0})
  unfolding add_waitlist_promotion
  request_promotion booking =
      if status_eq booking.status confirmed
      then add_waitlist_promotion booking.event_id
      else pure tt

  -- What it writes after the checks: another client may have acted since the read.
  unfoldable pub finish_cancel : Booking → ℕ → Action Store Booking
  finish_cancel booking id = do done ← cancel prisma id; request_promotion booking; pure done

  unfoldable pub cancel_booking : ℕ → Actor → Action Store Booking
  cancel_booking id actor = do
    booking ← get_booking_by_id id
    may_cancel booking actor
    finish_cancel booking id
