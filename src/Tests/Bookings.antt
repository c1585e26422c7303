-- ===== src/Tests/Bookings.antt =====
-- Bookings, cancellations and promotions on small tables in memory.
use eventify_backend_course.Common.{
  ℕ, ◌+◌, ◌≤◌, ◌≡◌, ◌≢◌, refl, none, some, [], ◌∷◌, arith, find, ◌==◌, zero, suc,
}
use eventify_backend_course.Errors.{Failure, failure, ok, err, http_error}
use eventify_backend_course.Store.{
  Event, Booking, Store, Actor, has_id, attendee, confirmed, cancelled, waitlisted,
}
use eventify_backend_course.Prisma.{new_booking}
use eventify_backend_course.Memory.{memory}
use eventify_backend_course.Bookings.Repository.{
  get_event, count_confirmed, find_by_user_event, reactivate, create, create_waitlisted, waitlist,
  get_by_id, cancel, find_oldest_waitlisted,
}
use eventify_backend_course.Bookings.Service.{
  Attempt, is_serialization_failure, book, attempts, create_booking, get_booking_by_id, may_cancel,
  request_promotion, finish_cancel, cancel_booking,
}
use eventify_backend_course.Bookings.Rows.{IsConsistent, seats}
use eventify_backend_course.Bookings.Capacity.{Answers, book-frame}
use eventify_backend_course.Bookings.Retry.{seen, create_booking-Answers, create_booking-exhausted}
use eventify_backend_course.Bookings.Oversell.{IsWithin, create_booking-IsWithin}
use eventify_backend_course.Bookings.Cancel.{Cancels, cancel_booking-Cancels}
use eventify_backend_course.Bookings.Races.{stale_cancel_loses_seat, rebooked_overtakes}
use eventify_backend_course.Jobs.Promote.{
  promote_oldest, promote_event, promote, add_confirmation, promote_waitlisted,
}
use eventify_backend_course.System.{Step, Reach, IsSafe, Reach-IsSafe}

calls : Unit {0}
unfolding memory get_event count_confirmed find_by_user_event reactivate create create_waitlisted
    waitlist get_by_id cancel is_serialization_failure book attempts create_booking
    get_booking_by_id may_cancel request_promotion finish_cancel cancel_booking promote_oldest
    promote_event promote find_oldest_waitlisted add_confirmation promote_waitlisted
calls = tt

-- One seat; the store of src/scripts/waitlist-demo.ts.
abbrev pub event : Event
event = record {
  id = 1;
  title = "Demo";
  description = "Capacity 1";
  venue = none;
  starts_at = 0;
  capacity = 1;
  price_cents = 0;
  organizer_id = 9;
}

abbrev pub empty : Store
empty = record {
  users = [];
  events = event ∷ [];
  bookings = [];
  refresh_tokens = [];
  waitlist_queue = [];
  email_queue = [];
}

abbrev pub conflict : Failure
conflict = record { message = ""; code = some "P2034"; original_code = none; kind = none }

-- Every attempt commits, at time `now`.
abbrev pub calm : ℕ → ℕ → Attempt
calm now k = record { now = now; abort = none; others = λ s. s }

-- The first attempt is aborted, and then user 12 takes the seat.
abbrev contended : ℕ → Attempt
contended k = record {
  now = 5;
  abort = elim k [ zero ↦ some conflict | suc _ ↦ none ];
  others = elim k [
    | zero ↦ λ s. s
    | suc _ ↦ λ s. record s { bookings = new_booking 0 4 12 1 confirmed ∷ [] }
  ];
}

abbrev hopeless : ℕ → Attempt
hopeless k = record { now = 5; abort = some conflict; others = λ s. s }

abbrev alice_in : Store
alice_in = record empty { bookings = new_booking 0 1 10 1 confirmed ∷ [] }

abbrev pub bob_waits : Store
bob_waits = record empty {
  bookings = new_booking 0 1 10 1 confirmed ∷ new_booking 1 2 11 1 waitlisted ∷ [];
}

abbrev pub alice : Actor
alice = record { sub = 10; role = attendee }

-- Alice takes the seat, Bob waits, Alice cancels, Bob is promoted, and a second pass finds nobody.
waitlist_demo :
    (create_booking memory (calm 1) 10 1 empty ≡ (ok (new_booking 0 1 10 1 confirmed), alice_in))
    × (create_booking memory (calm 2) 11 1 alice_in
        ≡ (ok (new_booking 1 2 11 1 waitlisted), bob_waits))
    × ((cancel_booking memory 0 alice bob_waits).1.waitlist_queue ≡ 1 ∷ [])
    × ((promote_waitlisted memory none 1 (cancel_booking memory 0 alice bob_waits).1).0
        ≡ ok (some 1))
    × ((promote_waitlisted memory none 1
          (promote_waitlisted memory none 1 (cancel_booking memory 0 alice bob_waits).1).1).0
        ≡ ok none)
unfolding calls
waitlist_demo = (refl, refl, refl, refl, refl)

refusals :
    ((create_booking memory (calm 2) 10 2 empty).0 ≡ err (http_error 404 "Unknown eventId"))
    × ((cancel_booking memory 0 (record { sub = 11; role = attendee }) bob_waits).0
        ≡ err (http_error 403 "You do not have permission to cancel this booking"))
    × ((cancel_booking memory 5 alice bob_waits).0 ≡ err (http_error 404 "Booking not found"))
    × ((create_booking memory contended 11 1 empty).0 ≡ ok (new_booking 1 5 11 1 waitlisted))
unfolding calls
refusals = (refl, refl, refl, refl)

event_only : (e : Event) → find (λ v. v.id == 1) empty.events ≡ some e → e.capacity ≤ 1
event_only e h = ground arith

book-frame_example :
    let (r, s') = book memory event 2 11 1 alice_in in
    IsConsistent s'.bookings
    × ((other : ℕ) → other ≢ 1 → seats other s'.bookings ≡ seats other alice_in.bookings)
    × (s' ≡ record alice_in { bookings = s'.bookings })
book-frame_example = book-frame memory event 2 11 1 alice_in (refl, refl, tt)

create_booking-Answers_example :
    let (r, s') = create_booking memory contended 11 1 empty in
    Answers 1 11 1 (seen 1 contended 0 empty).bookings (r, s'.bookings)
unfolding is_serialization_failure
create_booking-Answers_example =
    create_booking-Answers memory contended 11 1 empty event refl 1 (omega arith)
      ((conflict, refl, (refl, refl)), refl) (refl, refl, tt)

create_booking-exhausted_example :
    (create_booking memory hopeless 11 1 empty).0 ≡ err (failure conflict)
unfolding is_serialization_failure
create_booking-exhausted_example =
    create_booking-exhausted memory hopeless 11 1 empty event refl (λ k. conflict) (λ k. refl)
      (λ k. (refl, refl))

create_booking-IsWithin_example : IsWithin 1 1 (create_booking memory (calm 2) 11 1 alice_in).1
create_booking-IsWithin_example =
    create_booking-IsWithin memory (calm 2) 1 1 (λ k s h. h) 11 1 alice_in event_only
      ((refl, refl, tt), omega arith)

cancel_booking-Cancels_example :
    Cancels memory 0 alice bob_waits (cancel_booking memory 0 alice bob_waits)
cancel_booking-Cancels_example = cancel_booking-Cancels memory 0 alice bob_waits

abbrev bob_in : Store
bob_in = record empty { bookings = new_booking 1 2 11 1 confirmed ∷ [] }

stale_cancel_loses_seat_example :
    let s' = (finish_cancel memory (new_booking 1 2 11 1 waitlisted) 1 bob_in).1 in
    (seats 1 s'.bookings + 1 ≡ 1) × (s'.waitlist_queue ≡ [])
stale_cancel_loses_seat_example =
    stale_cancel_loses_seat memory 1 (new_booking 1 2 11 1 waitlisted)
      (new_booking 1 2 11 1 confirmed) bob_in refl refl refl

-- User 13 booked at time 0 and cancelled; 12 has the seat, and 11 waits since time 2.
abbrev returning : Store
returning = record empty {
  bookings =
      new_booking 0 0 13 1 cancelled
      ∷ new_booking 1 1 12 1 confirmed
      ∷ new_booking 2 2 11 1 waitlisted
      ∷ [];
}

-- The user of `returning` waits again, and a seat is free by now.
abbrev freed : Store
freed = record returning {
  bookings =
      new_booking 0 0 13 1 waitlisted
      ∷ new_booking 1 1 12 1 cancelled
      ∷ new_booking 2 2 11 1 waitlisted
      ∷ [];
}

rebooked_overtakes_example :
    (find (has_id 0) (book memory event 9 13 1 returning).1.bookings
      ≡ some (new_booking 0 0 13 1 waitlisted))
    × ((promote_waitlisted memory none 1 freed).0 ≢ ok (some 2))
unfolding memory
rebooked_overtakes_example =
    rebooked_overtakes memory event 9 13 1 returning freed (new_booking 0 0 13 1 cancelled)
      (new_booking 2 2 11 1 waitlisted) none (refl, refl, (refl, refl, (refl, refl, tt))) refl refl
      (omega arith) (refl, refl, (refl, refl, (refl, refl, tt))) refl refl (omega arith)

booked : Store
booked = (memory.transaction none Booking (book memory event 2 11 1) alice_in).1

Reach-IsSafe_example :
    IsSafe memory 1 1 (finish_cancel memory (new_booking 0 1 10 1 confirmed) 0 booked).1
unfolding booked
Reach-IsSafe_example =
    Reach-IsSafe memory 1 1 (((refl, refl, tt), omega arith), event_only)
      (Reach.next (Reach.next Reach.here (Step.books alice_in none event 2 11 1 (λ _. omega arith)))
        (Step.cancels _ (new_booking 0 1 10 1 confirmed) 0))
