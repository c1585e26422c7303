-- ===== src/Bookings/Policy.antt =====
-- The rule by which a booking request is answered, stated without the database calls, and the
-- proof that the callback of the transaction follows it.
use eventify_backend_course.Common.{
  ℕ, Option, none, some, List, [], ◌∷◌, ◌++◌, Bool, ◌≡◌, inl, inr, arith, leb, if◌then◌else◌, find,
  change, Option-cases,
}
use eventify_backend_course.Errors.{Thrown, Result, ok, err}
use eventify_backend_course.Store.{
  Event, Booking, BookingStatus, confirmed, cancelled, waitlisted, Store, has_id, is_of,
  with_status,
}
use eventify_backend_course.Prisma.{Prisma, new_booking}
use eventify_backend_course.Bookings.Repository.{
  count_confirmed, find_by_user_event, reactivate, create, create_waitlisted, waitlist,
}
use eventify_backend_course.Bookings.Rows.{IsConsistent, seats, find_by_id}
use eventify_backend_course.Bookings.Service.{already_booked, already_waitlisted, book}

-- What a request comes to: a new row, a new status for the row that is there, that row as it
-- stands, or a refusal.
pub data Decision : Type 0 where
  insert : BookingStatus → Decision
  flip : Booking → BookingStatus → Decision
  keep : Booking → Decision
  refuse : Thrown → Decision

abbrev pub decide_full : Option Booking → Decision
decide_full none = insert waitlisted
decide_full (some b) = elim b.status [
  | waitlisted ↦ keep b
  | cancelled ↦ flip b waitlisted
  | confirmed ↦ refuse already_booked
]

abbrev pub decide_free : Option Booking → Decision
decide_free none = insert confirmed
decide_free (some b) = elim b.status [
  | cancelled ↦ flip b confirmed
  | confirmed ↦ refuse already_booked
  | waitlisted ↦ refuse already_waitlisted
]

unfoldable pub decide : (is_full : Bool) → Option Booking → Decision
decide is_full existing = if is_full then decide_full existing else decide_free existing

-- The row that a decision on `user_id` and `event_id` answers with, and the table after it.
module _ (new_id : List Booking → ℕ) where
  unfoldable pub perform : Decision → ℕ → ℕ → ℕ → List Booking → Result Booking × List Booking
  perform (insert status) now user_id event_id bs =
      let b = new_booking (new_id bs) now user_id event_id status in (ok b, bs ++ b ∷ [])
  perform (flip b status) now user_id event_id bs =
      (ok (with_status status b), change (has_id b.id) (with_status status) bs)
  perform (keep b) now user_id event_id bs = (ok b, bs)
  perform (refuse e) now user_id event_id bs = (err e, bs)

-- Whether the event is full, as its rows have it.
abbrev pub is_full : Event → ℕ → List Booking → Bool
is_full event event_id bs = leb event.capacity (seats event_id bs)

-- The state after a call that answered with `r` and left the rows `bs`.
abbrev pub with_bookings : Store → Result Booking × List Booking → Result Booking × Store
with_bookings s (r, bs) = (r, record s { bookings = bs })

module _ (prisma : Prisma) where
  open prisma use {
    new_id, booking_count_lem, booking_find_pair_lem, booking_create_new, booking_update_some,
  }

  book-none-perform :
      (event : Event) (now user_id event_id : ℕ) (s : Store)
      → find (is_of user_id event_id) s.bookings ≡ none
      → book prisma event now user_id event_id s
        ≡ with_bookings s (
            perform new_id
              (decide (is_full event event_id s.bookings) none)
              now
              user_id
              event_id
              s.bookings)
  unfolding book perform decide count_confirmed find_by_user_event create create_waitlisted
  book-none-perform event now user_id event_id s e = ground (
    arith,
    booking_count_lem event_id confirmed s.bookings,
    booking_find_pair_lem user_id event_id s.bookings,
    booking_create_new now user_id event_id confirmed s.bookings e,
    booking_create_new now user_id event_id waitlisted s.bookings e,
  )

  book-some-perform :
      (event : Event) (now user_id event_id : ℕ) (s : Store) (b : Booking)
      → IsConsistent s.bookings
      → find (is_of user_id event_id) s.bookings ≡ some b
      → book prisma event now user_id event_id s
        ≡ with_bookings s (
            perform new_id
              (decide (is_full event event_id s.bookings) (some b))
              now
              user_id
              event_id
              s.bookings)
  unfolding book perform decide count_confirmed find_by_user_event reactivate waitlist
  book-some-perform event now user_id event_id s b h e =
      let own = find_by_id (is_of user_id event_id) s.bookings b h e in
      ground (
        arith,
        booking_count_lem event_id confirmed s.bookings,
        booking_find_pair_lem user_id event_id s.bookings,
        booking_update_some b.id confirmed s.bookings b own,
        booking_update_some b.id waitlisted s.bookings b own,
      )

  -- The callback of the booking transaction follows the rule: on every consistent store
  -- it answers and writes what `decide` says for the rows that it finds.
  pub book-perform :
      (event : Event) (now user_id event_id : ℕ) (s : Store)
      → IsConsistent s.bookings
      → book prisma event now user_id event_id s
        ≡ with_bookings s (
            perform new_id
              (decide
                (is_full event event_id s.bookings)
                (find (is_of user_id event_id) s.bookings))
              now
              user_id
              event_id
              s.bookings)
  book-perform event now user_id event_id s h =
      elim (Option-cases (find (is_of user_id event_id) s.bookings)) [
        | inl e ↦ rw e (book-none-perform event now user_id event_id s e)
        | inr (b, e) ↦ rw e (book-some-perform event now user_id event_id s b h e)
      ]
