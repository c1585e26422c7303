-- ===== src/Bookings/Repository.antt =====
-- src/bookings/repository.ts, and `getById` of src/events/repository.ts.
use eventify_backend_course.Common.{ℕ, Option, List}
use eventify_backend_course.Errors.{Result, Action, gets}
use eventify_backend_course.Store.{Event, Booking, Store, confirmed, cancelled, waitlisted}
use eventify_backend_course.Prisma.{Prisma}

-- A call that may write the table of bookings.
abbrev on_bookings : (List Booking → Result Booking × List Booking) → Action Store Booking
on_bookings call s = let (r, bs) = call s.bookings in (r, record s { bookings = bs })

module _ (prisma : Prisma) where
  open prisma use {
    event_find, booking_count, booking_find, booking_find_pair, booking_first, booking_update,
    booking_create,
  }

  unfoldable pub get_event : ℕ → Action Store (Option Event)
  get_event id = gets λ s. event_find id s.events

  unfoldable pub count_confirmed : ℕ → Action Store ℕ
  count_confirmed event_id = gets λ s. booking_count event_id confirmed s.bookings

  unfoldable pub find_by_user_event : ℕ → ℕ → Action Store (Option Booking)
  find_by_user_event user_id event_id = gets λ s. booking_find_pair user_id event_id s.bookings

  unfoldable pub reactivate : ℕ → Action Store Booking
  reactivate booking_id = on_bookings (booking_update booking_id confirmed)

  unfoldable pub create : ℕ → ℕ → ℕ → Action Store Booking
  create now user_id event_id = on_bookings (booking_create now user_id event_id confirmed)

  unfoldable pub create_waitlisted : ℕ → ℕ → ℕ → Action Store Booking
  create_waitlisted now user_id event_id =
      on_bookings (booking_create now user_id event_id waitlisted)

  unfoldable pub waitlist : ℕ → Action Store Booking
  waitlist booking_id = on_bookings (booking_update booking_id waitlisted)

  unfoldable pub find_oldest_waitlisted : ℕ → Action Store (Option Booking)
  find_oldest_waitlisted event_id = gets λ s. booking_first event_id waitlisted s.bookings

  unfoldable pub get_by_id : ℕ → Action Store (Option Booking)
  get_by_id id = gets λ s. booking_find id s.bookings

  unfoldable pub cancel : ℕ → Action Store Booking
  cancel id = on_bookings (booking_update id cancelled)
