-- ===== src/Tests/Draft.antt =====
-- The older `createBooking` on the tables of the bookings tests.
use eventify_backend_course.Common.{ℕ, zero, suc, ◌≡◌, refl, none, some, [], ◌∷◌, arith}
use eventify_backend_course.Errors.{err}
use eventify_backend_course.Store.{confirmed}
use eventify_backend_course.Prisma.{new_booking}
use eventify_backend_course.Memory.{memory}
use eventify_backend_course.Bookings.Retry.{seen}
use eventify_backend_course.Bookings.Service.{Attempt}
use eventify_backend_course.Bookings.Repository.{get_event, count_confirmed, find_by_user_event}
use eventify_backend_course.Bookings.Skeleton.{at_capacity, book, attempts, create_booking}
use eventify_backend_course.Bookings.Draft.{drafted, draft-agrees}
use eventify_backend_course.Tests.Bookings.{event, empty, conflict}

-- The first attempt is aborted, and then user 12 takes the seat.
abbrev lost_race : ℕ → Attempt
lost_race k = record {
  now = k;
  abort = elim k [ zero ↦ none | suc j ↦ elim j [ zero ↦ some conflict | suc _ ↦ none ] ];
  others = elim k [
    | zero ↦ λ s. s
    | suc j ↦ elim j [
      | zero ↦ λ s. s
      | suc _ ↦ λ s. record s { bookings = new_booking 0 4 12 1 confirmed ∷ [] }
    ]
  ];
}

refused_after_conflict : (create_booking memory lost_race 11 1 empty).0 ≡ err at_capacity
unfolding memory create_booking attempts book get_event count_confirmed find_by_user_event
refused_after_conflict = refl

draft-agrees_example :
    create_booking memory lost_race 11 1 empty
    ≡ drafted memory event 11 1 2 (seen 1 lost_race 1 empty)
draft-agrees_example =
    draft-agrees memory event 11 1 lost_race 1 empty refl (omega arith)
      ((conflict, refl, refl), refl) (refl, refl, tt)
