-- ===== src/Jobs/Handover.antt =====
-- A cancelled seat is handed over: from the cancellation to the email of the one who waited.
use eventify_backend_course.Common.{ℕ, ◌≤◌, ◌≡◌, none, some, true, find, ◌++◌, ◌∷◌, []}
use eventify_backend_course.Errors.{ok}
use eventify_backend_course.Store.{
  User, Event, Booking, Actor, Store, confirmed, waitlisted, cancelled, has_id, is_for, with_status,
}
use eventify_backend_course.Prisma.{Prisma}
use eventify_backend_course.Bookings.Rows.{IsConsistent, seats}
use eventify_backend_course.Bookings.Service.{cancel_booking}
use eventify_backend_course.Jobs.Worker.{is_user, Lookups, email_job, waitlist_job}
use eventify_backend_course.Jobs.Accepted.{cancelled_at, line_of}

-- The booking's user is there.
abbrev pub HasOwner : Store → Booking → Type 0
HasOwner s b = (u : User) × (find (is_user b.user_id) s.users ≡ some u)

-- The one who waited longest for the event.
abbrev pub IsOldest : ℕ → Store → Booking → Type 0
IsOldest event_id s w =
    (find (has_id w.id) s.bookings ≡ some w)
    × (is_for event_id waitlisted w ≡ true)
    × ((c : Booking)
        → find (has_id c.id) s.bookings ≡ some c
        → is_for event_id waitlisted c ≡ true
        → w.created_at ≤ c.created_at)

module _ (prisma : Prisma) (s : Store) (rows_ok : IsConsistent s.bookings) (b : Booking)
    (own : find (has_id b.id) s.bookings ≡ some b) (live : b.status ≡ confirmed) where
  abbrev pub after : Store
  after = cancelled_at b.id b.event_id s

-- After the cancellation of `b` and the jobs that follow from it.
abbrev pub HandsOver :
    Prisma → Lookups → ℕ → Store → Booking → Actor → Event → Booking → User → Type 0
HandsOver prisma lookups now s b actor event w u =
    let (r, s1) = cancel_booking prisma b.id actor s in
    let (done, s2) = waitlist_job prisma none b.event_id s1 in
    (r ≡ ok (with_status cancelled b))
    × (s1.waitlist_queue ≡ s.waitlist_queue ++ b.event_id ∷ [])
    × (done ≡ ok tt)
    × (find (has_id w.id) s2.bookings ≡ some (with_status confirmed w))
    × (seats b.event_id s2.bookings ≡ seats b.event_id s.bookings)
    × (s2.email_queue ≡ s.email_queue ++ w.id ∷ [])
    × (email_job prisma lookups now w.id s2 ≡ (ok (line_of now u event), s2))
