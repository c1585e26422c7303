-- ===== src/Jobs/Shown.antt =====
-- The demo ends well: the steps of scripts/waitlist-demo.ts on an event that nobody has booked.
use eventify_backend_course.Common.{
  ℕ, ◌≡◌, ◌∙◌, refl, none, some, true, Bool, arith, find, change, List, [], ◌∷◌, ◌++◌, ◌==◌,
}
use eventify_backend_course.Errors.{http_error, ok}
use eventify_backend_course.Store.{Event, Booking, BookingStatus, Store, has_id, is_of, is_for}
use eventify_backend_course.Prisma.{Prisma, new_booking}
use eventify_backend_course.Bookings.Rows.{IsConsistent, seats}
use eventify_backend_course.Bookings.Service.{Attempt, create_booking}
use eventify_backend_course.Bookings.Policy.{Decision, decide, perform, is_full, book-perform}
use eventify_backend_course.Bookings.Retry.{attempts-until, create_booking_lem}
use eventify_backend_course.Jobs.Worker.{is_event}

abbrev pub is_at : ℕ → Booking → Bool
is_at event_id b = b.event_id == event_id

-- What holds of the queries on an event that no row of the table is for.
pub unbooked_pair :
    (user_id event_id : ℕ) (bs : List Booking)
    → find (is_at event_id) bs ≡ none
    → find (is_of user_id event_id) bs ≡ none
unbooked_pair user_id event_id [] h = refl
unbooked_pair user_id event_id (b ∷ bs) h = ground (arith, unbooked_pair user_id event_id bs)

pub unbooked_status :
    (event_id : ℕ) (status : BookingStatus) (bs cs : List Booking)
    → find (is_at event_id) bs ≡ none
    → find (is_for event_id status) (bs ++ cs) ≡ find (is_for event_id status) cs
unbooked_status event_id status [] cs h = refl
unbooked_status event_id status (b ∷ bs) cs h =
    ground (arith, unbooked_status event_id status bs cs)

pub unbooked_seats :
    (event_id : ℕ) (bs cs : List Booking)
    → find (is_at event_id) bs ≡ none
    → seats event_id (bs ++ cs) ≡ seats event_id cs
unbooked_seats event_id [] cs h = refl
unbooked_seats event_id (b ∷ bs) cs h = ground (arith, unbooked_seats event_id bs cs)

pub unbooked_pair-append :
    (user_id event_id : ℕ) (bs cs : List Booking)
    → find (is_at event_id) bs ≡ none
    → find (is_of user_id event_id) (bs ++ cs) ≡ find (is_of user_id event_id) cs
unbooked_pair-append user_id event_id [] cs h = refl
unbooked_pair-append user_id event_id (b ∷ bs) cs h =
    ground (arith, unbooked_pair-append user_id event_id bs cs)

-- A row for the event is among the rows that were added.
pub unbooked_id :
    (event_id : ℕ) (status : BookingStatus) (id : ℕ) (bs cs : List Booking) (w : Booking)
    → find (is_at event_id) bs ≡ none
    → find (has_id id) (bs ++ cs) ≡ some w
    → is_for event_id status w ≡ true
    → find (has_id id) cs ≡ some w
unbooked_id event_id status id [] cs w h e f = e
unbooked_id event_id status id (b ∷ bs) cs w h e f =
    ground (arith, unbooked_id event_id status id bs cs w)

pub change_new :
    (id : ℕ) (f : Booking → Booking) (bs cs : List Booking)
    → find (has_id id) bs ≡ none
    → change (has_id id) f (bs ++ cs) ≡ bs ++ change (has_id id) f cs
change_new id f [] cs h = refl
change_new id f (b ∷ bs) cs h = ground (arith, change_new id f bs cs)

-- The first attempt is not aborted, and nobody acts before it.
abbrev pub IsAlone : (ℕ → Attempt) → Type 0
IsAlone env = ((env 0).abort ≡ none) × ((s : Store) → (env 0).others s ≡ s)

module _ (prisma : Prisma) (env : ℕ → Attempt) (alone : IsAlone env) where
  -- A booking by a user who has none for the event.
  pub create_booking_new :
      (user_id event_id : ℕ) (s : Store) (event : Event) (status : BookingStatus)
      → IsConsistent s.bookings
      → find (is_event event_id) s.events ≡ some event
      → find (is_of user_id event_id) s.bookings ≡ none
      → decide (is_full event event_id s.bookings) none ≡ Decision.insert status
      → let b = new_booking (prisma.new_id s.bookings) (env 0).now user_id event_id status in
        create_booking prisma env user_id event_id s
        ≡ (ok b, record s { bookings = s.bookings ++ b ∷ [] })
  unfolding perform
  create_booking_new user_id event_id s event status rows_ok known unbooked decided =
      create_booking_lem prisma env user_id event_id s event known
      ∙ attempts-until prisma env event user_id event_id 8 0 0
          (http_error 500 "Booking failed after retries") s (omega arith) alone.0
          (rw (alone.1 s) rows_ok)
      ∙ rw
          (
            alone.1 s,
            book-perform prisma event (env 0).now user_id event_id s rows_ok,
            unbooked,
            decided,
          )
          refl
