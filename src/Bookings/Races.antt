-- ===== src/Bookings/Races.antt =====
-- What a booking call does when another client acted between its steps, or before them.
use eventify_backend_course.Common.{
  ℕ, ◌+◌, ◌≤◌, ◌<◌, ◌≡◌, ◌≢◌, refl, ap, Option, none, some, true, arith, find, change, find_passes,
}
use eventify_backend_course.Errors.{Failure, Result, ok, err, >>=_ok}
use eventify_backend_course.Store.{
  Event, Booking, Store, confirmed, cancelled, waitlisted, has_id, is_of, with_status,
}
use eventify_backend_course.Prisma.{Prisma}
use eventify_backend_course.Bookings.Repository.{cancel}
use eventify_backend_course.Bookings.Rows.{
  IsConsistent, seats, seats-change, find_by_id, find_id-change_self,
}
use eventify_backend_course.Bookings.Policy.{decide, perform, book-perform}
use eventify_backend_course.Bookings.Cancel.{cancel_row}
use eventify_backend_course.Jobs.Promote.{promote_waitlisted}
use eventify_backend_course.Jobs.Outcome.{MayEmail, Promotes, promote_waitlisted-Promotes}
use eventify_backend_course.Bookings.Service.{book, finish_cancel, request_promotion}

module _ (prisma : Prisma) where
  no_request :
      (b : Booking) (s : Store) → b.status ≡ waitlisted → request_promotion prisma b s ≡ (ok tt, s)
  unfolding request_promotion
  no_request b s waits = ground arith

  -- `cancelBooking` read the booking while it was waitlisted, and a promotion confirmed it before
  -- the write: the write frees a confirmed seat, and no promotion is queued for it.
  pub stale_cancel_loses_seat :
      (id : ℕ) (read row : Booking) (s : Store)
      → read.status ≡ waitlisted
      → find (has_id id) s.bookings ≡ some row
      → row.status ≡ confirmed
      → let s' = (finish_cancel prisma read id s).1 in
        (seats row.event_id s'.bookings + 1 ≡ seats row.event_id s.bookings)
        × (s'.waitlist_queue ≡ s.waitlist_queue)
  unfolding finish_cancel
  stale_cancel_loses_seat id read row s waits own taken =
      let rows = record s { bookings = change (has_id id) (with_status cancelled) s.bookings } in
      rw
        (
          >>=_ok (cancel prisma id) _ s (cancel_row prisma id s row own),
          >>=_ok (request_promotion prisma read) (λ _ t. (ok (with_status cancelled row), t)) rows
              (no_request read rows waits),
        )
        (ground (arith, seats-change row.event_id id cancelled s.bookings row own), refl)

  rebooked_row :
      (event : Event) (now user_id event_id : ℕ) (s : Store) (b : Booking)
      → IsConsistent s.bookings
      → find (is_of user_id event_id) s.bookings ≡ some b
      → b.status ≡ cancelled
      → event.capacity ≤ seats event_id s.bookings
      → (book prisma event now user_id event_id s).1.bookings
        ≡ change (has_id b.id) (with_status waitlisted) s.bookings
  unfolding decide perform
  rebooked_row event now user_id event_id s b h own gone full =
      rw (book-perform prisma event now user_id event_id s h, own) (ground arith)

  -- A user who cancelled and books a full event again waits in the old row, with its old time of
  -- creation. From then on, in any consistent store where that row still waits as it was left, a
  -- promotion of the event, aborted or not, never answers with a booking that was created later than
  -- the old row.
  pub rebooked_overtakes :
      (event : Event) (now user_id event_id : ℕ) (s later : Store) (b c : Booking)
      (abort : Option Failure)
      → IsConsistent s.bookings
      → find (is_of user_id event_id) s.bookings ≡ some b
      → b.status ≡ cancelled
      → event.capacity ≤ seats event_id s.bookings
      → IsConsistent later.bookings
      → find (has_id b.id) later.bookings ≡ some (with_status waitlisted b)
      → find (has_id c.id) later.bookings ≡ some c
      → b.created_at < c.created_at
      → (find (has_id b.id) (book prisma event now user_id event_id s).1.bookings
          ≡ some (with_status waitlisted b))
        × ((promote_waitlisted prisma abort event_id later).0 ≢ ok (some c.id))
  rebooked_overtakes event now user_id event_id s later b c abort h own gone full h' waits there
        older =
      let found =
        find_id-change_self b.id waitlisted s.bookings b
          (find_by_id (is_of user_id event_id) s.bookings b h own) in
      let passes = find_passes (is_of user_id event_id) s.bookings b own in
      let (r, s') = promote_waitlisted prisma abort event_id later in
      (
        rw (rebooked_row event now user_id event_id s b h own gone full) found,
        λ promoted.
            late r s' passes promoted (promote_waitlisted-Promotes prisma event_id later h' abort),
      )
    where
      late :
          (r : Result (Option ℕ)) (s' : Store)
          → is_of user_id event_id b ≡ true
          → r ≡ ok (some c.id)
          → Promotes MayEmail event_id later (r, s')
          → ⊥
      late (err e) s' passes same h = cc
      late (ok none) s' passes same h = cc
      late (ok (some id)) s' passes same (_, w, _, at, _, queued, oldest, _, _, _, _, _) =
          let one : id ≡ c.id = ground arith in
          let both = ap (λ i. find (has_id i) later.bookings) one in
          let w_c : w ≡ c = ground arith in
          let le = oldest (with_status waitlisted b) waits (ground (arith, passes)) in ground arith
