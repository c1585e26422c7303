-- ===== src/Jobs/Promote.antt =====
-- src/jobs/promote.ts: the promotion of the oldest waiting booking.
use eventify_backend_course.Common.{ℕ, Option, none, some, ltb, append, if◌then◌else◌}
use eventify_backend_course.Errors.{Failure, plain_error, ok, Action, pure, throw, ◌>>=◌, ◌>>◌}
use eventify_backend_course.Store.{Event, Booking, Store}
use eventify_backend_course.Prisma.{Prisma}
use eventify_backend_course.Bookings.Repository.{
  get_event, count_confirmed, find_oldest_waitlisted, reactivate,
}

module _ (prisma : Prisma) where
  unfoldable pub promote_oldest : Option Booking → Action Store (Option ℕ)
  promote_oldest none = pure none
  promote_oldest (some oldest) = do reactivate prisma oldest.id; pure (some oldest.id)

  unfoldable pub promote_event : ℕ → Option Event → Action Store (Option ℕ)
  unfolding promote_oldest append
  promote_event event_id none =
      throw (plain_error (append "event " (append (prisma.text_of event_id) " not found")))
  promote_event event_id (some event) = do
    confirmed_count ← count_confirmed prisma event_id
    if ltb confirmed_count event.capacity
        then (find_oldest_waitlisted prisma event_id >>= promote_oldest)
        else pure none

  -- The callback of the transaction, with the promoted id as its value.
  unfoldable pub promote : ℕ → Action Store (Option ℕ)
  unfolding promote_event
  promote event_id = do promote_event event_id (← get_event prisma event_id)

  -- `addConfirmation` of src/jobs/email.queue.ts; a rejection is logged and swallowed.
  unfoldable pub add_confirmation : Option ℕ → Action Store (Unit {0})
  add_confirmation none s = (ok tt, s)
  add_confirmation (some booking_id) s = elim (prisma.queue_add booking_id s.email_queue) [
    | none ↦ (ok tt, s)
    | some jobs ↦ (ok tt, record s { email_queue = jobs })
  ]

  -- The first argument is the abort by the server, if any.
  unfoldable pub promote_waitlisted : Option Failure → ℕ → Action Store (Option ℕ)
  unfolding add_confirmation
  promote_waitlisted abort event_id = do
    promoted_id ← prisma.transaction abort (Option ℕ) (promote event_id)
    add_confirmation promoted_id
    pure promoted_id
