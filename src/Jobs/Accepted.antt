-- ===== src/Jobs/Accepted.antt =====
-- What a cancellation and the two jobs do where the queues accept, the server does not abort, and
-- the rows are there.
use eventify_backend_course.Common.{
  ℕ, ◌<◌, ◌≤◌, false, ◌≡◌, ◌∙◌, refl, Option, none, some, true, arith, find, change, ltb, ◌++◌, ◌∷◌,
  [], List, ap,
}
use eventify_backend_course.Errors.{ok, pure, ◌>>◌, >>=_ok}
use eventify_backend_course.Store.{
  User, Event, Booking, Actor, Store, confirmed, waitlisted, cancelled, has_id, with_status,
}
use eventify_backend_course.Prisma.{Prisma, commit}
use eventify_backend_course.Bookings.Repository.{get_event, count_confirmed, find_oldest_waitlisted}
use eventify_backend_course.Bookings.Rows.{IsConsistent, seats}
use eventify_backend_course.Bookings.Service.{
  get_booking_by_id, may_cancel, request_promotion, finish_cancel, cancel_booking,
}
use eventify_backend_course.Bookings.Cancel.{is_allowed, cancel_row, found_lem, accepted_lem}
use eventify_backend_course.Jobs.Promote.{
  promote_oldest, promote_event, promote, add_confirmation, promote_waitlisted,
}
use eventify_backend_course.Jobs.Outcome.{oldest_lem, promoted, promote_row}
use eventify_backend_course.Jobs.Worker.{
  is_user, is_event, Lookups, Line, send_confirmation, load_booking_details, email_job,
  waitlist_job,
}

-- The queues take every job.
abbrev pub Accepts : Prisma → Type 0
Accepts prisma = (job : ℕ) (jobs : List ℕ) → prisma.queue_add job jobs ≡ some (jobs ++ job ∷ [])

abbrev pub cancelled_at : ℕ → ℕ → Store → Store
cancelled_at id event_id s = record s {
  bookings = change (has_id id) (with_status cancelled) s.bookings;
  waitlist_queue = s.waitlist_queue ++ event_id ∷ [];
}

module _ (prisma : Prisma) (accepts : Accepts prisma) where
  request_accepted :
      (b : Booking) (s : Store)
      → b.status ≡ confirmed
      → request_promotion prisma b s
        ≡ (ok tt, record s { waitlist_queue = s.waitlist_queue ++ b.event_id ∷ [] })
  unfolding request_promotion
  request_accepted b s live = let taken = accepts b.event_id s.waitlist_queue in ground arith

  pub cancel_confirmed :
      (id : ℕ) (actor : Actor) (s : Store) (b : Booking)
      → find (has_id id) s.bookings ≡ some b
      → is_allowed b actor ≡ true
      → b.status ≡ confirmed
      → cancel_booking prisma id actor s
        ≡ (ok (with_status cancelled b), cancelled_at id b.event_id s)
  unfolding cancel_booking finish_cancel
  cancel_confirmed id actor s b own allowed live =
      let rows : Store = record s {
        bookings = change (has_id id) (with_status cancelled) s.bookings;
      } in
      rw
        (
          >>=_ok (get_booking_by_id prisma id) _ s (found_lem prisma id actor s b own),
          >>=_ok (may_cancel b actor) _ s (accepted_lem prisma id actor s b allowed (ground arith)),
          >>=_ok _ _ s (cancel_row prisma id s b own),
          >>=_ok (request_promotion prisma b) (λ _ t. (ok (with_status cancelled b), t)) rows
              (request_accepted b rows live),
        )
        refl

  confirmation_accepted :
      (id : ℕ) (s : Store)
      → add_confirmation prisma (some id) s
        ≡ (ok tt, record s { email_queue = s.email_queue ++ id ∷ [] })
  unfolding add_confirmation
  confirmation_accepted id s = let taken = accepts id s.email_queue in ground arith

  promote_first :
      (event_id : ℕ) (s : Store) (event : Event) (b : Booking)
      → (rows_ok : IsConsistent s.bookings) → find (is_event event_id) s.events ≡ some event
      → seats event_id s.bookings < event.capacity
      → prisma.booking_first event_id waitlisted s.bookings ≡ some b
      → find (has_id b.id) s.bookings ≡ some b
      → promote prisma event_id s ≡ (ok (some b.id), promoted prisma event_id s rows_ok b)
  unfolding promote promote_event get_event count_confirmed
  promote_first event_id s event b rows_ok known room first own =
      let free : ltb (seats event_id s.bookings) event.capacity ≡ true = ground arith in
      rw
        (
          prisma.event_find_lem event_id s.events,
          known,
          prisma.booking_count_lem event_id confirmed s.bookings,
          free,
          >>=_ok (find_oldest_waitlisted prisma event_id) (promote_oldest prisma) s
              (oldest_lem prisma event_id s rows_ok first),
        )
        (promote_row prisma event_id s rows_ok b own)

  pub promote_waitlisted_first :
      (event_id : ℕ) (s : Store) (event : Event) (b : Booking)
      → (rows_ok : IsConsistent s.bookings) → find (is_event event_id) s.events ≡ some event
      → seats event_id s.bookings < event.capacity
      → prisma.booking_first event_id waitlisted s.bookings ≡ some b
      → find (has_id b.id) s.bookings ≡ some b
      → promote_waitlisted prisma none event_id s ≡ (
        ok (some b.id),
        record s {
          bookings = change (has_id b.id) (with_status confirmed) s.bookings;
          email_queue = s.email_queue ++ b.id ∷ [];
        },
      )
  unfolding promote_waitlisted
  promote_waitlisted_first event_id s event b rows_ok known room first own =
      let t : Store = record s {
        bookings = change (has_id b.id) (with_status confirmed) s.bookings;
      } in
      let done : prisma.transaction none (Option ℕ) (promote prisma event_id) s
          ≡ (ok (some b.id), t) =
        prisma.transaction_commits (Option ℕ) (promote prisma event_id) s
        ∙ ap (commit s) (promote_first event_id s event b rows_ok known room first own) in
      >>=_ok (prisma.transaction none (Option ℕ) (promote prisma event_id))
        (λ id. add_confirmation prisma id >> pure id) s done
      ∙ >>=_ok (add_confirmation prisma (some b.id)) (λ _. pure (some b.id)) t
          (confirmation_accepted b.id t)

  promote_full :
      (event_id : ℕ) (s : Store) (event : Event)
      → find (is_event event_id) s.events ≡ some event
      → event.capacity ≤ seats event_id s.bookings
      → promote prisma event_id s ≡ (ok none, s)
  unfolding promote promote_event get_event count_confirmed
  promote_full event_id s event known taken =
      let full : ltb (seats event_id s.bookings) event.capacity ≡ false = ground arith in
      rw
        (
          prisma.event_find_lem event_id s.events,
          known,
          prisma.booking_count_lem event_id confirmed s.bookings,
          full,
        )
        refl

  -- An event whose seats are taken promotes nobody.
  pub promote_waitlisted_full :
      (event_id : ℕ) (s : Store) (event : Event)
      → find (is_event event_id) s.events ≡ some event
      → event.capacity ≤ seats event_id s.bookings
      → promote_waitlisted prisma none event_id s ≡ (ok none, s)
  unfolding promote_waitlisted add_confirmation
  promote_waitlisted_full event_id s event known taken =
      >>=_ok (prisma.transaction none (Option ℕ) (promote prisma event_id))
        (λ id. add_confirmation prisma id >> pure id) s
        (prisma.transaction_commits (Option ℕ) (promote prisma event_id) s
          ∙ ap (commit s) (promote_full event_id s event known taken))

  pub waitlist_job_first :
      (event_id : ℕ) (s : Store) (event : Event) (b : Booking)
      → (rows_ok : IsConsistent s.bookings) → find (is_event event_id) s.events ≡ some event
      → seats event_id s.bookings < event.capacity
      → prisma.booking_first event_id waitlisted s.bookings ≡ some b
      → find (has_id b.id) s.bookings ≡ some b
      → waitlist_job prisma none event_id s ≡ (
        ok tt,
        record s {
          bookings = change (has_id b.id) (with_status confirmed) s.bookings;
          email_queue = s.email_queue ++ b.id ∷ [];
        },
      )
  unfolding waitlist_job
  waitlist_job_first event_id s event b rows_ok known room first own =
      >>=_ok (promote_waitlisted prisma none event_id) (λ _. pure tt) s
        (promote_waitlisted_first event_id s event b rows_ok known room first own)

-- What the mail says.
abbrev pub line_of : ℕ → User → Event → Line
line_of now u event =
    send_confirmation now (record { to = u.email; name = u.name; event_title = event.title })

module _ (prisma : Prisma) (lookups : Lookups) where
  details_lem :
      (id : ℕ) (s : Store) (b : Booking) (u : User) (event : Event)
      → find (has_id id) s.bookings ≡ some b
      → find (is_user b.user_id) s.users ≡ some u
      → find (is_event b.event_id) s.events ≡ some event
      → load_booking_details prisma lookups id s ≡ (ok (record { user = u; event = event }), s)
  unfolding load_booking_details
  details_lem id s b u event own owner known =
      rw
        (
          prisma.booking_find_lem id s.bookings,
          own,
          lookups.user_or_throw_some b.user_id s.users u owner,
          lookups.event_or_throw_some b.event_id s.events event known,
        )
        refl

  pub email_job_lem :
      (now id : ℕ) (s : Store) (b : Booking) (u : User) (event : Event)
      → find (has_id id) s.bookings ≡ some b
      → find (is_user b.user_id) s.users ≡ some u
      → find (is_event b.event_id) s.events ≡ some event
      → email_job prisma lookups now id s ≡ (ok (line_of now u event), s)
  unfolding email_job
  email_job_lem now id s b u event own owner known =
      rw
        (>>=_ok (load_booking_details prisma lookups id) _ s
          (details_lem id s b u event own owner known))
        refl
