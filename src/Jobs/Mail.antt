-- ===== src/Jobs/Mail.antt =====
-- What the email worker does with a job.
use eventify_backend_course.Common.{ℕ, ◌≡◌, ◌⊎◌, inl, inr, refl, none, some, find, Option-cases}
use eventify_backend_course.Errors.{Result, ok, err, known_error, >>=_err}
use eventify_backend_course.Store.{User, Event, Booking, Store, has_id}
use eventify_backend_course.Prisma.{Prisma}
use eventify_backend_course.Jobs.Worker.{
  booking_not_found, is_user, is_event, Lookups, Line, send_confirmation, load_booking_details,
  email_job,
}
use eventify_backend_course.Jobs.Accepted.{email_job_lem}

-- The outcome of the job of the booking `id` at the store `s`.
abbrev pub Mails : Prisma → ℕ → ℕ → Store → Result Line × Store → Type 0
Mails prisma now id s (err e, s') =
    (s' ≡ s)
    × (((find (has_id id) s.bookings ≡ none) × (e ≡ booking_not_found prisma id))
        ⊎ ((b : Booking) × (find (has_id id) s.bookings ≡ some b)
            × (e ≡ known_error "P2025")
            × ((find (is_user b.user_id) s.users ≡ none)
                ⊎ (find (is_event b.event_id) s.events ≡ none))))
Mails prisma now id s (ok line, s') =
    (s' ≡ s)
    × (b : Booking) × (u : User) × (event : Event) × (find (has_id id) s.bookings ≡ some b)
    × (find (is_user b.user_id) s.users ≡ some u)
    × (find (is_event b.event_id) s.events ≡ some event)
    × (line.to ≡ u.email)
    × (line.name ≡ u.name)
    × (line.event_title ≡ event.title)
    × (line.sent_at ≡ now)

module _ (prisma : Prisma) (lookups : Lookups) (now id : ℕ) (s : Store) where
  job_fails :
      {e : _}
      → load_booking_details prisma lookups id s ≡ (err e, s)
      → email_job prisma lookups now id s ≡ (err e, s)
  unfolding email_job
  job_fails h = rw (>>=_err (load_booking_details prisma lookups id) _ s h) refl

  no_booking :
      find (has_id id) s.bookings ≡ none
      → load_booking_details prisma lookups id s ≡ (err (booking_not_found prisma id), s)
  unfolding load_booking_details
  no_booking gone = rw (prisma.booking_find_lem id s.bookings, gone) refl

  no_user :
      (b : Booking)
      → find (has_id id) s.bookings ≡ some b
      → find (is_user b.user_id) s.users ≡ none
      → load_booking_details prisma lookups id s ≡ (err (known_error "P2025"), s)
  unfolding load_booking_details
  no_user b own gone =
      rw
        (
          prisma.booking_find_lem id s.bookings,
          own,
          lookups.user_or_throw_none b.user_id s.users gone,
        )
        refl

  no_event :
      (b : Booking) (u : User)
      → find (has_id id) s.bookings ≡ some b
      → find (is_user b.user_id) s.users ≡ some u
      → find (is_event b.event_id) s.events ≡ none
      → load_booking_details prisma lookups id s ≡ (err (known_error "P2025"), s)
  unfolding load_booking_details
  no_event b u own owner gone =
      rw
        (
          prisma.booking_find_lem id s.bookings,
          own,
          lookups.user_or_throw_some b.user_id s.users u owner,
          lookups.event_or_throw_none b.event_id s.events gone,
        )
        refl

  -- The email worker's job on every branch: it writes no row and no queue. It fails where the
  -- booking is missing, with the worker's error, or where its user or its event is, with the
  -- database's; otherwise it logs one message to the address and name of the booking's user, with
  -- the title of the booking's event and the time.
  pub email_job-Mails : Mails prisma now id s (email_job prisma lookups now id s)
  unfolding send_confirmation
  email_job-Mails = elim (Option-cases (find (has_id id) s.bookings)) [
    | inl gone ↦ rw (job_fails (no_booking gone)) (refl, inl (gone, refl))
    | inr (b, own) ↦ elim (Option-cases (find (is_user b.user_id) s.users)) [
      | inl gone ↦ rw (job_fails (no_user b own gone)) (refl, inr (b, own, refl, inl gone))
      | inr (u, owner) ↦ elim (Option-cases (find (is_event b.event_id) s.events)) [
        | inl gone ↦
            rw (job_fails (no_event b u own owner gone)) (refl, inr (b, own, refl, inr gone))
        | inr (event, known) ↦
            rw (email_job_lem prisma lookups now id s b u event own owner known)
              (refl, b, u, event, own, owner, known, refl, refl, refl, refl)
      ]
    ]
  ]
