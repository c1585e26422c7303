-- ===== src/Jobs/Worker.antt =====
-- src/worker.ts and src/infra/mailer.ts: what the two workers do with a job. BullMQ hands a job to
-- a worker; its start and stop are left out. The line that the mailer logs is the value of the job.
use eventify_backend_course.Common.{
  append, ℕ, ◌≡◌, String, Bool, Option, none, some, List, find, ◌==◌,
}
use eventify_backend_course.Errors.{
  Thrown, Failure, plain_error, known_error, Result, ok, err, Action, pure, throw, gets, ◌>>=◌,
  ◌>>◌,
}
use eventify_backend_course.Store.{User, Event, Store}
use eventify_backend_course.Prisma.{Prisma}
use eventify_backend_course.Jobs.Promote.{promote_waitlisted}

abbrev pub is_user : ℕ → User → Bool
is_user id u = u.id == id

abbrev pub is_event : ℕ → Event → Bool
is_event id e = e.id == id

-- user.findUniqueOrThrow and event.findUniqueOrThrow
pub record Lookups : Type 0 where
  pub user_or_throw : ℕ → List User → Result User
  pub user_or_throw_some :
      (id : ℕ) (us : List User) (u : User)
      → find (is_user id) us ≡ some u
      → user_or_throw id us ≡ ok u
  pub user_or_throw_none :
      (id : ℕ) (us : List User)
      → find (is_user id) us ≡ none
      → user_or_throw id us ≡ err (known_error "P2025")
  pub event_or_throw : ℕ → List Event → Result Event
  pub event_or_throw_some :
      (id : ℕ) (es : List Event) (e : Event)
      → find (is_event id) es ≡ some e
      → event_or_throw id es ≡ ok e
  pub event_or_throw_none :
      (id : ℕ) (es : List Event)
      → find (is_event id) es ≡ none
      → event_or_throw id es ≡ err (known_error "P2025")

pub record ConfirmationEmail : Type 0 where
  pub to : String
  pub name : String
  pub event_title : String

-- The object that the mailer writes as a line of JSON.
pub record Line : Type 0 where
  pub type : String
  pub to : String
  pub name : String
  pub event_title : String
  pub sent_at : ℕ

unfoldable pub send_confirmation : ℕ → ConfirmationEmail → Line
send_confirmation now input = record {
  type = "email:confirmation";
  to = input.to;
  name = input.name;
  event_title = input.event_title;
  sent_at = now;
}

pub record BookingDetails : Type 0 where
  pub user : User
  pub event : Event

abbrev pub booking_not_found : Prisma → ℕ → Thrown
unfolding append
booking_not_found prisma id =
    plain_error (append "booking " (append (prisma.text_of id) " not found"))

module _ (prisma : Prisma) (lookups : Lookups) where
  open lookups use {user_or_throw, event_or_throw}

  unfoldable pub load_booking_details : ℕ → Action Store BookingDetails
  load_booking_details booking_id = do
    booking ← gets λ s. prisma.booking_find booking_id s.bookings
    elim booking [
      | none ↦ throw (booking_not_found prisma booking_id)
      | some b ↦ do
        user ← λ s. (user_or_throw b.user_id s.users, s)
        event ← λ s. (event_or_throw b.event_id s.events, s)
        pure (record { user = user; event = event })
    ]

  -- The `booking-email` worker, at a time.
  unfoldable pub email_job : ℕ → ℕ → Action Store Line
  email_job now booking_id = do
    details ← load_booking_details booking_id
    let email : ConfirmationEmail = record {
      to = details.user.email;
      name = details.user.name;
      event_title = details.event.title;
    }
    pure (send_confirmation now email)

-- The `waitlist-promote` worker; the first argument is the abort of the transaction, if any.
unfoldable pub waitlist_job : Prisma → Option Failure → ℕ → Action Store (Unit {0})
waitlist_job prisma abort event_id = do promote_waitlisted prisma abort event_id; pure tt
