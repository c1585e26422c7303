-- ===== src/Tests/Jobs.antt =====
-- The workers on a small table in memory.
use eventify_backend_course.Common.{refl, none, some, Option, [], ◌∷◌, find}
use eventify_backend_course.Errors.{known_error, ok, err, Result}
use eventify_backend_course.Store.{User, Store, attendee}
use eventify_backend_course.Memory.{memory}
use eventify_backend_course.Jobs.Worker.{is_user, is_event, Lookups, email_job}
use eventify_backend_course.Jobs.Mail.{Mails, email_job-Mails}
use eventify_backend_course.Tests.Bookings.{bob_waits}

or_throw : {A : Type 0} → Option A → Result A
or_throw none = err (known_error "P2025")
or_throw (some a) = ok a

abbrev lookups : Lookups
unfolding or_throw
lookups = record {
  user_or_throw = λ id us. or_throw (find (is_user id) us);
  user_or_throw_some = λ id us u e. rw e refl;
  user_or_throw_none = λ id us e. rw e refl;
  event_or_throw = λ id es. or_throw (find (is_event id) es);
  event_or_throw_some = λ id es v e. rw e refl;
  event_or_throw_none = λ id es e. rw e refl;
}

abbrev ann : User
ann = record { id = 10; name = "Alice"; email = "alice@eventify.dev"; role = attendee }

abbrev bob : User
bob = record { id = 11; name = "Bob"; email = "bob@eventify.dev"; role = attendee }

abbrev pub full : Store
full = record bob_waits { users = ann ∷ bob ∷ [] }

email_job-Mails_example : Mails memory 5 1 full (email_job memory lookups 5 1 full)
email_job-Mails_example = email_job-Mails memory lookups 5 1 full
