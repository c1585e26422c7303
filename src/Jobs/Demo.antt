-- ===== src/Jobs/Demo.antt =====
-- scripts/waitlist-demo.ts: the program that shows the promotion from the waiting list. What it
-- uses of Prisma beyond the services is a parameter. The suffix drawn at its start is an argument.
use eventify_backend_course.Common.{
  ℕ, ◌+◌, ◌≡◌, ◌≢◌, String, Bool, true, false, not, ◌==◌, Option, none, some, List, [], ◌∷◌, ◌++◌,
  find, append,
}
use eventify_backend_course.Errors.{Failure, plain_error, Result, ok, Action, throw_if, ◌>>=◌, ◌>>◌}
use eventify_backend_course.Store.{
  Role, attendee, organizer, User, Event, Booking, Store, confirmed, waitlisted, status_eq, has_id,
}
use eventify_backend_course.Prisma.{Prisma}
use eventify_backend_course.Seed.Upserts.{has_email}
use eventify_backend_course.Bookings.Service.{Attempt, create_booking, cancel_booking}
use eventify_backend_course.Jobs.Promote.{promote_waitlisted}
use eventify_backend_course.Jobs.Worker.{is_user, is_event}

-- user.create, event.create and booking.findUniqueOrThrow; a row to create waits for its id.
pub record Creates : Type 0 where
  pub user_id : Store → ℕ
  pub user_id_lem : (s : Store) → find (is_user (user_id s)) s.users ≡ none
  pub user_create : String → (ℕ → User) → Action Store User
  pub user_create_new :
      (email : String) (row : ℕ → User) (s : Store)
      → find (has_email email) s.users ≡ none
      → user_create email row s
        ≡ (ok (row (user_id s)), record s { users = s.users ++ row (user_id s) ∷ [] })
  pub event_id : Store → ℕ
  pub event_id_lem : (s : Store) → find (is_event (event_id s)) s.events ≡ none
  pub event_create : ℕ → (ℕ → Event) → Action Store Event
  pub event_create_new :
      (organizer_id : ℕ) (row : ℕ → Event) (s : Store)
      → find (is_user organizer_id) s.users ≢ none
      → event_create organizer_id row s
        ≡ (ok (row (event_id s)), record s { events = s.events ++ row (event_id s) ∷ [] })
  pub booking_or_throw : ℕ → List Booking → Result Booking
  pub booking_or_throw_some :
      (id : ℕ) (bs : List Booking) (b : Booking)
      → find (has_id id) bs ≡ some b
      → booking_or_throw id bs ≡ ok b

-- What a run meets: the random suffix, the clock, the attempts of its two bookings, and the aborts
-- by the server of its two promotions, if any.
pub record Run : Type 0 where
  pub suffix : String
  pub now : ℕ
  pub alice_env : ℕ → Attempt
  pub bob_env : ℕ → Attempt
  pub first_abort : Option Failure
  pub second_abort : Option Failure

-- A failed assertion ends the program.
abbrev assert : Bool → String → Action Store (Unit {0})
assert cond msg = throw_if (not cond) (plain_error msg)

abbrev pub is_id : Option ℕ → ℕ → Bool
is_id none id = false
is_id (some i) id = i == id

abbrev pub is_null : Option ℕ → Bool
is_null none = true
is_null (some id) = false

unfoldable pub email_of : String → Run → String
unfolding append
email_of name run = append name (append run.suffix "@eventify.dev")

abbrev pub user_row : String → String → Role → ℕ → User
user_row email name role id = record { id = id; name = name; email = email; role = role }

abbrev pub event_row : Run → ℕ → ℕ → Event
event_row run organizer_id id = record {
  id = id;
  title = append "Demo Event " run.suffix;
  description = "Capacity 1 event for waitlist demo";
  venue = none;
  starts_at = run.now + 86400000;
  capacity = 1;
  price_cents = 0;
  organizer_id = organizer_id;
}

module _ (prisma : Prisma) (creates : Creates) (run : Run) where
  unfoldable pub bob_is_final : Booking → Action Store (Unit {0})
  bob_is_final b = do
    bob_final ← (λ s. (creates.booking_or_throw b.id s.bookings, s))
    assert (status_eq bob_final.status confirmed) "Bob's booking is now CONFIRMED"

  -- Steps 4 to 6.
  unfoldable pub hand_over : ℕ → ℕ → Booking → Booking → Action Store (Unit {0})
  hand_over alice event a b = do
    cancel_booking prisma a.id (record { sub = alice; role = attendee })
    promoted_id ← promote_waitlisted prisma run.first_abort event
    assert (is_id promoted_id b.id) "Bob (oldest waitlisted) is promoted to CONFIRMED"
    second_pass ← promote_waitlisted prisma run.second_abort event
    assert (is_null second_pass) "Second promotion pass is a no-op (no double-promote)"
    bob_is_final b

  -- Steps 2 to 6.
  unfoldable pub show : ℕ → ℕ → ℕ → Action Store (Unit {0})
  show alice bob event = do
    a ← create_booking prisma run.alice_env alice event
    assert (status_eq a.status confirmed) "Alice is CONFIRMED (seat taken)"
    b ← create_booking prisma run.bob_env bob event
    assert (status_eq b.status waitlisted) "Bob is WAITLISTED (event full)"
    hand_over alice event a b

  unfoldable pub main : Action Store (Unit {0})
  unfolding append
  main = do
    host ←
        creates.user_create (email_of "organizer-" run)
          (user_row (email_of "organizer-" run) "Organizer" organizer)
    alice ←
        creates.user_create (email_of "alice-" run)
          (user_row (email_of "alice-" run) "Alice" attendee)
    bob ← creates.user_create (email_of "bob-" run) (user_row (email_of "bob-" run) "Bob" attendee)
    event ← creates.event_create host.id (event_row run host.id)
    show alice.id bob.id event.id
