-- ===== src/Tests/Demo.antt =====
-- The demo of the waiting list on tables in memory.
use eventify_backend_course.Common.{
  ℕ, suc, ◌≤◌, max, ◌≡◌, refl, String, Option, none, some, List, [], ◌∷◌, ◌++◌, find, arith, append,
}
use eventify_backend_course.Errors.{known_error, Result, ok, err, Action}
use eventify_backend_course.Store.{User, Event, Booking, Store, has_id}
use eventify_backend_course.Memory.{memory}
use eventify_backend_course.Bookings.Service.{Attempt}
use eventify_backend_course.Seed.Upserts.{has_email}
use eventify_backend_course.Seed.Memory.{next_user, next_user_above, add_if, add_if-there}
use eventify_backend_course.Jobs.Worker.{is_user, is_event}
use eventify_backend_course.Jobs.Demo.{Creates, Run, email_of, main}
use eventify_backend_course.Jobs.Ends.{EndsWell, main-EndsWell}
use eventify_backend_course.Tests.Jobs.{full}

next_event : List Event → ℕ
next_event [] = 0
next_event (e ∷ es) = max (suc e.id) (next_event es)

next_event_above : (i : ℕ) (es : List Event) → next_event es ≤ i → find (is_event i) es ≡ none
unfolding next_event
next_event_above i [] h = refl
next_event_above i (e ∷ es) h =
    let apart : suc e.id ≤ i = omega arith in
    let rest : next_event es ≤ i = omega arith in ground (arith, next_event_above i es rest)

create_user_in : String → (ℕ → User) → Action Store User
unfolding next_user
create_user_in email row s = elim (find (has_email email) s.users) [
  | none ↦
      (ok (row (next_user s.users)), record s { users = s.users ++ row (next_user s.users) ∷ [] })
  | some u ↦ (err (known_error "P2002"), s)
]

create_event_in : ℕ → (ℕ → Event) → Action Store Event
unfolding next_event add_if
create_event_in organizer_id row s =
    let e = row (next_event s.events) in
    add_if (find (is_user organizer_id) s.users) (ok e, record s { events = s.events ++ e ∷ [] }) s

found_or : Option Booking → Result Booking
found_or none = err (known_error "P2025")
found_or (some b) = ok b

abbrev creates : Creates
unfolding create_user_in create_event_in found_or
creates = record {
  user_id = λ s. next_user s.users;
  user_id_lem = λ s. next_user_above (next_user s.users) s.users (omega arith);
  user_create = create_user_in;
  user_create_new = λ email row s e. rw (e, create_user_in) refl;
  event_id = λ s. next_event s.events;
  event_id_lem = λ s. next_event_above (next_event s.events) s.events (omega arith);
  event_create = create_event_in;
  event_create_new = λ i row s e. add_if-there _ _ s e;
  booking_or_throw = λ id bs. found_or (find (has_id id) bs);
  booking_or_throw_some = λ id bs b e. rw e refl;
}

abbrev quiet : ℕ → Attempt
quiet n = record { now = 5; abort = none; others = λ s. s }

abbrev run : Run
run = record {
  suffix = "k3x9";
  now = 4;
  alice_env = quiet;
  bob_env = quiet;
  first_abort = none;
  second_abort = none;
}

-- The run on a store in which two bookings stand.
main-EndsWell_example :
    (alice : User) × (bob : User) × (event : Event) × let (r, s') = main memory creates run full in
      (r ≡ ok tt) × EndsWell memory run full alice bob event s'
unfolding memory email_of append
main-EndsWell_example =
    main-EndsWell memory creates run full
      ((λ job jobs. refl), (refl, λ s. refl), (refl, λ s. refl), refl, refl) (refl, refl, refl)
      (refl, refl, (refl, refl, tt)) ((_, refl), ((_, refl), tt))
