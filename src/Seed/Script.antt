-- ===== src/Seed/Script.antt =====
-- prisma/seed.ts. The file that it writes at the end is its result; the log lines are left out.
use eventify_backend_course.Common.{
  ℕ, zero, suc, ◌+◌, ◌/◌, ◌%◌, String, some, List, [], ◌∷◌, ltb, ◌==◌, if◌then◌else◌, map, append,
}
use eventify_backend_course.Errors.{Action, pure, ◌>>=◌, ◌>>◌}
use eventify_backend_course.Store.{
  User, Event, Booking, Role, attendee, organizer, admin, confirmed, Store,
}
use eventify_backend_course.Prisma.{new_booking}
use eventify_backend_course.Seed.Upserts.{Upserts}

pub record FixtureUser : Type 0 where
  pub user_id : ℕ
  pub token : String

-- scripts/fixtures/parallel-users.json
pub record Fixture : Type 0 where
  pub base_url : String
  pub event_id : ℕ
  pub capacity : ℕ
  pub users : List FixtureUser

pub record Team : Type 0 where
  pub organizer : User
  pub admin : User
  pub attendee : User

-- The events that the script reads again.
pub record Shows : Type 0 where
  pub event1 : Event
  pub event2 : Event
  pub capacity_event : Event

abbrev digit : ℕ → String
digit n =
    if n == 0
    then "0"
    else if n == 1
    then "1"
    else if n == 2
    then "2"
    else if n == 3
    then "3"
    else if n == 4
    then "4"
    else if n == 5
    then "5"
    else if n == 6
    then "6"
    else if n == 7
    then "7"
    else if n == 8
    then "8"
    else "9"

-- `${i}` for a number below a hundred.
unfoldable pub decimal : ℕ → String
unfolding append
decimal n = if ltb n 10 then digit n else append (digit (n / 10)) (digit (n % 10))

abbrev pub user_row : String → String → Role → ℕ → User
user_row name email role id = record { id = id; name = name; email = email; role = role }

-- An id is the number that its 32 hexadecimal digits write; a date is in milliseconds.
abbrev pub seed_id : ℕ → ℕ
seed_id n = 41590827239446191859511351351877566464 + n

abbrev pub music_festival : ℕ → Event
music_festival organizer_id = record {
  id = seed_id 1;
  title = "Music Festival 2025";
  description = "A weekend of live music and art.";
  venue = some "Central Park";
  starts_at = 1757959200000;
  capacity = 500;
  price_cents = 5000;
  organizer_id = organizer_id;
}

abbrev pub tech_conference : ℕ → Event
tech_conference organizer_id = record {
  id = seed_id 2;
  title = "Tech Conference 2025";
  description = "The latest in web development and AI.";
  venue = some "Convention Center";
  starts_at = 1759309200000;
  capacity = 300;
  price_cents = 10000;
  organizer_id = organizer_id;
}

abbrev pub food_expo : ℕ → Event
food_expo organizer_id = record {
  id = seed_id 3;
  title = "Food Expo 2025";
  description = "Taste dishes from top chefs around the world.";
  venue = some "Downtown Hall";
  starts_at = 1762776000000;
  capacity = 200;
  price_cents = 2500;
  organizer_id = organizer_id;
}

abbrev pub yoga_retreat : ℕ → Event
yoga_retreat organizer_id = record {
  id = seed_id 4;
  title = "Yoga Retreat";
  description = "A day of mindfulness and relaxation.";
  venue = some "Seaside Resort";
  starts_at = 1764918000000;
  capacity = 50;
  price_cents = 7500;
  organizer_id = organizer_id;
}

abbrev pub capacity_test : ℕ → Event
capacity_test organizer_id = record {
  id = seed_id 5;
  title = "Capacity Test Event";
  description = "Capacity 5 — used by the parallel-bookings concurrency script.";
  venue = some "Test Lab";
  starts_at = 1755684000000;
  capacity = 5;
  price_cents = 0;
  organizer_id = organizer_id;
}

abbrev pub fixture_user : User → FixtureUser
fixture_user u = record { user_id = u.id; token = "" }

abbrev pub new_fixture : List User → Shows → Fixture
new_fixture parallel_users shows = record {
  base_url = "http://localhost:3000";
  event_id = shows.capacity_event.id;
  capacity = shows.capacity_event.capacity;
  users = map fixture_user parallel_users;
}

module _ (upserts : Upserts) where
  open upserts use {user_upsert, event_upsert, booking_upsert}

  unfoldable pub upsert_user : String → String → Role → Action Store User
  upsert_user name email role = user_upsert email (user_row name email role)

  unfoldable pub seed_team : Action Store Team
  seed_team = do
    organizer' ← upsert_user "Orga Nizer" "organizer@eventify.dev" organizer
    admin' ← upsert_user "Ad Min" "admin@eventify.dev" admin
    attendee' ← upsert_user "Atten Dee" "attendee@eventify.dev" attendee
    pure (record { organizer = organizer'; admin = admin'; attendee = attendee' })

  -- The loop from `i` on, with the rounds left.
  unfoldable pub seed_parallel : ℕ → ℕ → Action Store (List User)
  unfolding append decimal
  seed_parallel zero i = pure []
  seed_parallel (suc left) i = do
    user ←
        upsert_user (append "Parallel User " (decimal i))
          (append "parallel-user-" (append (decimal i) "@eventify.dev")) attendee
    rest ← seed_parallel left (i + 1)
    pure (user ∷ rest)

  unfoldable pub upsert_event : Event → Action Store Event
  upsert_event row = event_upsert row.id row

  unfoldable pub seed_events : Team → Action Store Shows
  seed_events team = do
    event1 ← upsert_event (music_festival team.organizer.id)
    event2 ← upsert_event (tech_conference team.organizer.id)
    upsert_event (food_expo team.organizer.id)
    upsert_event (yoga_retreat team.admin.id)
    capacity_event ← upsert_event (capacity_test team.organizer.id)
    pure (record { event1 = event1; event2 = event2; capacity_event = capacity_event })

  unfoldable pub upsert_booking : ℕ → ℕ → Action Store Booking
  upsert_booking user_id event_id =
      booking_upsert user_id event_id (λ id now. new_booking id now user_id event_id confirmed)

  unfoldable pub seed_bookings : Team → Shows → Action Store (Unit {0})
  seed_bookings team shows = do
    upsert_booking team.attendee.id shows.event1.id
    upsert_booking team.attendee.id shows.event2.id
    pure tt

  unfoldable pub seed : Action Store Fixture
  seed = do
    team ← seed_team
    parallel_users ← seed_parallel 20 1
    shows ← seed_events team
    seed_bookings team shows
    pure (new_fixture parallel_users shows)
