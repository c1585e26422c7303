-- ===== src/Seed/Upserts.antt =====
-- What prisma/seed.ts uses of Prisma: `upsert` with an empty update. A row that is there is
-- answered as it stands; one that is not is created, if the rows that it refers to are there.
use eventify_backend_course.Common.{
  ℕ, ◌≡◌, ◌≢◌, String, Bool, none, some, [], ◌∷◌, ◌++◌, find, str_eq, ◌==◌,
}
use eventify_backend_course.Errors.{ok, Action}
use eventify_backend_course.Store.{User, Event, Booking, Store, is_of}

abbrev pub has_email : String → User → Bool
has_email email u = str_eq u.email email

abbrev pub is_user : ℕ → User → Bool
is_user id u = u.id == id

abbrev pub is_event : ℕ → Event → Bool
is_event id e = e.id == id

pub record Upserts : Type 0 where
  -- user.upsert({ where: { email }, update: {}, create }), the row without its id
  pub user_upsert : String → (ℕ → User) → Action Store User
  pub user_upsert_some :
      (email : String) (row : ℕ → User) (s : Store) (u : User)
      → find (has_email email) s.users ≡ some u
      → user_upsert email row s ≡ (ok u, s)
  pub user_id : Store → ℕ
  pub user_id_lem : (s : Store) → find (is_user (user_id s)) s.users ≡ none
  pub user_upsert_none :
      (email : String) (row : ℕ → User) (s : Store)
      → find (has_email email) s.users ≡ none
      → user_upsert email row s
        ≡ (ok (row (user_id s)), record s { users = s.users ++ row (user_id s) ∷ [] })
  -- event.upsert({ where: { id }, update: {}, create })
  pub event_upsert : ℕ → Event → Action Store Event
  pub event_upsert_some :
      (id : ℕ) (row : Event) (s : Store) (e : Event)
      → find (is_event id) s.events ≡ some e
      → event_upsert id row s ≡ (ok e, s)
  pub event_upsert_none :
      (id : ℕ) (row : Event) (s : Store)
      → find (is_event id) s.events ≡ none
      → find (is_user row.organizer_id) s.users ≢ none
      → event_upsert id row s ≡ (ok row, record s { events = s.events ++ row ∷ [] })
  -- booking.upsert({ where: { userId_eventId }, update: {}, create }), the row without its id and
  -- time
  pub booking_upsert : ℕ → ℕ → (ℕ → ℕ → Booking) → Action Store Booking
  pub booking_upsert_some :
      (user_id event_id : ℕ) (row : ℕ → ℕ → Booking) (s : Store) (b : Booking)
      → find (is_of user_id event_id) s.bookings ≡ some b
      → booking_upsert user_id event_id row s ≡ (ok b, s)
  pub booking_id : Store → ℕ
  pub booking_time : Store → ℕ
  pub booking_upsert_none :
      (user_id event_id : ℕ) (row : ℕ → ℕ → Booking) (s : Store)
      → find (is_of user_id event_id) s.bookings ≡ none
      → find (is_user user_id) s.users ≢ none
      → find (is_event event_id) s.events ≢ none
      → booking_upsert user_id event_id row s ≡ (
        ok (row (booking_id s) (booking_time s)),
        record s { bookings = s.bookings ++ row (booking_id s) (booking_time s) ∷ [] },
      )
