-- ===== src/Seed/Memory.antt =====
-- Upserts on tables in memory, for the tests.
use eventify_backend_course.Common.{
  ℕ, suc, ◌≤◌, max, ◌≡◌, ◌≢◌, ◌∙◌, refl, String, Option, none, some, List, [], ◌∷◌, ◌++◌, find,
  arith,
}
use eventify_backend_course.Errors.{known_error, Result, ok, err, Action}
use eventify_backend_course.Store.{User, Event, Booking, Store, is_of}
use eventify_backend_course.Memory.{next_id}
use eventify_backend_course.Seed.Upserts.{Upserts, has_email, is_user, is_event}

unfoldable pub next_user : List User → ℕ
next_user [] = 0
next_user (u ∷ us) = max (suc u.id) (next_user us)

pub next_user_above : (i : ℕ) (us : List User) → next_user us ≤ i → find (is_user i) us ≡ none
unfolding next_user
next_user_above i [] h = refl
next_user_above i (u ∷ us) h =
    let apart : suc u.id ≤ i = omega arith in
    let rest : next_user us ≤ i = omega arith in ground (arith, next_user_above i us rest)

-- A row that is there is answered; else it is added where what it refers to is there.
unfoldable pub upsert_in : {A : Type 0} → Option A → Result A × Store → Action Store A
upsert_in (some a) added s = (ok a, s)
upsert_in none added s = added

unfoldable pub add_if : {A B : Type 0} → Option B → Result A × Store → Store → Result A × Store
add_if none added s = (err (known_error "P2003"), s)
add_if (some b) added s = added

unfoldable pub upsert_user_in : String → (ℕ → User) → Action Store User
unfolding next_user
upsert_user_in email row s =
    upsert_in (find (has_email email) s.users)
      (ok (row (next_user s.users)), record s { users = s.users ++ row (next_user s.users) ∷ [] }) s

unfoldable pub upsert_event_in : ℕ → Event → Action Store Event
upsert_event_in id row s =
    upsert_in (find (is_event id) s.events)
      (add_if (find (is_user row.organizer_id) s.users)
        (ok row, record s { events = s.events ++ row ∷ [] }) s)
      s

unfoldable pub upsert_booking_in : ℕ → ℕ → (ℕ → ℕ → Booking) → Action Store Booking
upsert_booking_in user_id event_id row s =
    let b = row (next_id s.bookings) 0 in
    upsert_in (find (is_of user_id event_id) s.bookings)
      (add_if (find (is_user user_id) s.users)
        (add_if (find (is_event event_id) s.events)
          (ok b, record s { bookings = s.bookings ++ b ∷ [] }) s)
        s)
      s

pub add_if-there :
    {A B : Type 0} (o : Option B) (added : Result A × Store) (s : Store)
    → o ≢ none
    → add_if o added s ≡ added
unfolding add_if
add_if-there none added s there = ground arith
add_if-there (some b) added s there = refl

abbrev pub seed_memory : Upserts
unfolding upsert_in upsert_user_in upsert_event_in upsert_booking_in
seed_memory = record {
  user_upsert = upsert_user_in;
  user_upsert_some = λ email row s u e. rw e refl;
  user_id = λ s. next_user s.users;
  user_id_lem = λ s. next_user_above (next_user s.users) s.users (omega arith);
  user_upsert_none = λ email row s e. rw e refl;
  event_upsert = upsert_event_in;
  event_upsert_some = λ id row s v e. rw e refl;
  event_upsert_none = λ id row s e f. rw e (add_if-there _ _ s f);
  booking_upsert = upsert_booking_in;
  booking_upsert_some = λ i j row s b e. rw e refl;
  booking_id = λ s. next_id s.bookings;
  booking_time = λ s. 0;
  booking_upsert_none = λ i j row s e f g. rw e (add_if-there _ _ s f ∙ add_if-there _ _ s g);
}
