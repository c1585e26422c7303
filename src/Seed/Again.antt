-- ===== src/Seed/Again.antt =====
-- The whole script settles.
use eventify_backend_course.Common.{
  ℕ, zero, suc, ◌+◌, ◌≡◌, refl, subst, append, String, List, [], ◌∷◌, map,
}
use eventify_backend_course.Errors.{pure, ◌>>=◌}
use eventify_backend_course.Store.{User, attendee, organizer, admin, Store}
use eventify_backend_course.Seed.Upserts.{Upserts}
use eventify_backend_course.Seed.Script.{
  Fixture, Team, Shows, seed_id, decimal, music_festival, tech_conference, food_expo, yoga_retreat,
  capacity_test, upsert_user, upsert_event, upsert_booking, fixture_user, new_fixture, seed_team,
  seed_parallel, seed_events, seed_bookings, seed,
}
use eventify_backend_course.Seed.Settles.{
  Extends, Extends-trans, HasUser, HasEvent, HasBooking, IsUserOf, IsUserOf-Extends,
  HasUser-Extends, HasEvent-Extends, Settles, pure-Settles, >>=-Settles, upsert_user-Settles,
  upsert_event-Settles, upsert_booking-Settles,
}

-- The rows of the team are there, and the attendee is the one with the address.
abbrev HasTeam : Team → Store → Type 0
HasTeam team s =
    HasUser team.organizer.id s
    × HasUser team.admin.id s
    × IsUserOf "attendee@eventify.dev" team.attendee s

-- The five events are there, and the three that are read again are the first, the second and the last.
abbrev HasShows : Shows → Store → Type 0
HasShows shows s =
    ((shows.event1.id ≡ seed_id 1) × HasEvent shows.event1.id s)
    × ((shows.event2.id ≡ seed_id 2) × HasEvent shows.event2.id s)
    × HasEvent (seed_id 3) s
    × HasEvent (seed_id 4) s
    × ((shows.capacity_event.id ≡ seed_id 5) × HasEvent shows.capacity_event.id s)

-- The users, one for each address and in their order.
abbrev pub Lists : List String → List User → Store → Type 0
Lists [] [] s = Unit
Lists [] (u ∷ us) s = ⊥
Lists (email ∷ emails) [] s = ⊥
Lists (email ∷ emails) (u ∷ us) s = IsUserOf email u s × Lists emails us s

Lists-Extends :
    (emails : List String) (us : List User) (s t : Store)
    → Extends s t
    → Lists emails us s
    → Lists emails us t
Lists-Extends [] [] s t ext h = tt
Lists-Extends [] (u ∷ us) s t ext h = elim h [ ]
Lists-Extends (email ∷ emails) [] s t ext h = elim h [ ]
Lists-Extends (email ∷ emails) (u ∷ us) s t ext (here, rest) =
    (IsUserOf-Extends email u s t ext here, Lists-Extends emails us s t ext rest)

HasTeam-Extends : (team : Team) (s t : Store) → Extends s t → HasTeam team s → HasTeam team t
HasTeam-Extends team s t ext (a, b, c) =
    (HasUser-Extends _ s t ext a, HasUser-Extends _ s t ext b, IsUserOf-Extends _ _ s t ext c)

-- The addresses of the users for the script of parallel bookings.
abbrev pub parallel_emails : List String
parallel_emails =
    "parallel-user-1@eventify.dev" ∷ "parallel-user-2@eventify.dev" ∷ "parallel-user-3@eventify.dev"
    ∷ "parallel-user-4@eventify.dev" ∷ "parallel-user-5@eventify.dev"
    ∷ "parallel-user-6@eventify.dev" ∷ "parallel-user-7@eventify.dev"
    ∷ "parallel-user-8@eventify.dev" ∷ "parallel-user-9@eventify.dev"
    ∷ "parallel-user-10@eventify.dev" ∷ "parallel-user-11@eventify.dev"
    ∷ "parallel-user-12@eventify.dev" ∷ "parallel-user-13@eventify.dev"
    ∷ "parallel-user-14@eventify.dev" ∷ "parallel-user-15@eventify.dev"
    ∷ "parallel-user-16@eventify.dev" ∷ "parallel-user-17@eventify.dev"
    ∷ "parallel-user-18@eventify.dev" ∷ "parallel-user-19@eventify.dev"
    ∷ "parallel-user-20@eventify.dev" ∷ []

emails_from : ℕ → ℕ → List String
unfolding append decimal
emails_from zero i = []
emails_from (suc left) i =
    append "parallel-user-" (append (decimal i) "@eventify.dev") ∷ emails_from left (i + 1)

emails_from_lem : emails_from 20 1 ≡ parallel_emails
unfolding emails_from append decimal
emails_from_lem = refl

-- The fixture lists the users with the twenty addresses and the last of the five events; the five
-- events are in the table, and the attendee has a booking for the first two.
abbrev pub IsReal : Fixture → Store → Type 0
IsReal fixture s =
    ((us : List User) × Lists parallel_emails us s × (fixture.users ≡ map fixture_user us))
    × (fixture.event_id ≡ seed_id 5)
    × (HasEvent (seed_id 1) s
        × HasEvent (seed_id 2) s
        × HasEvent (seed_id 3) s
        × HasEvent (seed_id 4) s
        × HasEvent (seed_id 5) s)
    × ((u : User) × IsUserOf "attendee@eventify.dev" u s
        × HasBooking u.id (seed_id 1) s
        × HasBooking u.id (seed_id 2) s)

HasShows-Extends : (shows : Shows) (s t : Store) → Extends s t → HasShows shows s → HasShows shows t
HasShows-Extends shows s t ext ((i, a), (j, b), c, d, (k, e)) = (
  (i, HasEvent-Extends _ s t ext a),
  (j, HasEvent-Extends _ s t ext b),
  HasEvent-Extends _ s t ext c,
  HasEvent-Extends _ s t ext d,
  (k, HasEvent-Extends _ s t ext e),
)

-- The rows of all parts make the fixture real.
real :
    (team : Team) (us : List User) (shows : Shows) (s : Store)
    → HasTeam team s
    → Lists (emails_from 20 1) us s
    → HasShows shows s
    → HasBooking team.attendee.id shows.event1.id s × HasBooking team.attendee.id shows.event2.id s
    → IsReal (new_fixture us shows) s
real team us shows s people there ((i, a), (j, b), c, d, (k, e)) (b1, b2) = (
  (us, subst (λ emails. Lists emails us s) emails_from_lem there, refl),
  k,
  (
    subst (λ n. HasEvent n s) i a,
    subst (λ n. HasEvent n s) j b,
    c,
    d,
    subst (λ n. HasEvent n s) k e,
  ),
  (
    team.attendee,
    people.2,
    subst (λ n. HasBooking team.attendee.id n s) i b1,
    subst (λ n. HasBooking team.attendee.id n s) j b2,
  ),
)

module _ (upserts : Upserts) where
  seed_team-Settles : (s : Store) → Settles s (seed_team upserts) HasTeam
  unfolding seed_team
  seed_team-Settles s =
      >>=-Settles (upsert_user upserts "Orga Nizer" "organizer@eventify.dev" organizer) _ s
        (IsUserOf "organizer@eventify.dev") HasTeam (upsert_user-Settles upserts s _ _ organizer)
        λ a s1 e1 h1.
          >>=-Settles (upsert_user upserts "Ad Min" "admin@eventify.dev" admin) _ s1
            (IsUserOf "admin@eventify.dev") HasTeam (upsert_user-Settles upserts s1 _ _ admin)
            λ b s2 e2 h2.
              >>=-Settles (upsert_user upserts "Atten Dee" "attendee@eventify.dev" attendee) _ s2
                (IsUserOf "attendee@eventify.dev") HasTeam
                (upsert_user-Settles upserts s2 _ _ attendee)
                λ c s3 e3 h3.
                  pure-Settles (record { organizer = a; admin = b; attendee = c }) s3 HasTeam
                    (
                      HasUser-Extends a.id s1 s3 (Extends-trans s1 s2 s3 e2 e3) h1.1,
                      HasUser-Extends b.id s2 s3 e3 h2.1,
                      h3,
                    )

  seed_parallel-Settles :
      (left i : ℕ) (s : Store)
      → Settles s (seed_parallel upserts left i) (Lists (emails_from left i))
  unfolding seed_parallel emails_from
  seed_parallel-Settles zero i s = pure-Settles [] s (Lists []) tt
  seed_parallel-Settles (suc left) i s =
      let email = append "parallel-user-" (append (decimal i) "@eventify.dev") in
      let emails = emails_from left (i + 1) in
      >>=-Settles (upsert_user upserts (append "Parallel User " (decimal i)) email attendee) _ s
        (IsUserOf email) (Lists (email ∷ emails)) (upsert_user-Settles upserts s _ email attendee)
        λ u s1 e1 h1.
          >>=-Settles (seed_parallel upserts left (i + 1)) _ s1 (Lists emails)
            (Lists (email ∷ emails)) (seed_parallel-Settles left (i + 1) s1)
            λ us s2 e2 rest.
              pure-Settles (u ∷ us) s2 (Lists (email ∷ emails))
                (IsUserOf-Extends email u s1 s2 e2 h1, rest)

  at_id : {i j : ℕ} (s : Store) → i ≡ j → HasEvent i s → HasEvent j s
  at_id s same there = subst (λ k. HasEvent k s) same there

  seed_events-Settles :
      (team : Team) (s : Store) → HasTeam team s → Settles s (seed_events upserts team) HasShows
  unfolding seed_events
  seed_events-Settles team s h =
      >>=-Settles (upsert_event upserts (music_festival team.organizer.id)) _ s
        (λ e t. (e.id ≡ seed_id 1) × HasEvent e.id t) HasShows
        (upsert_event-Settles upserts s (music_festival team.organizer.id) h.0)
        λ a s1 e1 h1.
          >>=-Settles (upsert_event upserts (tech_conference team.organizer.id)) _ s1
            (λ e t. (e.id ≡ seed_id 2) × HasEvent e.id t) HasShows
            (upsert_event-Settles upserts s1 (tech_conference team.organizer.id)
              (HasUser-Extends _ s s1 e1 h.0))
            λ b s2 e2 h2.
              let ext2 = Extends-trans s s1 s2 e1 e2 in
              >>=-Settles (upsert_event upserts (food_expo team.organizer.id)) _ s2
                (λ e t. (e.id ≡ seed_id 3) × HasEvent e.id t) HasShows
                (upsert_event-Settles upserts s2 (food_expo team.organizer.id)
                  (HasUser-Extends _ s s2 ext2 h.0))
                λ d s3 e3 h3.
                  let ext3 = Extends-trans s s2 s3 ext2 e3 in
                  >>=-Settles (upsert_event upserts (yoga_retreat team.admin.id)) _ s3
                    (λ e t. (e.id ≡ seed_id 4) × HasEvent e.id t) HasShows
                    (upsert_event-Settles upserts s3 (yoga_retreat team.admin.id)
                      (HasUser-Extends _ s s3 ext3 h.1))
                    λ f s4 e4 h4.
                      let ext4 = Extends-trans s s3 s4 ext3 e4 in
                      >>=-Settles (upsert_event upserts (capacity_test team.organizer.id)) _ s4
                        (λ e t. (e.id ≡ seed_id 5) × HasEvent e.id t) HasShows
                        (upsert_event-Settles upserts s4 (capacity_test team.organizer.id)
                          (HasUser-Extends _ s s4 ext4 h.0))
                        λ c s5 e5 h5.
                          let late = Extends-trans s2 s4 s5 (Extends-trans s2 s3 s4 e3 e4) e5 in
                          pure-Settles (record { event1 = a; event2 = b; capacity_event = c }) s5
                            HasShows
                            (
                              (
                                h1.0,
                                HasEvent-Extends a.id s1 s5 (Extends-trans s1 s2 s5 e2 late) h1.1,
                              ),
                              (h2.0, HasEvent-Extends b.id s2 s5 late h2.1),
                              HasEvent-Extends (seed_id 3) s3 s5 (Extends-trans s3 s4 s5 e4 e5)
                                  (at_id s3 h3.0 h3.1),
                              HasEvent-Extends (seed_id 4) s4 s5 e5 (at_id s4 h4.0 h4.1),
                              h5,
                            )

  seed_bookings-Settles :
      (team : Team) (shows : Shows) (s : Store)
      → HasTeam team s
      → HasShows shows s
      → Settles s (seed_bookings upserts team shows) (λ _ t.
        HasBooking team.attendee.id shows.event1.id t
        × HasBooking team.attendee.id shows.event2.id t)
  unfolding seed_bookings
  seed_bookings-Settles team shows s people events =
      let Both = λ (_ : Unit {0}) (t : Store).
        HasBooking team.attendee.id shows.event1.id t
        × HasBooking team.attendee.id shows.event2.id t in
      >>=-Settles (upsert_booking upserts team.attendee.id shows.event1.id) _ s
        (λ _ t. HasBooking team.attendee.id shows.event1.id t) Both
        (upsert_booking-Settles upserts s team.attendee.id shows.event1.id people.2.1 events.0.1)
        λ _ s1 e1 (b1, first).
          >>=-Settles (upsert_booking upserts team.attendee.id shows.event2.id) _ s1
            (λ _ t. HasBooking team.attendee.id shows.event2.id t) Both
            (upsert_booking-Settles upserts s1 team.attendee.id shows.event2.id
              (HasUser-Extends _ s s1 e1 people.2.1) (HasEvent-Extends _ s s1 e1 events.1.1))
            λ _ s2 e2 second.
              pure-Settles tt s2 Both ((b1, e2.3 team.attendee.id shows.event1.id b1 first), second)

  -- The seed script may run again: it succeeds from every store and keeps every row that can be
  -- looked up. Afterwards the five events are in the table, the user with the attendee's address has
  -- a booking for the first two, and the fixture lists the users with the twenty addresses, in their
  -- order, and the last event. When the script runs again, at once or after rows were added, it
  -- changes nothing and writes the same fixture.
  pub seed-Settles : (s : Store) → Settles s (seed upserts) IsReal
  unfolding seed
  seed-Settles s =
      let end = λ (us : List User) (shows : Shows) (_ : Unit {0}).
        pure {S = Store} (new_fixture us shows) in
      let book = λ (team : Team) (us : List User) (shows : Shows).
        seed_bookings upserts team shows >>= end us shows in
      let events = λ (team : Team) (us : List User). seed_events upserts team >>= book team us in
      let users = λ (team : Team). seed_parallel upserts 20 1 >>= events team in
      >>=-Settles (seed_team upserts) users s HasTeam IsReal (seed_team-Settles s)
        λ team s1 e1 people.
          >>=-Settles (seed_parallel upserts 20 1) (events team) s1 (Lists (emails_from 20 1))
            IsReal (seed_parallel-Settles 20 1 s1)
            λ us s2 e2 there.
              let team2 = HasTeam-Extends team s1 s2 e2 people in
              >>=-Settles (seed_events upserts team) (book team us) s2 HasShows IsReal
                (seed_events-Settles team s2 team2)
                λ shows s3 e3 rows.
                  let team3 = HasTeam-Extends team s2 s3 e3 team2 in
                  >>=-Settles (seed_bookings upserts team shows) (end us shows) s3 _ IsReal
                    (seed_bookings-Settles team shows s3 team3 rows)
                    λ _ s4 e4 booked. pure-Settles (new_fixture us shows) s4 IsReal (
                      real team us shows s4 (HasTeam-Extends team s3 s4 e4 team3)
                        (Lists-Extends (emails_from 20 1) us s2 s4 (Extends-trans s2 s3 s4 e3 e4)
                          there)
                        (HasShows-Extends shows s3 s4 e4 rows) booked)
