-- ===== src/Jobs/Ends.antt =====
-- The demo of scripts/waitlist-demo.ts from its first row to its last check.
use eventify_backend_course.Common.{
  ℕ, ◌≡◌, ◌≢◌, ◌∙◌, refl, none, some, true, false, Bool, arith, find, List, [], ◌∷◌, ◌++◌, All, ap,
  subst, String, str_eq, str_eq_iff, is_char, append, Bool-cases, inl, inr, find-append_none,
  find-append_some,
}
use eventify_backend_course.Errors.{ok, >>=_ok}
use eventify_backend_course.Store.{
  User, Event, Booking, Store, attendee, organizer, confirmed, cancelled, with_status,
}
use eventify_backend_course.Prisma.{Prisma}
use eventify_backend_course.Seed.Upserts.{has_email}
use eventify_backend_course.Bookings.Rows.{IsConsistent}
use eventify_backend_course.Jobs.Demo.{email_of, Creates, Run, user_row, event_row, show, main}
use eventify_backend_course.Jobs.Worker.{is_user, is_event}
use eventify_backend_course.Jobs.Shown.{is_at}
use eventify_backend_course.Jobs.Seats.{row_a, row_b}
use eventify_backend_course.Jobs.Walk.{IsCalm, show_lem}

-- Each booking is for an event that is there.
abbrev pub HasEvent : List Event → Booking → Type 0
HasEvent es b = (e : Event) × (find (is_event b.event_id) es ≡ some e)

-- So no booking is for an id that no event has.
unknown_unbooked :
    (es : List Event) (event_id : ℕ) (bs : List Booking)
    → All (HasEvent es) bs
    → find (is_event event_id) es ≡ none
    → find (is_at event_id) bs ≡ none
unknown_unbooked es event_id [] h unknown = refl
unknown_unbooked es event_id (b ∷ bs) ((e, there), h) unknown =
    let rest = unknown_unbooked es event_id bs h unknown in
    elim (Bool-cases (is_at event_id b)) [
      | inr other ↦ rw other rest
      | inl same ↦
          let one : b.event_id ≡ event_id = ground arith in
          let both = ap (λ i. find (is_event i) es) one in ground arith
    ]

-- Nobody has one of the three addresses.
abbrev pub AreNew : Run → List User → Type 0
AreNew run us =
    (find (has_email (email_of "organizer-" run)) us ≡ none)
    × (find (has_email (email_of "alice-" run)) us ≡ none)
    × (find (has_email (email_of "bob-" run)) us ≡ none)

abbrev first_is : ℕ → String → Bool
first_is n String.[] = false
first_is n (String.◌∷◌ c s) = is_char n c

-- Texts with different first characters differ.
str_eq-first :
    (n : ℕ) (s t : String) → first_is n s ≡ true → first_is n t ≡ false → str_eq s t ≡ false
str_eq-first n s t h f = elim (Bool-cases (str_eq s t)) [
  | inr other ↦ other
  | inl same ↦
      let one : s ≡ t = (str_eq_iff s t).0 same in let both = ap (first_is n) one in ground arith
]

module _ (run : Run) where
  host-alice : str_eq (email_of "organizer-" run) (email_of "alice-" run) ≡ false
  unfolding email_of append
  host-alice = str_eq-first 111 _ _ refl refl

  host-bob : str_eq (email_of "organizer-" run) (email_of "bob-" run) ≡ false
  unfolding email_of append
  host-bob = str_eq-first 111 _ _ refl refl

  alice-bob : str_eq (email_of "alice-" run) (email_of "bob-" run) ≡ false
  unfolding email_of append
  alice-bob = str_eq-first 97 _ _ refl refl

find_email-append :
    (email : String) (us : List User) (u : User)
    → find (has_email email) us ≡ none
    → str_eq u.email email ≡ false
    → find (has_email email) (us ++ u ∷ []) ≡ none
find_email-append email us u h e = find-append_none (has_email email) us (u ∷ []) h ∙ rw e refl

find_user_new :
    (us : List User) (u : User)
    → find (is_user u.id) us ≡ none
    → find (is_user u.id) (us ++ u ∷ []) ≡ some u
find_user_new us u h = find-append_none (is_user u.id) us (u ∷ []) h ∙ ground arith

find_event_new :
    (es : List Event) (e : Event)
    → find (is_event e.id) es ≡ none
    → find (is_event e.id) (es ++ e ∷ []) ≡ some e
find_event_new es e h = find-append_none (is_event e.id) es (e ∷ []) h ∙ ground arith

-- Two users created one after the other have different ids.
user_ids-apart :
    (us : List User) (u v : User)
    → find (is_user u.id) us ≡ none
    → find (is_user v.id) (us ++ u ∷ []) ≡ none
    → v.id ≢ u.id
user_ids-apart us u v fresh next same =
    let there = find_user_new us u fresh in
    let gone = subst (λ i. find (is_user i) (us ++ u ∷ []) ≡ none) same next in ground arith

-- What a run leaves: Alice, Bob and an event with one seat, her booking of it cancelled and his
-- confirmed, after those that were there, and one job and one email.
abbrev pub EndsWell : Prisma → Run → Store → User → User → Event → Store → Type 0
EndsWell prisma run s alice bob event s' =
    let a = row_a prisma run alice.id bob.id event.id s.bookings in
    let b = row_b prisma run alice.id bob.id event.id s.bookings in
    (find (has_email (email_of "alice-" run)) s'.users ≡ some alice)
    × (find (has_email (email_of "bob-" run)) s'.users ≡ some bob)
    × (find (is_event event.id) s'.events ≡ some event)
    × (event.capacity ≡ 1)
    × (s'.bookings ≡ s.bookings ++ with_status cancelled a ∷ with_status confirmed b ∷ [])
    × (s'.waitlist_queue ≡ s.waitlist_queue ++ event.id ∷ [])
    × (s'.email_queue ≡ s.email_queue ++ b.id ∷ [])

module _ (creates : Creates) (run : Run) (s : Store) where
  abbrev host : User
  host = user_row (email_of "organizer-" run) "Organizer" organizer (creates.user_id s)

  abbrev s1 : Store
  s1 = record s { users = s.users ++ host ∷ [] }

  abbrev alice : User
  alice = user_row (email_of "alice-" run) "Alice" attendee (creates.user_id s1)

  abbrev s2 : Store
  s2 = record s1 { users = s1.users ++ alice ∷ [] }

  abbrev bob : User
  bob = user_row (email_of "bob-" run) "Bob" attendee (creates.user_id s2)

  abbrev s3 : Store
  s3 = record s2 { users = s2.users ++ bob ∷ [] }

  abbrev event : Event
  event = event_row run host.id (creates.event_id s3)

  abbrev s4 : Store
  s4 = record s3 { events = s3.events ++ event ∷ [] }

  hosted : find (is_user host.id) s3.users ≡ some host
  hosted = find-append_some (is_user host.id) s2.users (bob ∷ []) host (
      find-append_some (is_user host.id) s1.users (alice ∷ []) host
        (find_user_new s.users host (creates.user_id_lem s)))

  module _ (new : AreNew run s.users) where
    new_bob : find (has_email (email_of "bob-" run)) s2.users ≡ none
    new_bob =
        find_email-append (email_of "bob-" run) s1.users alice
          (find_email-append (email_of "bob-" run) s.users host new.2 (host-bob run))
          (alice-bob run)

    found_alice : find (has_email (email_of "alice-" run)) s3.users ≡ some alice
    found_alice = find-append_some (has_email (email_of "alice-" run)) s2.users (bob ∷ []) alice (
        find-append_none (has_email (email_of "alice-" run)) s1.users (alice ∷ [])
          (find_email-append (email_of "alice-" run) s.users host new.1 (host-alice run))
        ∙ rw ((str_eq_iff (email_of "alice-" run) (email_of "alice-" run)).1 refl) refl)

    found_bob : find (has_email (email_of "bob-" run)) s3.users ≡ some bob
    found_bob =
        find-append_none (has_email (email_of "bob-" run)) s2.users (bob ∷ []) new_bob
        ∙ rw ((str_eq_iff (email_of "bob-" run) (email_of "bob-" run)).1 refl) refl

    -- Step 1 makes the three users and the event.
    set_up :
        (prisma : Prisma)
        → main prisma creates run s ≡ show prisma creates run alice.id bob.id event.id s4
    unfolding main
    set_up prisma =
        let there = hosted in
        let new_alice =
          find_email-append (email_of "alice-" run) s.users host new.1 (host-alice run) in
        rw
          (
            >>=_ok _ _ s (
                creates.user_create_new (email_of "organizer-" run)
                  (user_row (email_of "organizer-" run) "Organizer" organizer) s new.0),
            >>=_ok _ _ s1 (
                creates.user_create_new (email_of "alice-" run)
                  (user_row (email_of "alice-" run) "Alice" attendee) s1 new_alice),
            >>=_ok _ _ s2 (
                creates.user_create_new (email_of "bob-" run)
                  (user_row (email_of "bob-" run) "Bob" attendee) s2 new_bob),
            >>=_ok _ _ s3 (
                creates.event_create_new host.id (event_row run host.id) s3 (λ gone. ground arith)),
          )
          refl

-- The demo of the waiting list, on any consistent store whose bookings are for events that are
-- there, with three addresses that are new, where nothing else acts, the server aborts nothing and
-- the queues accept: every assertion holds. Alice is confirmed for the one seat, Bob waits, her
-- cancellation and the promotion that follows confirm him, and a second promotion does nothing. The
-- run adds those two bookings, hers cancelled and his confirmed, one job for the event and one
-- email for his booking.
pub main-EndsWell :
    (prisma : Prisma) (creates : Creates) (run : Run) (s : Store)
    → IsCalm prisma run
    → AreNew run s.users
    → IsConsistent s.bookings
    → All (HasEvent s.events) s.bookings
    → (alice : User) × (bob : User) × (event : Event) × let (r, s') = main prisma creates run s in
        (r ≡ ok tt) × EndsWell prisma run s alice bob event s'
main-EndsWell prisma creates run s calm new rows_ok known =
    let t = s4 creates run s in
    let unknown = creates.event_id_lem (s3 creates run s) in
    let apart =
      user_ids-apart (s1 creates run s).users (alice creates run s) (bob creates run s)
        (creates.user_id_lem (s1 creates run s)) (creates.user_id_lem (s2 creates run s)) in
    let e = event creates run s in
    (
      alice creates run s,
      bob creates run s,
      e,
      rw
          (
            set_up creates run s new prisma,
            show_lem prisma creates run calm (alice creates run s).id (bob creates run s).id e.id t
                e rows_ok (unknown_unbooked s.events e.id s.bookings known unknown) apart
                (find_event_new s.events e unknown) refl,
          )
          (
            refl,
            (
              found_alice creates run s new,
              found_bob creates run s new,
              find_event_new s.events e unknown,
              refl,
              refl,
              refl,
              refl,
            ),
          ),
    )
