-- ===== src/Jobs/Walk.antt =====
-- The whole run of scripts/waitlist-demo.ts.
use eventify_backend_course.Common.{
  ℕ, ◌≡◌, ◌≢◌, ◌∙◌, refl, Option, none, some, true, arith, find, List, [], ◌∷◌, ◌++◌, ap,
}
use eventify_backend_course.Errors.{Result, ok, >>=_ok}
use eventify_backend_course.Store.{
  Event, Booking, Store, attendee, confirmed, waitlisted, cancelled, with_status,
}
use eventify_backend_course.Prisma.{Prisma}
use eventify_backend_course.Bookings.Rows.{IsConsistent}
use eventify_backend_course.Bookings.Service.{create_booking, cancel_booking}
use eventify_backend_course.Bookings.Policy.{decide}
use eventify_backend_course.Jobs.Demo.{Creates, Run, is_id, bob_is_final, hand_over, show}
use eventify_backend_course.Jobs.Promote.{promote_waitlisted}
use eventify_backend_course.Jobs.Worker.{is_event}
use eventify_backend_course.Jobs.Accepted.{
  Accepts, cancel_confirmed, promote_waitlisted_first, promote_waitlisted_full,
}
use eventify_backend_course.Jobs.Shown.{is_at, unbooked_pair, IsAlone, create_booking_new}
use eventify_backend_course.Jobs.Seats.{
  row_a, row_b, append_two, one_ok, bob_unbooked, no_seats, one_seat, freed, freed_ok, freed_seats,
  taken, taken_seats, own_a, own_b, final_b, first_b,
}

-- Nothing else acts during the run, the server aborts nothing and the queues accept.
abbrev pub IsCalm : Prisma → Run → Type 0
IsCalm prisma run =
    Accepts prisma
    × IsAlone run.alice_env
    × IsAlone run.bob_env
    × (run.first_abort ≡ none)
    × (run.second_abort ≡ none)

is_id_self : (i : ℕ) → is_id (some i) i ≡ true
is_id_self i = ground arith

module _ (prisma : Prisma) (creates : Creates) (run : Run) (calm : IsCalm prisma run)
    (alice bob event_id : ℕ) (s : Store) (event : Event) (rows_ok : IsConsistent s.bookings)
    (unbooked : find (is_at event_id) s.bookings ≡ none) (apart : bob ≢ alice)
    (known : find (is_event event_id) s.events ≡ some event) (small : event.capacity ≡ 1) where
  abbrev a : Booking
  a = row_a prisma run alice bob event_id s.bookings

  abbrev b : Booking
  b = row_b prisma run alice bob event_id s.bookings

  abbrev booked : Store
  booked = record s { bookings = s.bookings ++ a ∷ b ∷ [] }

  abbrev left : Store
  left = record s {
    bookings = s.bookings ++ with_status cancelled a ∷ b ∷ [];
    waitlist_queue = s.waitlist_queue ++ event_id ∷ [];
  }

  abbrev shown : Store
  shown = record left {
    bookings = s.bookings ++ with_status cancelled a ∷ with_status confirmed b ∷ [];
    email_queue = s.email_queue ++ b.id ∷ [];
  }

  alice_books :
      create_booking prisma run.alice_env alice event_id s
      ≡ (ok a, record s { bookings = s.bookings ++ a ∷ [] })
  unfolding decide
  alice_books =
      let none_taken = no_seats prisma run alice bob event_id s.bookings rows_ok unbooked apart in
      create_booking_new prisma run.alice_env calm.1 alice event_id s event confirmed rows_ok known
        (unbooked_pair alice event_id s.bookings unbooked) (rw (none_taken, small) refl)

  bob_books :
      create_booking prisma run.bob_env bob event_id (record s { bookings = s.bookings ++ a ∷ [] })
      ≡ (ok b, booked)
  unfolding decide
  bob_books =
      let answer : List Booking → Result Booking × Store =
        λ bs. (ok b, record s { bookings = bs }) in
      let one_taken = one_seat prisma run alice bob event_id s.bookings rows_ok unbooked apart in
      create_booking_new prisma run.bob_env calm.2 bob event_id
        (record s { bookings = s.bookings ++ a ∷ [] }) event waitlisted
        (one_ok prisma run alice bob event_id s.bookings rows_ok unbooked apart) known
        (bob_unbooked prisma run alice bob event_id s.bookings rows_ok unbooked apart)
        (rw (one_taken, small) refl)
      ∙ ap answer (append_two s.bookings a b)

  alice_cancels :
      cancel_booking prisma a.id (record { sub = alice; role = attendee }) booked
      ≡ (ok (with_status cancelled a), left)
  alice_cancels =
      let gone = freed prisma run alice bob event_id s.bookings rows_ok unbooked apart in
      let answer : List Booking → Result Booking × Store =
        λ bs. (ok (with_status cancelled a), record left { bookings = bs }) in
      cancel_confirmed prisma calm.0 a.id (record { sub = alice; role = attendee }) booked a
        (own_a prisma run alice bob event_id s.bookings rows_ok unbooked apart) (ground arith) refl
      ∙ ap answer gone

  bob_promoted : promote_waitlisted prisma run.first_abort event_id left ≡ (ok (some b.id), shown)
  bob_promoted =
      let room = freed_seats prisma run alice bob event_id s.bookings rows_ok unbooked apart in
      let answer : List Booking → Result (Option ℕ) × Store =
        λ bs. (ok (some b.id), record shown { bookings = bs }) in
      rw calm.3 (
        promote_waitlisted_first prisma calm.0 event_id left event b
          (freed_ok prisma run alice bob event_id s.bookings rows_ok unbooked apart) known
          (omega arith) (first_b prisma run alice bob event_id s.bookings rows_ok unbooked apart)
          (own_b prisma run alice bob event_id s.bookings rows_ok unbooked apart))
      ∙ ap answer (taken prisma run alice bob event_id s.bookings rows_ok unbooked apart)

  nobody_promoted : promote_waitlisted prisma run.second_abort event_id shown ≡ (ok none, shown)
  nobody_promoted =
      let one_taken = taken_seats prisma run alice bob event_id s.bookings rows_ok unbooked apart in
      rw calm.4 (promote_waitlisted_full prisma calm.0 event_id shown event known (omega arith))

  bob_final : bob_is_final prisma creates run b shown ≡ (ok tt, shown)
  unfolding bob_is_final
  bob_final =
      rw
        (creates.booking_or_throw_some b.id shown.bookings (with_status confirmed b)
          (final_b prisma run alice bob event_id s.bookings rows_ok unbooked apart))
        refl

  hand_over_lem : hand_over prisma creates run alice event_id a b booked ≡ (ok tt, shown)
  unfolding hand_over
  hand_over_lem =
      rw (>>=_ok _ _ booked alice_cancels, >>=_ok _ _ left bob_promoted)
        (rw (is_id_self b.id, >>=_ok _ _ shown nobody_promoted) bob_final)

  pub show_lem : show prisma creates run alice bob event_id s ≡ (ok tt, shown)
  unfolding show
  show_lem = rw (>>=_ok _ _ s alice_books, >>=_ok _ _ _ bob_books) hand_over_lem
