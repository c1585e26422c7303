-- ===== src/Bookings/Draft.antt =====
-- How the older `createBooking` (Skeleton) compares with the one of the service.
use eventify_backend_course.Common.{
  ℕ, zero, suc, ◌+◌, ◌<◌, ◌≡◌, refl, ◌∙◌, none, some, true, arith, find, ◌==◌, ltb, leb,
  if◌then◌else◌, Bool-cases, inl, inr, ◌≢◌,
}
use eventify_backend_course.Errors.{
  Thrown, http, failure, Failure, Result, ok, err, Action, http_error,
}
use eventify_backend_course.Store.{Event, Booking, Store, confirmed}
use eventify_backend_course.Prisma.{Prisma, atomically, commit}
use eventify_backend_course.Bookings.Repository.{count_confirmed, find_by_user_event, get_event}
use eventify_backend_course.Bookings.Rows.{seats, IsConsistent}
use eventify_backend_course.Bookings.Retry.{seen, time_of, book-http}
use eventify_backend_course.Bookings.Policy.{is_full}
use eventify_backend_course.Bookings.Service as Service
use eventify_backend_course.Bookings.Service.{Attempt, is_code}
use eventify_backend_course.Bookings.Skeleton.{at_capacity, settle, book, attempts, create_booking}

-- The callback: a full event is refused, and otherwise it is that of the service.
book-agrees :
    (prisma : Prisma) (event : Event) (now user_id event_id : ℕ) (s : Store)
    → book prisma event now user_id event_id s ≡ (
        if is_full event event_id s.bookings
        then (err at_capacity, s)
        else Service.book prisma event now user_id event_id s)
unfolding book Service.book count_confirmed find_by_user_event
book-agrees prisma event now user_id event_id s =
    elim (Bool-cases (leb event.capacity (seats event_id s.bookings))) [
      | inl full ↦ rw (prisma.booking_count_lem event_id confirmed s.bookings, full) refl
      | inr free ↦ rw (prisma.booking_count_lem event_id confirmed s.bookings, free) refl
    ]

-- From attempt `n` on, `m` attempts are aborted by a write conflict and the next is not.
abbrev pub ConflictsUntil : ℕ → (ℕ → Attempt) → ℕ → Type 0
ConflictsUntil zero env n = (env n).abort ≡ none
ConflictsUntil (suc m) env n =
    ((f : Failure) × ((env n).abort ≡ some f) × (is_code "P2034" f.code ≡ true))
    × ConflictsUntil m env (n + 1)

module _ (prisma : Prisma) (event : Event) (user_id event_id : ℕ) where
  -- The answer on the store that an attempt finds: a full event is refused, and otherwise the
  -- callback of the service decides.
  abbrev pub drafted : ℕ → Store → Result Booking × Store
  drafted now t =
      if is_full event event_id t.bookings
      then (err at_capacity, t)
      else atomically (Service.book prisma event now user_id event_id) t

  settle_http :
      (n : ℕ) (r : Result Booking × Store) (s : Store) (rest : Thrown → Action Store Booking)
      → ((f : Failure) → r.0 ≢ err (failure f))
      → settle n (commit s r) rest ≡ commit s r
  settle_http n (ok b, t) s rest h = refl
  settle_http n (err (http e), t) s rest h = refl
  settle_http n (err (failure f), t) s rest h = absurd (h f refl)

  settle-drafted :
      (n now : ℕ) (s : Store) (rest : Thrown → Action Store Booking)
      → IsConsistent s.bookings
      → settle n (atomically (book prisma event now user_id event_id) s) rest ≡ drafted now s
  settle-drafted n now s rest h = elim (Bool-cases (is_full event event_id s.bookings)) [
    | inl full ↦ rw (book-agrees prisma event now user_id event_id s, full) refl
    | inr free ↦
        rw (book-agrees prisma event now user_id event_id s, free)
          (settle_http n (Service.book prisma event now user_id event_id s) s rest
            (λ f. book-http prisma event now user_id event_id s f h))
  ]

  module _ (env : ℕ → Attempt) where
    attempts-commit :
        (left n : ℕ) (e : Thrown) (s : Store)
        → (env n).abort ≡ none
        → IsConsistent ((env n).others s).bookings
        → attempts prisma (suc left) env n e event user_id event_id s
          ≡ drafted (env n).now ((env n).others s)
    unfolding attempts
    attempts-commit left n e s a h =
        rw
          (
            a,
            prisma.transaction_commits Booking (book prisma event (env n).now user_id event_id)
                ((env n).others s),
          )
          (settle-drafted n (env n).now ((env n).others s) _ h)

    attempts-conflict :
        (left n : ℕ) (e : Thrown) (s : Store) (f : Failure)
        → (env n).abort ≡ some f
        → is_code "P2034" f.code ≡ true
        → ltb n 3 ≡ true
        → attempts prisma (suc left) env n e event user_id event_id s
          ≡ attempts prisma left env (n + 1) (failure f) event user_id event_id ((env n).others s)
    unfolding attempts
    attempts-conflict left n e s f a c lt =
        rw
          (
            a,
            prisma.transaction_aborts f Booking (book prisma event (env n).now user_id event_id)
                ((env n).others s),
            c,
            lt,
          )
          refl

    attempts-until :
        (left m n : ℕ) (e : Thrown) (s : Store)
        → m < left
        → n + left ≡ 4
        → ConflictsUntil m env n
        → IsConsistent (seen m env n s).bookings
        → attempts prisma left env n e event user_id event_id s
          ≡ drafted (time_of m env n) (seen m env n s)
    attempts-until zero m n e s lt sum a h = elim lt [ ]
    attempts-until (suc left) zero n e s lt sum a h = attempts-commit left n e s a h
    attempts-until (suc left) (suc m) n e s lt sum ((f, is_f, c), a) h =
        let early : ltb n 3 ≡ true = ground arith in
        attempts-conflict left n e s f is_f c early
        ∙ attempts-until left m (n + 1) (failure f) ((env n).others s) (omega arith) (omega arith) a
            h

    -- The older `createBooking`, for an event that is there, when fewer than three attempts are
    -- aborted by write conflicts before one that is not: on the store that this one finds, a full
    -- event is refused and nothing is written, and otherwise the answer and the store afterwards
    -- are those of the service's transaction.
    pub draft-agrees :
        (m : ℕ) (s : Store)
        → find (λ e. e.id == event_id) s.events ≡ some event
        → m < 3
        → ConflictsUntil m env 1
        → IsConsistent (seen m env 1 s).bookings
        → create_booking prisma env user_id event_id s ≡ drafted (time_of m env 1) (seen m env 1 s)
    unfolding create_booking get_event
    draft-agrees m s known lt a h =
        rw (prisma.event_find_lem event_id s.events, known)
          (attempts-until 3 m 1 (http_error 500 "Booking failed after retries") s lt refl a h)
