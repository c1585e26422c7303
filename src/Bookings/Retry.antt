-- ===== src/Bookings/Retry.antt =====
-- The retry loop of `createBooking`: which attempt answers, what happens when all fail, and what
-- the loop keeps while other clients act between its attempts.
use eventify_backend_course.Bookings.Repository.{get_event}
use eventify_backend_course.Bookings.Capacity.{Answers, book-Answers}
use eventify_backend_course.Common.{
  ℕ, zero, suc, ◌+◌, ◌<◌, ◌≡◌, ◌≢◌, refl, ap, ◌∙◌, none, some, arith, true, false, find, ◌==◌,
}
use eventify_backend_course.Errors.{
  Thrown, http, failure, Failure, Result, ok, err, Action, http_error,
}
use eventify_backend_course.Store.{Event, Booking, Store}
use eventify_backend_course.Prisma.{Prisma, atomically, commit}
use eventify_backend_course.Bookings.Rows.{IsConsistent}
use eventify_backend_course.Bookings.Policy.{decide, perform, book-perform}
use eventify_backend_course.Bookings.Service.{
  Attempt, is_code, is_serialization_failure, on_error, settle, book, attempts, create_booking,
}

-- An error after which the loop tries again.
abbrev pub IsTransient : Failure → Type 0
IsTransient f = (is_code "P2002" f.code ≡ false) × (is_serialization_failure f ≡ true)

-- From attempt `n` on, `m` attempts are aborted by a serialization failure and the next is not.
abbrev pub AbortsUntil : ℕ → (ℕ → Attempt) → ℕ → Type 0
AbortsUntil zero env n = (env n).abort ≡ none
AbortsUntil (suc m) env n =
    ((f : Failure) × ((env n).abort ≡ some f) × IsTransient f) × AbortsUntil m env (n + 1)

-- The store that the attempt after `m` more finds, and its time.
abbrev pub seen : ℕ → (ℕ → Attempt) → ℕ → Store → Store
seen zero env n s = (env n).others s
seen (suc m) env n s = seen m env (n + 1) ((env n).others s)

abbrev pub time_of : ℕ → (ℕ → Attempt) → ℕ → ℕ
time_of zero env n = (env n).now
time_of (suc m) env n = time_of m env (n + 1)

-- The callback throws nothing that the loop would catch and retry.
pub book-http :
    (prisma : Prisma) (event : Event) (now user_id event_id : ℕ) (s : Store) (f : Failure)
    → IsConsistent s.bookings
    → (book prisma event now user_id event_id s).0 ≢ err (failure f)
unfolding decide perform
book-http prisma event now user_id event_id s f h =
    rw (book-perform prisma event now user_id event_id s h) (λ e. ground arith)

sum_suc : (n m : ℕ) → n + 1 + m ≡ n + suc m
sum_suc n m = omega arith

settle_http :
    (r : Result Booking × Store) (s : Store) (rest : Thrown → Action Store Booking)
    → ((f : Failure) → r.0 ≢ err (failure f))
    → settle (commit s r) rest ≡ commit s r
settle_http (ok b, t) s rest h = refl
settle_http (err (http e), t) s rest h = refl
settle_http (err (failure f), t) s rest h = absurd (h f refl)

module _ (prisma : Prisma) (env : ℕ → Attempt) (event : Event) (user_id event_id : ℕ) where
  open prisma use {transaction_commits, transaction_aborts}

  attempts-abort :
      (left n : ℕ) (e : Thrown) (s : Store) (f : Failure)
      → (env n).abort ≡ some f
      → attempts prisma (suc left) env n e event user_id event_id s
        ≡ on_error
            (failure f)
            (attempts prisma left env (n + 1) (failure f) event user_id event_id)
            ((env n).others s)
  unfolding attempts
  attempts-abort left n e s f a =
      rw
        (
          a,
          transaction_aborts f Booking (book prisma event (env n).now user_id event_id)
              ((env n).others s),
        )
        refl

  attempts-commit :
      (left n : ℕ) (e : Thrown) (s : Store)
      → (env n).abort ≡ none
      → IsConsistent ((env n).others s).bookings
      → attempts prisma (suc left) env n e event user_id event_id s
        ≡ atomically (book prisma event (env n).now user_id event_id) ((env n).others s)
  unfolding attempts
  attempts-commit left n e s a h =
      rw
        (
          a,
          transaction_commits Booking (book prisma event (env n).now user_id event_id)
              ((env n).others s),
        )
        (settle_http (book prisma event (env n).now user_id event_id ((env n).others s))
          ((env n).others s) _
          (λ f. book-http prisma event (env n).now user_id event_id ((env n).others s) f h))

  -- After `m` aborts by serialization failures, fewer than the attempts left, the first attempt
  -- that is not aborted answers: the call is that one transaction, on the store that it finds.
  pub attempts-until :
      (left m n : ℕ) (e : Thrown) (s : Store)
      → m < left
      → AbortsUntil m env n
      → IsConsistent (seen m env n s).bookings
      → attempts prisma left env n e event user_id event_id s
        ≡ atomically (book prisma event (time_of m env n) user_id event_id) (seen m env n s)
  attempts-until zero m n e s lt a h = elim lt [ ]
  attempts-until (suc left) zero n e s lt a h = attempts-commit left n e s a h
  attempts-until (suc left) (suc m) n e s lt ((f, is_f, (p, q)), a) h =
      attempts-abort left n e s f is_f
      ∙ (rw (p, q) (attempts-until left m (n + 1) (failure f) ((env n).others s) (omega arith) a h))

  attempts_none :
      (n : ℕ) (e : Thrown) (s : Store)
      → attempts prisma 0 env n e event user_id event_id s ≡ (err e, s)
  unfolding attempts
  attempts_none n e s = refl

  -- If every attempt left is aborted, the last abort is thrown.
  pub attempts-exhausted :
      (left n : ℕ) (e : Thrown) (s : Store) (f : ℕ → Failure)
      → ((k : ℕ) → (env k).abort ≡ some (f k))
      → ((k : ℕ) → IsTransient (f k))
      → (attempts prisma (suc left) env n e event user_id event_id s).0
        ≡ err (failure (f (n + left)))
  attempts-exhausted zero n e s f a t =
      rw (attempts-abort zero n e s (f n) (a n), (t n).0, (t n).1)
        (rw (attempts_none (n + 1) (failure (f n)) ((env n).others s)) (at n (n + 0) (omega arith)))
    where
      at : (i j : ℕ) → i ≡ j → ◌≡◌ {A = Result Booking} (err (failure (f i))) (err (failure (f j)))
      at i j p = ap (λ k. err (failure (f k))) p
  attempts-exhausted (suc left) n e s f a t =
      rw (attempts-abort (suc left) n e s (f n) (a n), (t n).0, (t n).1)
        (rw (attempts-exhausted left (n + 1) (failure (f n)) ((env n).others s) f a t)
          (ap (λ k. err (failure (f k))) (sum_suc n left)))

commit-Answers :
    (capacity user_id event_id : ℕ) (s : Store) (r : Result Booking × Store)
    → Answers capacity user_id event_id s.bookings (r.0, r.1.bookings)
    → let (a, t) = commit s r in Answers capacity user_id event_id s.bookings (a, t.bookings)
commit-Answers capacity user_id event_id s (ok b, t) h = h
commit-Answers capacity user_id event_id s (err e, t) h = refl

module _ (prisma : Prisma) (env : ℕ → Attempt) (user_id event_id : ℕ) (s : Store) (event : Event)
    (known : find (λ e. e.id == event_id) s.events ≡ some event) where
  pub create_booking_lem :
      create_booking prisma env user_id event_id s
      ≡ attempts prisma 8 env 0
          (http_error 500 "Booking failed after retries")
          event
          user_id
          event_id
          s
  unfolding create_booking get_event
  create_booking_lem = rw (prisma.event_find_lem event_id s.events, known) refl

  -- `createBooking` for an event that is there. If fewer than eight attempts are aborted by
  -- serialization failures before one that is not, that one decides, on the table that it finds: a
  -- refusal leaves those rows as they were; an answer is the user's own row for the event, it
  -- stands in the table afterwards, and either it is confirmed, a seat was free and one more is
  -- taken, or it is waitlisted, the event was full and the seats are as before.
  pub create_booking-Answers :
      (m : ℕ)
      → m < 8
      → AbortsUntil m env 0
      → let t = seen m env 0 s in
        IsConsistent t.bookings
        → let (r, s') = create_booking prisma env user_id event_id s in
          Answers event.capacity user_id event_id t.bookings (r, s'.bookings)
  create_booking-Answers m lt aborts h =
      rw
        (
          create_booking_lem,
          attempts-until prisma env event user_id event_id 8 m 0
              (http_error 500 "Booking failed after retries") s lt aborts h,
        )
        (commit-Answers event.capacity user_id event_id (seen m env 0 s)
          (book prisma event (time_of m env 0) user_id event_id (seen m env 0 s))
          (book-Answers prisma event (time_of m env 0) user_id event_id (seen m env 0 s) h))

  -- `createBooking` for an event that is there, when the server aborts every attempt by a
  -- serialization failure: it ends, and throws the failure of the eighth attempt as it is, which is
  -- no `HttpError`.
  pub create_booking-exhausted :
      (f : ℕ → Failure)
      → ((k : ℕ) → (env k).abort ≡ some (f k))
      → ((k : ℕ) → IsTransient (f k))
      → (create_booking prisma env user_id event_id s).0 ≡ err (failure (f 7))
  create_booking-exhausted f aborts transient = rw create_booking_lem (
      attempts-exhausted prisma env event user_id event_id 7 0
        (http_error 500 "Booking failed after retries") s f aborts transient)
