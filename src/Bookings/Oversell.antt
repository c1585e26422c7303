-- ===== src/Bookings/Oversell.antt =====
-- A bound on the confirmed seats of an event, through a whole call of `createBooking`.
use eventify_backend_course.Common.{
  ℕ, zero, suc, ◌+◌, ◌≤◌, ◌≡◌, inl, inr, Option, none, some, List, arith, find, Bool-cases,
  Option-cases, ◌==◌,
}
use native.Mathlib.Decide.{ℕ_discrete}
use eventify_backend_course.Errors.{Thrown, http, failure, Failure, Result, ok, err, Action}
use eventify_backend_course.Store.{Event, Booking, Store}
use eventify_backend_course.Prisma.{Prisma, commit}
use eventify_backend_course.Bookings.Repository.{get_event}
use eventify_backend_course.Bookings.Rows.{IsConsistent, seats}
use eventify_backend_course.Bookings.Capacity.{Answers, book-Answers, book-frame}
use eventify_backend_course.Bookings.Service.{
  Attempt, is_code, is_serialization_failure, settle, book, attempts, max_retries, create_booking,
}

-- `limit` seats at most are confirmed for the event `id`, in a consistent table.
abbrev pub IsWithin : ℕ → ℕ → Store → Type 0
IsWithin id limit s = IsConsistent s.bookings × (seats id s.bookings ≤ limit)

Answers-bound :
    (capacity user_id event_id limit : ℕ) (bs bs' : List Booking) (r : Result Booking)
    → capacity ≤ limit
    → seats event_id bs ≤ limit
    → Answers capacity user_id event_id bs (r, bs')
    → seats event_id bs' ≤ limit
Answers-bound capacity user_id event_id limit bs bs' (err e) fits within a = rw a within
Answers-bound capacity user_id event_id limit bs bs' (ok b) fits within (_, _, _, inl taken) =
    omega arith
Answers-bound capacity user_id event_id limit bs bs' (ok b) fits within (_, _, _, inr full) =
    omega arith

pub book-IsWithin :
    (prisma : Prisma) (event : Event) (now user_id event_id id limit : ℕ) (s : Store)
    → (id ≡ event_id → event.capacity ≤ limit)
    → IsWithin id limit s
    → IsWithin id limit (book prisma event now user_id event_id s).1
book-IsWithin prisma event now user_id event_id id limit s fits (h, within) =
    let (kept, others, _) = book-frame prisma event now user_id event_id s h in
    (
      kept,
      elim (ℕ_discrete id event_id) [
        | yes same ↦ rw same (
            Answers-bound event.capacity user_id event_id limit s.bookings _ _ (fits same)
              (rw (← same) within) (book-Answers prisma event now user_id event_id s h))
        | no other ↦ rw (others id other) within
      ],
    )

-- The `catch` of the loop writes nothing itself.
settle-IsWithin :
    (id limit : ℕ) (r : Result Booking × Store) (rest : Thrown → Action Store Booking)
    → IsWithin id limit r.1
    → ((e : Thrown) → IsWithin id limit (rest e r.1).1)
    → IsWithin id limit (settle r rest).1
settle-IsWithin id limit (ok b, s) rest h k = h
settle-IsWithin id limit (err (http e), s) rest h k = h
settle-IsWithin id limit (err (failure f), s) rest h k =
    elim (Bool-cases (is_code "P2002" f.code)) [
      | inl taken ↦ rw taken h
      | inr other ↦ elim (Bool-cases (is_serialization_failure f)) [
        | inl again ↦ rw (other, again) (k (failure f))
        | inr final ↦ rw (other, final) h
      ]
    ]

commit_keeps :
    {A : Type 0} (P : Store → Type 0) (s : Store) (r : Result A × Store)
    → P s
    → P r.1
    → P (commit s r).1
commit_keeps P s (ok b, t) h k = k
commit_keeps P s (err e, t) h k = h

-- A transaction keeps what its callback keeps, aborted or not.
pub transaction_keeps :
    (prisma : Prisma) (P : Store → Type 0) (abort : Option Failure) (A : Type 0)
    (body : Action Store A) (s : Store)
    → P s
    → P (body s).1
    → P (prisma.transaction abort A body s).1
transaction_keeps prisma P none A body s h k =
    rw (prisma.transaction_commits A body s) (commit_keeps P s (body s) h k)
transaction_keeps prisma P (some f) A body s h k = rw (prisma.transaction_aborts f A body s) h

module _ (prisma : Prisma) (env : ℕ → Attempt) (id limit : ℕ)
    (rely : (k : ℕ) (s : Store) → IsWithin id limit s → IsWithin id limit ((env k).others s)) where
  open prisma use {event_find_lem}

  attempts-IsWithin :
      (event : Event) (user_id event_id left n : ℕ) (e : Thrown) (s : Store)
      → (id ≡ event_id → event.capacity ≤ limit)
      → IsWithin id limit s
      → IsWithin id limit (attempts prisma left env n e event user_id event_id s).1
  unfolding attempts
  attempts-IsWithin event user_id event_id zero n e s fits h = h
  attempts-IsWithin event user_id event_id (suc left) n e s fits h =
      let before = rely n s h in
      let after =
        transaction_keeps prisma (IsWithin id limit) (env n).abort Booking
          (book prisma event (env n).now user_id event_id) ((env n).others s) before
          (book-IsWithin prisma event (env n).now user_id event_id id limit ((env n).others s) fits
            before) in
      let r =
        prisma.transaction (env n).abort Booking (book prisma event (env n).now user_id event_id)
          ((env n).others s) in
      settle-IsWithin id limit r (λ e'. attempts prisma left env (n + 1) e' event user_id event_id)
        after (λ e'. attempts-IsWithin event user_id event_id left (n + 1) e' r.1 fits after)

  -- `createBooking` never oversells: whatever the aborts, and whatever other clients do between its
  -- attempts so long as they keep it so themselves, a bound on the confirmed seats of an event that
  -- is at least its capacity as read at the start is kept, and so are the unique rows.
  pub create_booking-IsWithin :
      (user_id event_id : ℕ) (s : Store)
      → ((event : Event) → find (λ e. e.id == id) s.events ≡ some event → event.capacity ≤ limit)
      → IsWithin id limit s
      → IsWithin id limit (create_booking prisma env user_id event_id s).1
  unfolding create_booking get_event
  create_booking-IsWithin user_id event_id s fits h =
      elim (Option-cases (find (λ e. e.id == event_id) s.events)) [
        | inl unknown ↦ rw (event_find_lem event_id s.events, unknown) h
        | inr (event, known) ↦
            rw (event_find_lem event_id s.events, known)
              (attempts-IsWithin event user_id event_id max_retries 0 _ s
                (λ same. fits event (rw same known)) h)
      ]
