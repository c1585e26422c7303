-- ===== src/System.antt =====
-- Every client and the worker on one store: the steps of the calls in src/bookings/service.ts and
-- src/jobs/promote.ts in any order, each with whatever it read before. A serializable transaction
-- is one step.
use eventify_backend_course.Bookings.Capacity.{book-frame}
use eventify_backend_course.Common.{
  ℕ, ◌+◌, ◌≤◌, ◌≡◌, Option, none, some, List, arith, find, change, inl, inr, ◌==◌, Option-cases,
}
use eventify_backend_course.Errors.{Failure, err, ok, Result, Action, pure, ◌>>=◌}
use eventify_backend_course.Store.{
  Event, Booking, BookingStatus, Store, confirmed, cancelled, has_id, with_status,
}
use eventify_backend_course.Prisma.{Prisma}
use eventify_backend_course.Bookings.Rows.{seats, change-IsConsistent, seats-change}
use eventify_backend_course.Bookings.Repository.{cancel}
use eventify_backend_course.Bookings.Oversell.{IsWithin, book-IsWithin, transaction_keeps}
use eventify_backend_course.Bookings.Service.{book, finish_cancel, request_promotion}
use eventify_backend_course.Bookings.Cancel.{request_promotion_lem}
use eventify_backend_course.Jobs.Promote.{promote_waitlisted}
use eventify_backend_course.Jobs.Outcome.{MayEmail, Promotes, promote_waitlisted-Promotes}

-- The event `id`, if it is there, has at most `limit` seats.
abbrev pub IsCapped : ℕ → ℕ → List Event → Type 0
IsCapped id limit es =
    (event : Event) → find (λ e. e.id == id) es ≡ some event → event.capacity ≤ limit

module _ (prisma : Prisma) (id limit : ℕ) where
  open prisma use {booking_update_none, booking_update_some}

  -- An attempt of a booking with the event as it was read at some time, the end of a cancellation
  -- with the booking as it was read at some time, a promotion, a change of the events under which
  -- `id` keeps at most `limit` seats, and a worker that takes jobs off the queues.
  pub data Step : Store → Store → Type 0 where
    books :
        (s : Store) (abort : Option Failure) (event : Event) (now user_id event_id : ℕ)
        → (id ≡ event_id → event.capacity ≤ limit)
        → Step s (prisma.transaction abort Booking (book prisma event now user_id event_id) s).1
    cancels :
        (s : Store) (read : Booking) (booking_id : ℕ)
        → Step s (finish_cancel prisma read booking_id s).1
    promotes :
        (s : Store) (abort : Option Failure) (event_id : ℕ)
        → Step s (promote_waitlisted prisma abort event_id s).1
    edits : (s : Store) (es : List Event) → IsCapped id limit es → Step s (record s { events = es })
    takes :
        (s : Store) (jobs mails : List ℕ)
        → Step s (record s { waitlist_queue = jobs; email_queue = mails })

  pub data Reach (s : Store) : Store → Type 0 where
    here : Reach s s
    next : {t u : Store} → Reach s t → Step t u → Reach s u

  -- What the steps keep.
  abbrev pub IsSafe : Store → Type 0
  IsSafe s = IsWithin id limit s × IsCapped id limit s.events

  change-IsSafe :
      (s : Store) (j : ℕ) (status : BookingStatus) (b : Booking)
      → find (has_id j) s.bookings ≡ some b
      → (b.event_id ≡ id → status ≡ confirmed → seats id s.bookings + 1 ≤ limit)
      → IsSafe s
      → IsSafe (record s { bookings = change (has_id j) (with_status status) s.bookings })
  change-IsSafe s j status b own room ((rows, within), capped) = (
    (
      change-IsConsistent j status s.bookings rows,
      ground (arith, room, seats-change id j status s.bookings b own),
    ),
    capped,
  )

  cancel-IsSafe : (s : Store) (j : ℕ) → IsSafe s → IsSafe (cancel prisma j s).1
  unfolding cancel
  cancel-IsSafe s j h = elim (Option-cases (find (has_id j) s.bookings)) [
    | inl missing ↦ rw (booking_update_none j cancelled s.bookings missing) h
    | inr (b, own) ↦
        rw (booking_update_some j cancelled s.bookings b own)
          (change-IsSafe s j cancelled b own (λ _ e. cc) h)
  ]

  bind_keeps :
      {A B : Type 0} (P : Store → Type 0) (m : Action Store A) (f : A → Action Store B) (s : Store)
      → P (m s).1
      → ((a : A) (t : Store) → P t → P (f a t).1)
      → P ((m >>= f) s).1
  bind_keeps {A} {B} P m f s h k = go (m s) h
    where
      go : (r : Result A × Store) → P r.1 → P (((λ (_ : Store). r) >>= f) s).1
      go (ok a, t) q = k a t q
      go (err e, t) q = q

  finish_cancel-IsSafe :
      (s : Store) (read : Booking) (booking_id : ℕ)
      → IsSafe s
      → IsSafe (finish_cancel prisma read booking_id s).1
  unfolding finish_cancel
  finish_cancel-IsSafe s read booking_id h =
      bind_keeps IsSafe (cancel prisma booking_id)
        (λ b t. (request_promotion prisma read >>= λ _. pure b) t) s (cancel-IsSafe s booking_id h)
        (λ b t k.
          bind_keeps IsSafe (request_promotion prisma read) (λ _. pure b) t
            (let (jobs, asked, _) = request_promotion_lem prisma read t in rw asked k) (λ _ _ q. q))

  promoted-IsSafe :
      (s : Store) (abort : Option Failure) (event_id : ℕ)
      → IsSafe s
      → IsSafe (promote_waitlisted prisma abort event_id s).1
  promoted-IsSafe s abort event_id h =
      go _ (promote_waitlisted-Promotes prisma event_id s h.0.0 abort)
    where
      go : (r : Result (Option ℕ) × Store) → Promotes MayEmail event_id s r → IsSafe r.1
      go (err e, t) p = rw p h
      go (ok none, t) p = rw p.0 h
      go (ok (some j), t) (event, b, known, own, same, waits, _, room, rows, taken, events, _) =
          let (kept, capped) =
            change-IsSafe s j confirmed b own
              (λ here _.
                let e : id ≡ event_id = ground (arith, waits) in
                rw e (omega (arith, room, h.1 event (rw e known))))
              h in
          (rw rows kept, rw events capped)

  -- One step keeps the bound, the unique rows and the cap.
  pub Step-IsSafe : {s t : Store} → Step s t → IsSafe s → IsSafe t
  Step-IsSafe (books s abort event now user_id event_id fits) h =
      transaction_keeps prisma IsSafe abort Booking (book prisma event now user_id event_id) s h (
        book-IsWithin prisma event now user_id event_id id limit s fits h.0,
        let (_, _, frame) = book-frame prisma event now user_id event_id s h.0.0 in rw frame h.1,
      )
  Step-IsSafe (cancels s read booking_id) h = finish_cancel-IsSafe s read booking_id h
  Step-IsSafe (promotes s abort event_id) h = promoted-IsSafe s abort event_id h
  Step-IsSafe (edits s es capped) h = (h.0, capped)
  Step-IsSafe (takes s jobs mails) h = h

  -- No interleaving oversells: if an event never has more than `limit` seats, then whatever
  -- bookings, cancellations, promotions and edits of events happen, in any order, aborted or not,
  -- and however old the event or booking is that a call goes by, at most `limit` of its bookings
  -- are confirmed at any time, and ids stay unique and each user has one booking for an event.
  pub Reach-IsSafe : {s t : Store} → IsSafe s → Reach s t → IsSafe t
  Reach-IsSafe h here = h
  Reach-IsSafe h (next r st) = Step-IsSafe st (Reach-IsSafe h r)
