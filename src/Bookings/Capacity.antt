-- ===== src/Bookings/Capacity.antt =====
-- What a booking transaction does to the seats of an event, and what its answer means.
use eventify_backend_course.Common.{
  ℕ, ◌+◌, ◌≤◌, ◌<◌, ◌≡◌, ◌≢◌, ◌⊎◌, inl, inr, refl, none, some, List, arith, find, find_passes,
  Option-cases,
}
use eventify_backend_course.Errors.{Result, ok, err}
use eventify_backend_course.Store.{Event, Booking, confirmed, waitlisted, Store, has_id, is_of}
use eventify_backend_course.Prisma.{Prisma, new_booking}
use eventify_backend_course.Bookings.Rows.{
  IsConsistent, seats, append-IsConsistent, change-IsConsistent, seats-append, seats-change,
  find_id-append, find_id-change_self, find_by_id,
}
use eventify_backend_course.Bookings.Policy.{decide, perform, is_full, book-perform}
use eventify_backend_course.Bookings.Service.{book}

-- The outcome of a request of `user_id` for `event_id` at rows `bs`: a refusal leaves them as they
-- are; an answer is the user's row for the event, it is in the table, and it is confirmed exactly
-- where a seat was free, which is then taken.
abbrev pub Answers :
    (capacity user_id event_id : ℕ) → List Booking → Result Booking × List Booking → Type 0
Answers capacity user_id event_id bs (err e, bs') = bs' ≡ bs
Answers capacity user_id event_id bs (ok b, bs') =
    (find (has_id b.id) bs' ≡ some b)
    × (b.user_id ≡ user_id)
    × (b.event_id ≡ event_id)
    × (((b.status ≡ confirmed)
          × (seats event_id bs < capacity)
          × (seats event_id bs' ≡ seats event_id bs + 1))
        ⊎ ((b.status ≡ waitlisted)
            × (capacity ≤ seats event_id bs)
            × (seats event_id bs' ≡ seats event_id bs)))

module _ (new_id : List Booking → ℕ)
    (fresh : (bs : List Booking) → find (has_id (new_id bs)) bs ≡ none) (event : Event)
    (now user_id event_id : ℕ) (bs : List Booking) (h : IsConsistent bs) where
  insert-Answers :
      find (is_of user_id event_id) bs ≡ none
      → Answers event.capacity user_id event_id bs
          (perform new_id (decide (is_full event event_id bs) none) now user_id event_id bs)
  unfolding perform decide
  insert-Answers e =
      let w = new_booking (new_id bs) now user_id event_id waitlisted in
      let c = new_booking (new_id bs) now user_id event_id confirmed in
      ground (
        arith,
        find_id-append bs w (fresh bs),
        find_id-append bs c (fresh bs),
        seats-append event_id bs w,
        seats-append event_id bs c,
      )

  flip-Answers :
      (b : Booking)
      → find (is_of user_id event_id) bs ≡ some b
      → Answers event.capacity user_id event_id bs
          (perform new_id (decide (is_full event event_id bs) (some b)) now user_id event_id bs)
  unfolding perform decide
  flip-Answers b e =
      let own = find_by_id (is_of user_id event_id) bs b h e in
      ground (
        arith,
        find_passes (is_of user_id event_id) bs b e,
        own,
        find_id-change_self b.id waitlisted bs b own,
        find_id-change_self b.id confirmed bs b own,
        seats-change event_id b.id waitlisted bs b own,
        seats-change event_id b.id confirmed bs b own,
      )

  perform-Answers : Answers event.capacity user_id event_id bs (
      perform new_id
        (decide (is_full event event_id bs) (find (is_of user_id event_id) bs))
        now
        user_id
        event_id
        bs)
  perform-Answers = elim (Option-cases (find (is_of user_id event_id) bs)) [
    | inl e ↦ rw e (insert-Answers e)
    | inr (b, e) ↦ rw e (flip-Answers b e)
  ]

  insert-frame :
      find (is_of user_id event_id) bs ≡ none
      → let (r, bs') =
          perform new_id (decide (is_full event event_id bs) none) now user_id event_id bs in
        IsConsistent bs' × ((other : ℕ) → other ≢ event_id → seats other bs' ≡ seats other bs)
  unfolding perform decide
  insert-frame e =
      let w = new_booking (new_id bs) now user_id event_id waitlisted in
      let c = new_booking (new_id bs) now user_id event_id confirmed in
      (
        ground (
          arith,
          append-IsConsistent bs w h (fresh bs) e,
          append-IsConsistent bs c h (fresh bs) e,
        ),
        λ other ne. ground (arith, seats-append other bs w, seats-append other bs c),
      )

  flip-frame :
      (b : Booking)
      → find (is_of user_id event_id) bs ≡ some b
      → let (r, bs') =
          perform new_id (decide (is_full event event_id bs) (some b)) now user_id event_id bs in
        IsConsistent bs' × ((other : ℕ) → other ≢ event_id → seats other bs' ≡ seats other bs)
  unfolding perform decide
  flip-frame b e =
      let own = find_by_id (is_of user_id event_id) bs b h e in
      (
        ground (
          arith,
          change-IsConsistent b.id waitlisted bs h,
          change-IsConsistent b.id confirmed bs h,
        ),
        λ other ne. ground (
          arith,
          find_passes (is_of user_id event_id) bs b e,
          seats-change other b.id waitlisted bs b own,
          seats-change other b.id confirmed bs b own,
        ),
      )

  perform-frame :
      let (r, bs') =
        perform new_id
          (decide (is_full event event_id bs) (find (is_of user_id event_id) bs))
          now
          user_id
          event_id
          bs in
      IsConsistent bs' × ((other : ℕ) → other ≢ event_id → seats other bs' ≡ seats other bs)
  perform-frame = elim (Option-cases (find (is_of user_id event_id) bs)) [
    | inl e ↦ rw e (insert-frame e)
    | inr (b, e) ↦ rw e (flip-frame b e)
  ]

module _ (prisma : Prisma) (event : Event) (now user_id event_id : ℕ) (s : Store)
    (h : IsConsistent s.bookings) where
  open prisma use {new_id, new_id_lem}

  -- The callback of `createBooking`, on a consistent table. A refusal leaves the rows as they were.
  -- An answer is the user's own row for the event, it stands in the table afterwards, and either it
  -- is confirmed, a seat was free and one more seat is taken, or it is waitlisted, the event was
  -- full and the seats are as before.
  pub book-Answers :
      let (r, s') = book prisma event now user_id event_id s in
      Answers event.capacity user_id event_id s.bookings (r, s'.bookings)
  book-Answers =
      rw (book-perform prisma event now user_id event_id s h)
        (perform-Answers new_id new_id_lem event now user_id event_id s.bookings h)

  -- It keeps ids unique and one row to each user and event, and touches the seats of no other
  -- event, no event and no queue.
  pub book-frame :
      let (r, s') = book prisma event now user_id event_id s in
      IsConsistent s'.bookings
      × ((other : ℕ) → other ≢ event_id → seats other s'.bookings ≡ seats other s.bookings)
      × (s' ≡ record s { bookings = s'.bookings })
  book-frame = rw (book-perform prisma event now user_id event_id s h) (
      let f = perform-frame new_id new_id_lem event now user_id event_id s.bookings h in
      (f.0, f.1, refl))
