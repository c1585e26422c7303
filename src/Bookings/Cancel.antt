-- ===== src/Bookings/Cancel.antt =====
-- `cancelBooking` with no other client between its two database calls: every branch.
use eventify_backend_course.Common.{
  ℕ, ◌+◌, ◌≡◌, ◌≢◌, ◌⊎◌, inl, inr, refl, none, some, [], ◌∷◌, ◌++◌, Bool, true, false, ◌||◌, arith,
  find, change, ◌==◌, Bool-cases, Option-cases, List,
}
use eventify_backend_course.Errors.{http_error, Result, ok, err, >>=_ok, >>=_err}
use eventify_backend_course.Store.{
  Booking, Actor, Store, admin, confirmed, cancelled, waitlisted, has_id, with_status, role_eq,
  status_eq,
}
use eventify_backend_course.Prisma.{Prisma}
use eventify_backend_course.Bookings.Repository.{get_by_id, cancel}
use eventify_backend_course.Bookings.Rows.{seats, seats-change}
use eventify_backend_course.Bookings.Service.{
  get_booking_by_id, may_cancel, finish_cancel, cancel_booking, request_promotion,
}

-- What a request for a promotion leaves in the queue, after a cancellation of `b`.
abbrev pub IsRequested : Booking → (before after : List ℕ) → Type 0
IsRequested b before after =
    ((b.status ≡ confirmed) × ((after ≡ before) ⊎ (after ≡ before ++ b.event_id ∷ [])))
    ⊎ ((b.status ≢ confirmed) × (after ≡ before))

pub request_promotion_lem :
    (prisma : Prisma) (b : Booking) (s : Store)
    → (jobs : List ℕ) × (request_promotion prisma b s ≡ (ok tt, record s { waitlist_queue = jobs }))
      × IsRequested b s.waitlist_queue jobs
unfolding request_promotion
request_promotion_lem prisma b s = elim (Bool-cases (status_eq b.status confirmed)) [
  | inr other ↦ (s.waitlist_queue, ground arith, inr (ground arith, refl))
  | inl same ↦ elim (prisma.queue_add_lem b.event_id s.waitlist_queue) [
    | inl lost ↦ (s.waitlist_queue, ground arith, inl (ground arith, inl refl))
    | inr queued ↦ (s.waitlist_queue ++ b.event_id ∷ [], ground arith, inl (ground arith, inr refl))
  ]
]

-- The owner of the booking, or an admin.
abbrev pub is_allowed : Booking → Actor → Bool
is_allowed b actor = role_eq actor.role admin || (b.user_id == actor.sub)

-- The outcome of cancelling `id` at the store `s`.
abbrev pub Cancels : Prisma → ℕ → Actor → Store → Result Booking × Store → Type 0
Cancels prisma id actor s (err e, s') =
    (s' ≡ s)
    × (((find (has_id id) s.bookings ≡ none) × (e ≡ http_error 404 "Booking not found"))
        ⊎ ((b : Booking) × (find (has_id id) s.bookings ≡ some b)
            × (((is_allowed b actor ≡ false)
                  × (e ≡ http_error 403 "You do not have permission to cancel this booking"))
                ⊎ ((is_allowed b actor ≡ true)
                    × (b.status ≡ cancelled)
                    × (e ≡ http_error 409 "Booking is already cancelled")))))
Cancels prisma id actor s (ok c, s') =
    (b : Booking) × (find (has_id id) s.bookings ≡ some b)
    × (is_allowed b actor ≡ true)
    × (b.status ≢ cancelled)
    × (c ≡ with_status cancelled b)
    × (s'.bookings ≡ change (has_id id) (with_status cancelled) s.bookings)
    × IsRequested b s.waitlist_queue s'.waitlist_queue
    × (((b.status ≡ confirmed) × (seats b.event_id s'.bookings + 1 ≡ seats b.event_id s.bookings))
        ⊎ ((b.status ≡ waitlisted) × (seats b.event_id s'.bookings ≡ seats b.event_id s.bookings)))

pub cancel_row :
    (prisma : Prisma) (id : ℕ) (s : Store) (b : Booking)
    → find (has_id id) s.bookings ≡ some b
    → cancel prisma id s ≡ (
      ok (with_status cancelled b),
      record s { bookings = change (has_id id) (with_status cancelled) s.bookings },
    )
unfolding cancel
cancel_row prisma id s b e = rw (prisma.booking_update_some id cancelled s.bookings b e)

module _ (prisma : Prisma) (id : ℕ) (actor : Actor) (s : Store) where
  open prisma use {booking_find_lem}

  pub found_lem :
      (b : Booking)
      → find (has_id id) s.bookings ≡ some b
      → get_booking_by_id prisma id s ≡ (ok b, s)
  unfolding get_booking_by_id get_by_id
  found_lem b e = rw (booking_find_lem id s.bookings, e)

  missing_lem :
      find (has_id id) s.bookings ≡ none
      → get_booking_by_id prisma id s ≡ (err (http_error 404 "Booking not found"), s)
  unfolding get_booking_by_id get_by_id
  missing_lem e = rw (booking_find_lem id s.bookings, e)

  refused_lem :
      (b : Booking)
      → is_allowed b actor ≡ false
      → may_cancel b actor s
        ≡ (err (http_error 403 "You do not have permission to cancel this booking"), s)
  unfolding may_cancel
  refused_lem b h = ground arith

  repeated_lem :
      (b : Booking)
      → is_allowed b actor ≡ true
      → b.status ≡ cancelled
      → may_cancel b actor s ≡ (err (http_error 409 "Booking is already cancelled"), s)
  unfolding may_cancel
  repeated_lem b h c = ground arith

  pub accepted_lem :
      (b : Booking)
      → is_allowed b actor ≡ true
      → b.status ≢ cancelled
      → may_cancel b actor s ≡ (ok tt, s)
  unfolding may_cancel
  accepted_lem b h c = ground arith

  finish_Cancels :
      (b : Booking)
      → find (has_id id) s.bookings ≡ some b
      → is_allowed b actor ≡ true
      → b.status ≢ cancelled
      → Cancels prisma id actor s (finish_cancel prisma b id s)
  unfolding finish_cancel
  finish_Cancels b e allowed live =
      let rows = record s { bookings = change (has_id id) (with_status cancelled) s.bookings } in
      let (jobs, asked, requested) = request_promotion_lem prisma b rows in
      rw
        (
          >>=_ok (cancel prisma id) _ s (cancel_row prisma id s b e),
          >>=_ok (request_promotion prisma b) (λ _ t. (ok (with_status cancelled b), t)) rows asked,
        )
        (
          b,
          e,
          allowed,
          live,
          refl,
          refl,
          requested,
          ground (arith, seats-change b.event_id id cancelled s.bookings b e),
        )

  cancel_found :
      (b : Booking)
      → find (has_id id) s.bookings ≡ some b
      → Cancels prisma id actor s (cancel_booking prisma id actor s)
  unfolding cancel_booking
  cancel_found b e =
      rw (>>=_ok (get_booking_by_id prisma id) _ s (found_lem b e))
        (elim (Bool-cases (is_allowed b actor)) [
          | inr other ↦
              rw (>>=_err (may_cancel b actor) _ s (refused_lem b other))
                (refl, inr (b, e, inl (other, refl)))
          | inl allowed ↦ elim (Bool-cases (status_eq b.status cancelled)) [
            | inl c ↦
                rw (>>=_err (may_cancel b actor) _ s (repeated_lem b allowed (ground arith)))
                  (refl, inr (b, e, inr (allowed, ground arith, refl)))
            | inr c ↦
                rw (>>=_ok (may_cancel b actor) _ s (accepted_lem b allowed (ground arith)))
                  (finish_Cancels b e allowed (ground arith))
          ]
        ])

  -- Cancelling, on every branch. It fails and changes nothing if there is no such booking (404), if
  -- the actor is neither its owner nor an admin (403), or if it is cancelled already (409), tested
  -- in this order. Otherwise only the status of that row changes, a confirmed booking gives one
  -- seat back and a promotion of its event is queued unless the queue refuses, and a waitlisted
  -- booking gives no seat back and queues nothing.
  pub cancel_booking-Cancels : Cancels prisma id actor s (cancel_booking prisma id actor s)
  unfolding cancel_booking
  cancel_booking-Cancels = elim (Option-cases (find (has_id id) s.bookings)) [
    | inl e ↦ rw (>>=_err (get_booking_by_id prisma id) _ s (missing_lem e)) (refl, inl (e, refl))
    | inr (b, e) ↦ cancel_found b e
  ]
