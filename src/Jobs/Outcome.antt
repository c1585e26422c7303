-- ===== src/Jobs/Outcome.antt =====
-- What a promotion does, on every branch.
use eventify_backend_course.Common.{
  ℕ, ◌+◌, ◌≤◌, ◌<◌, ◌≡◌, ◌⊎◌, inl, inr, refl, Option, none, some, true, arith, find, change, ltb,
  ◌==◌, Bool-cases, Option-cases, ◌++◌, ◌∷◌, [], List, subst,
}
use eventify_backend_course.Errors.{Failure, Result, ok, err, pure, ◌>>=◌, ◌>>◌, >>=_ok}
use eventify_backend_course.Store.{
  Event, Booking, Store, confirmed, waitlisted, has_id, is_for, with_status,
}
use eventify_backend_course.Prisma.{Prisma, commit}
use eventify_backend_course.Bookings.Repository.{
  get_event, count_confirmed, find_oldest_waitlisted, reactivate,
}
use eventify_backend_course.Bookings.Rows.{IsConsistent, seats, seats-change}
use eventify_backend_course.Jobs.Promote.{
  promote_oldest, promote_event, promote, add_confirmation, promote_waitlisted,
}

-- What becomes of the email queue: nothing, or the confirmation of `id` is added unless refused.
abbrev pub NoEmail : ℕ → List ℕ → List ℕ → Type 0
NoEmail id before after = after ≡ before

abbrev pub MayEmail : ℕ → List ℕ → List ℕ → Type 0
MayEmail id before after = (after ≡ before) ⊎ (after ≡ before ++ id ∷ [])

add_confirmation_lem :
    (prisma : Prisma) (id : ℕ) (s : Store)
    → (jobs : List ℕ) × (add_confirmation prisma (some id) s
        ≡ (ok tt, record s { email_queue = jobs }))
      × MayEmail id s.email_queue jobs
unfolding add_confirmation
add_confirmation_lem prisma id s = elim (prisma.queue_add_lem id s.email_queue) [
  | inl lost ↦ (s.email_queue, ground arith, inl refl)
  | inr queued ↦ (s.email_queue ++ id ∷ [], ground arith, inr refl)
]

-- The outcome of a promotion for `event_id` at the store `s`.
abbrev pub Promotes :
    (ℕ → List ℕ → List ℕ → Type 0) → ℕ → Store → Result (Option ℕ) × Store → Type 0
Promotes Email event_id s (err e, s') = s' ≡ s
Promotes Email event_id s (ok none, s') =
    (s' ≡ s)
    × ((event : Event)
        → find (λ v. v.id == event_id) s.events ≡ some event
        → (event.capacity ≤ seats event_id s.bookings)
          ⊎ (find (is_for event_id waitlisted) s.bookings ≡ none))
Promotes Email event_id s (ok (some id), s') =
    (event : Event) × (b : Booking) × (find (λ v. v.id == event_id) s.events ≡ some event)
    × (find (has_id id) s.bookings ≡ some b)
    × (b.id ≡ id)
    × (is_for event_id waitlisted b ≡ true)
    × ((c : Booking)
        → find (has_id c.id) s.bookings ≡ some c
        → is_for event_id waitlisted c ≡ true
        → b.created_at ≤ c.created_at)
    × (seats event_id s.bookings < event.capacity)
    × (s'.bookings ≡ change (has_id id) (with_status confirmed) s.bookings)
    × (seats event_id s'.bookings ≡ seats event_id s.bookings + 1)
    × (s'.events ≡ s.events)
    × Email id s.email_queue s'.email_queue

module _ (prisma : Prisma) (event_id : ℕ) (s : Store) (rows_ok : IsConsistent s.bookings) where
  open prisma use {
    event_find_lem, booking_count_lem, booking_first, booking_first_none, booking_first_some,
    booking_first_oldest, booking_update_some, transaction_commits, transaction_aborts,
    queue_add_lem,
  }

  pub oldest_lem :
      {oldest : Option Booking}
      → booking_first event_id waitlisted s.bookings ≡ oldest
      → find_oldest_waitlisted prisma event_id s ≡ (ok oldest, s)
  unfolding find_oldest_waitlisted
  oldest_lem e = rw e

  abbrev pub promoted : Booking → Store
  promoted b = record s { bookings = change (has_id b.id) (with_status confirmed) s.bookings }

  reactivate_row :
      (b : Booking)
      → find (has_id b.id) s.bookings ≡ some b
      → reactivate prisma b.id s ≡ (ok (with_status confirmed b), promoted b)
  unfolding reactivate
  reactivate_row b e = rw (booking_update_some b.id confirmed s.bookings b e)

  pub promote_row :
      (b : Booking)
      → find (has_id b.id) s.bookings ≡ some b
      → promote_oldest prisma (some b) s ≡ (ok (some b.id), promoted b)
  unfolding promote_oldest
  promote_row b e = >>=_ok (reactivate prisma b.id) (λ _. pure (some b.id)) s (reactivate_row b e)

  promote_none : promote_oldest prisma none s ≡ (ok none, s)
  unfolding promote_oldest
  promote_none = refl

  promote_room :
      (event : Event)
      → find (λ v. v.id == event_id) s.events ≡ some event
      → seats event_id s.bookings < event.capacity
      → Promotes NoEmail event_id s
          ((find_oldest_waitlisted prisma event_id >>= promote_oldest prisma) s)
  promote_room event known room =
      elim (Option-cases (booking_first event_id waitlisted s.bookings)) [
        | inl nobody ↦
            rw
              (
                >>=_ok (find_oldest_waitlisted prisma event_id) (promote_oldest prisma) s
                    (oldest_lem nobody),
                promote_none,
              )
              (refl, λ _ _. inr (booking_first_none event_id waitlisted s.bookings nobody))
        | inr (b, first) ↦
            let (own, waits) = booking_first_some event_id waitlisted s.bookings b rows_ok first in
            rw
              (
                >>=_ok (find_oldest_waitlisted prisma event_id) (promote_oldest prisma) s
                    (oldest_lem first),
                promote_row b own,
              )
              (
                event,
                b,
                known,
                own,
                refl,
                waits,
                (λ c. booking_first_oldest event_id waitlisted s.bookings b c first),
                room,
                refl,
                ground (arith, seats-change event_id b.id confirmed s.bookings b own),
                refl,
                refl,
              )
      ]

  promote_known :
      (event : Event)
      → find (λ v. v.id == event_id) s.events ≡ some event
      → Promotes NoEmail event_id s (promote_event prisma event_id (some event) s)
  unfolding promote_event count_confirmed
  promote_known event known =
      rw (booking_count_lem event_id confirmed s.bookings)
        (elim (Bool-cases (ltb (seats event_id s.bookings) event.capacity)) [
          | inl room ↦ rw room (promote_room event known (ground arith))
          | inr full ↦ rw full (refl, λ other same. inl (ground arith))
        ])

  -- The callback of the transaction.
  pub promote-Promotes : Promotes NoEmail event_id s (promote prisma event_id s)
  unfolding promote get_event
  promote-Promotes = elim (Option-cases (find (λ v. v.id == event_id) s.events)) [
    | inl unknown ↦ rw (event_find_lem event_id s.events, unknown) refl
    | inr (event, known) ↦ rw (event_find_lem event_id s.events, known) (promote_known event known)
  ]

  commit-Promotes :
      (r : Result (Option ℕ) × Store)
      → Promotes NoEmail event_id s r
      → Promotes NoEmail event_id s (commit s r)
  commit-Promotes (ok id, t) h = h
  commit-Promotes (err e, t) h = refl

  transaction-Promotes :
      (abort : Option Failure)
      → Promotes NoEmail event_id s
          (prisma.transaction abort (Option ℕ) (promote prisma event_id) s)
  transaction-Promotes none =
      rw (transaction_commits (Option ℕ) (promote prisma event_id) s)
        (commit-Promotes (promote prisma event_id s) promote-Promotes)
  transaction-Promotes (some f) =
      rw (transaction_aborts f (Option ℕ) (promote prisma event_id) s) refl

  confirm-Promotes :
      (r : Result (Option ℕ)) (t : Store)
      → Promotes NoEmail event_id s (r, t)
      → Promotes MayEmail event_id s
          (((λ _. (r, t)) >>= λ id. add_confirmation prisma id >> pure id) s)
  unfolding add_confirmation
  confirm-Promotes (err e) t h = h
  confirm-Promotes (ok none) t h = h
  confirm-Promotes (ok (some id)) t
        (event, b, known, own, same, waits, oldest, room, rows, taken, evs, email) =
      let (jobs, sent, mail) = add_confirmation_lem prisma id t in
      rw (>>=_ok (add_confirmation prisma (some id)) (λ _. pure (some id)) t sent) (
        event,
        b,
        known,
        own,
        same,
        waits,
        oldest,
        room,
        rows,
        taken,
        evs,
        subst (λ q. MayEmail id q jobs) email mail,
      )

  pub promote_waitlisted-Promotes :
      (abort : Option Failure)
      → Promotes MayEmail event_id s (promote_waitlisted prisma abort event_id s)
  unfolding promote_waitlisted
  promote_waitlisted-Promotes abort = confirm-Promotes _ _ (transaction-Promotes abort)
