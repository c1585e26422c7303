-- ===== src/Jobs/Seats.antt =====
-- The rows of the demo's event after each step of scripts/waitlist-demo.ts.
use eventify_backend_course.Common.{
  ℕ, ◌≡◌, ◌≢◌, ◌∙◌, inl, inr, refl, none, some, arith, find, change, find-append_none, List, [],
  ◌∷◌, ◌++◌, ap, sym, subst, Option-cases,
}
use eventify_backend_course.Store.{
  Booking, confirmed, waitlisted, cancelled, has_id, is_of, with_status,
}
use eventify_backend_course.Prisma.{Prisma, new_booking}
use eventify_backend_course.Bookings.Rows.{
  IsConsistent, seats, append-IsConsistent, change-IsConsistent,
}
use eventify_backend_course.Jobs.Demo.{Run}
use eventify_backend_course.Jobs.Shown.{
  is_at, unbooked_pair, unbooked_status, unbooked_seats, unbooked_pair-append, unbooked_id,
  change_new,
}

append_nil : (bs : List Booking) → bs ++ [] ≡ bs
append_nil [] = refl
append_nil (b ∷ bs) = ap (λ cs. b ∷ cs) (append_nil bs)

pub append_two : (bs : List Booking) (a b : Booking) → (bs ++ a ∷ []) ++ b ∷ [] ≡ bs ++ a ∷ b ∷ []
append_two [] a b = refl
append_two (c ∷ bs) a b = ap (λ cs. c ∷ cs) (append_two bs a b)

module _ (prisma : Prisma) (run : Run) (alice bob event_id : ℕ) (bs : List Booking) where
  abbrev pub row_a : Booking
  row_a = new_booking (prisma.new_id bs) (run.alice_env 0).now alice event_id confirmed

  abbrev pub row_b : Booking
  row_b = new_booking (prisma.new_id (bs ++ row_a ∷ [])) (run.bob_env 0).now bob event_id waitlisted

  module _ (rows_ok : IsConsistent bs) (unbooked : find (is_at event_id) bs ≡ none)
      (apart : bob ≢ alice) where
    fresh_a : find (has_id row_a.id) bs ≡ none
    fresh_a = prisma.new_id_lem bs

    fresh_b : find (has_id row_b.id) (bs ++ row_a ∷ []) ≡ none
    fresh_b = prisma.new_id_lem (bs ++ row_a ∷ [])

    pub distinct : row_b.id ≢ row_a.id
    distinct same =
        let there : find (has_id row_a.id) (bs ++ row_a ∷ []) ≡ none =
          subst (λ i. find (has_id i) (bs ++ row_a ∷ []) ≡ none) same fresh_b in
        let here = find-append_none (has_id row_a.id) bs (row_a ∷ []) fresh_a in ground arith

    fresh_b_before : find (has_id row_b.id) bs ≡ none
    fresh_b_before = before bs fresh_b
      where
        before :
            (cs : List Booking)
            → find (has_id row_b.id) (cs ++ row_a ∷ []) ≡ none
            → find (has_id row_b.id) cs ≡ none
        before [] h = refl
        before (c ∷ cs) h = ground (arith, before cs)

    pub one_ok : IsConsistent (bs ++ row_a ∷ [])
    one_ok = append-IsConsistent bs row_a rows_ok fresh_a (unbooked_pair alice event_id bs unbooked)

    pub bob_unbooked : find (is_of bob event_id) (bs ++ row_a ∷ []) ≡ none
    bob_unbooked =
        let added = unbooked_pair-append bob event_id bs (row_a ∷ []) unbooked in ground arith

    pub two_ok : IsConsistent (bs ++ row_a ∷ row_b ∷ [])
    two_ok =
        subst IsConsistent (append_two bs row_a row_b)
          (append-IsConsistent (bs ++ row_a ∷ []) row_b one_ok fresh_b bob_unbooked)

    pub no_seats : seats event_id bs ≡ 0
    no_seats = ap (seats event_id) (sym (append_nil bs)) ∙ unbooked_seats event_id bs [] unbooked

    pub one_seat : seats event_id (bs ++ row_a ∷ []) ≡ 1
    one_seat = let added = unbooked_seats event_id bs (row_a ∷ []) unbooked in ground arith

    pub freed :
        change (has_id row_a.id) (with_status cancelled) (bs ++ row_a ∷ row_b ∷ [])
        ≡ bs ++ with_status cancelled row_a ∷ row_b ∷ []
    freed =
        let moved = change_new row_a.id (with_status cancelled) bs (row_a ∷ row_b ∷ []) fresh_a in
        ground arith

    pub freed_ok : IsConsistent (bs ++ with_status cancelled row_a ∷ row_b ∷ [])
    freed_ok =
        subst IsConsistent freed
          (change-IsConsistent row_a.id cancelled (bs ++ row_a ∷ row_b ∷ []) two_ok)

    pub freed_seats : seats event_id (bs ++ with_status cancelled row_a ∷ row_b ∷ []) ≡ 0
    freed_seats =
        let added =
          unbooked_seats event_id bs (with_status cancelled row_a ∷ row_b ∷ []) unbooked in
        ground arith

    pub taken :
        change
          (has_id row_b.id)
          (with_status confirmed)
          (bs ++ with_status cancelled row_a ∷ row_b ∷ [])
        ≡ bs ++ with_status cancelled row_a ∷ with_status confirmed row_b ∷ []
    taken =
        let moved =
          change_new row_b.id (with_status confirmed) bs (with_status cancelled row_a ∷ row_b ∷ [])
            fresh_b_before in
        let other = distinct in ground arith

    pub taken_seats :
        seats event_id (bs ++ with_status cancelled row_a ∷ with_status confirmed row_b ∷ []) ≡ 1
    taken_seats =
        let added =
          unbooked_seats event_id bs
            (with_status cancelled row_a ∷ with_status confirmed row_b ∷ []) unbooked in
        ground arith

    pub own_a : find (has_id row_a.id) (bs ++ row_a ∷ row_b ∷ []) ≡ some row_a
    own_a =
        let added = find-append_none (has_id row_a.id) bs (row_a ∷ row_b ∷ []) fresh_a in
        ground arith

    pub own_b : find (has_id row_b.id) (bs ++ with_status cancelled row_a ∷ row_b ∷ []) ≡ some row_b
    own_b =
        let added =
          find-append_none (has_id row_b.id) bs (with_status cancelled row_a ∷ row_b ∷ [])
            fresh_b_before in
        let other = distinct in ground arith

    pub final_b :
        find
          (has_id row_b.id)
          (bs ++ with_status cancelled row_a ∷ with_status confirmed row_b ∷ [])
        ≡ some (with_status confirmed row_b)
    final_b =
        let added =
          find-append_none (has_id row_b.id) bs
            (with_status cancelled row_a ∷ with_status confirmed row_b ∷ []) fresh_b_before in
        let other = distinct in ground arith

    -- Bob stands first in the database's order, since nobody else waits.
    pub first_b :
        prisma.booking_first event_id waitlisted (bs ++ with_status cancelled row_a ∷ row_b ∷ [])
        ≡ some row_b
    first_b =
        let rows : List Booking = bs ++ with_status cancelled row_a ∷ row_b ∷ [] in
        elim (Option-cases (prisma.booking_first event_id waitlisted rows)) [
          | inl nobody ↦
              let gone = prisma.booking_first_none event_id waitlisted rows nobody in
              let there =
                unbooked_status event_id waitlisted bs (with_status cancelled row_a ∷ row_b ∷ [])
                  unbooked in
              ground arith
          | inr (w, first) ↦
              let (own, waits) =
                prisma.booking_first_some event_id waitlisted rows w freed_ok first in
              let there =
                unbooked_id event_id waitlisted w.id bs (with_status cancelled row_a ∷ row_b ∷ []) w
                  unbooked own waits in
              let same : w ≡ row_b = ground arith in first ∙ ap (λ x. some x) same
        ]
