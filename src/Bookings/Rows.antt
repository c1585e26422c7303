-- ===== src/Bookings/Rows.antt =====
-- The table of bookings under the two writes that the program makes: a new row at the end, and a
-- new status for one row.
use eventify_backend_course.Common.{
  ℕ, ◌+◌, none, some, List, [], ◌∷◌, ◌++◌, Bool, false, ◌≡◌, ◌≢◌, refl, arith, find, change,
  count_where, one, count_where-append, count_where-change,
}
use eventify_backend_course.Store.{
  Booking, BookingStatus, confirmed, has_id, is_of, is_for, with_status,
}

-- No two rows have one id, nor one user and event.
abbrev pub IsConsistent : List Booking → Type 0
IsConsistent [] = Unit
IsConsistent (b ∷ bs) =
    (find (has_id b.id) bs ≡ none) × (find (is_of b.user_id b.event_id) bs ≡ none) × IsConsistent bs

-- The confirmed bookings of an event.
abbrev pub seats : ℕ → List Booking → ℕ
seats event_id bs = count_where (is_for event_id confirmed) bs

find-append_new :
    (test : Booking → Bool) (bs : List Booking) (b : Booking)
    → find test bs ≡ none
    → test b ≡ false
    → find test (bs ++ b ∷ []) ≡ none
find-append_new test [] b e f = ground arith
find-append_new test (c ∷ bs) b e f = ground (arith, find-append_new test bs b)

pub append-IsConsistent :
    (bs : List Booking) (b : Booking)
    → IsConsistent bs
    → find (has_id b.id) bs ≡ none
    → find (is_of b.user_id b.event_id) bs ≡ none
    → IsConsistent (bs ++ b ∷ [])
append-IsConsistent [] b h e f = (refl, refl, tt)
append-IsConsistent (c ∷ bs) b h e f = ground (
  arith,
  append-IsConsistent bs b h.2,
  find-append_new (has_id c.id) bs b,
  find-append_new (is_of c.user_id c.event_id) bs b,
)

-- No query by id or by user and event sees a change of status.
find_id-change :
    (id j : ℕ) (status : BookingStatus) (bs : List Booking)
    → find (has_id id) bs ≡ none
    → find (has_id id) (change (has_id j) (with_status status) bs) ≡ none
find_id-change id j status [] e = refl
find_id-change id j status (b ∷ bs) e = ground (arith, find_id-change id j status bs)

find_pair-change :
    (user_id event_id j : ℕ) (status : BookingStatus) (bs : List Booking)
    → find (is_of user_id event_id) bs ≡ none
    → find (is_of user_id event_id) (change (has_id j) (with_status status) bs) ≡ none
find_pair-change user_id event_id j status [] e = refl
find_pair-change user_id event_id j status (b ∷ bs) e =
    ground (arith, find_pair-change user_id event_id j status bs)

pub change-IsConsistent :
    (j : ℕ) (status : BookingStatus) (bs : List Booking)
    → IsConsistent bs
    → IsConsistent (change (has_id j) (with_status status) bs)
change-IsConsistent j status [] h = tt
change-IsConsistent j status (b ∷ bs) h = ground (
  arith,
  change-IsConsistent j status bs h.2,
  find_id-change b.id j status bs,
  find_pair-change b.user_id b.event_id j status bs,
)

pub seats-append :
    (event_id : ℕ) (bs : List Booking) (b : Booking)
    → seats event_id (bs ++ b ∷ []) ≡ seats event_id bs + one (is_for event_id confirmed b)
seats-append event_id bs b =
    omega (arith, count_where-append (is_for event_id confirmed) bs (b ∷ []))

pub seats-change :
    (event_id j : ℕ) (status : BookingStatus) (bs : List Booking) (b : Booking)
    → find (has_id j) bs ≡ some b
    → seats event_id (change (has_id j) (with_status status) bs) + one (is_for event_id confirmed b)
      ≡ seats event_id bs + one (is_for event_id confirmed (with_status status b))
seats-change event_id j status bs b e =
    count_where-change (is_for event_id confirmed) (has_id j) (with_status status) bs b e

pub find_id-append :
    (bs : List Booking) (b : Booking)
    → find (has_id b.id) bs ≡ none
    → find (has_id b.id) (bs ++ b ∷ []) ≡ some b
find_id-append [] b e = ground arith
find_id-append (c ∷ bs) b e = ground (arith, find_id-append bs b)

pub find_id-change_self :
    (j : ℕ) (status : BookingStatus) (bs : List Booking) (b : Booking)
    → find (has_id j) bs ≡ some b
    → find (has_id j) (change (has_id j) (with_status status) bs) ≡ some (with_status status b)
find_id-change_self j status [] b e = ground arith
find_id-change_self j status (c ∷ bs) b e = ground (arith, find_id-change_self j status bs b)

pub find_id-change_ne :
    (id j : ℕ) (status : BookingStatus) (bs : List Booking)
    → id ≢ j
    → find (has_id id) (change (has_id j) (with_status status) bs) ≡ find (has_id id) bs
find_id-change_ne id j status [] h = refl
find_id-change_ne id j status (c ∷ bs) h = ground (arith, find_id-change_ne id j status bs h)

-- A row that any query finds is found by its id.
pub find_by_id :
    (test : Booking → Bool) (bs : List Booking) (b : Booking)
    → IsConsistent bs
    → find test bs ≡ some b
    → find (has_id b.id) bs ≡ some b
find_by_id test [] b h e = ground arith
find_by_id test (c ∷ bs) b h e = ground (arith, find_by_id test bs b h.2)
