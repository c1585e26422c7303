-- ===== src/Memory.antt =====
-- The tables in memory: functions that meet the laws of `Prisma`, for the tests.
use eventify_backend_course.Common.{
  ℕ, suc, ◌≤◌, max, ◌≡◌, inl, inr, refl, Option, none, some, List, [], ◌∷◌, ◌++◌, true, Bool, arith,
  find, change, count_where, leb, if◌then◌else◌, ◌==◌, Option-cases, find_fails,
}
use eventify_backend_course.Errors.{Failure, failure, known_error, Result, ok, err, Action}
use eventify_backend_course.Store.{
  Booking, BookingStatus, Store, has_id, is_of, is_for, with_status,
}
use eventify_backend_course.Prisma.{Prisma, new_booking, atomically}
use eventify_backend_course.Bookings.Rows.{IsConsistent}

abbrev older : Booking → Option Booking → Option Booking
older b none = some b
older b (some c) = if leb b.created_at c.created_at then some b else some c

unfoldable pub oldest : (Booking → Bool) → List Booking → Option Booking
oldest test [] = none
oldest test (b ∷ bs) = if test b then older b (oldest test bs) else oldest test bs

pub oldest-none :
    (test : Booking → Bool) (bs : List Booking) → oldest test bs ≡ none → find test bs ≡ none
unfolding oldest
oldest-none test [] e = refl
oldest-none test (b ∷ bs) e = ground (arith, oldest-none test bs)

pub oldest_passes :
    (test : Booking → Bool) (bs : List Booking) (b : Booking)
    → oldest test bs ≡ some b
    → test b ≡ true
unfolding oldest
oldest_passes test [] b e = cc
oldest_passes test (c ∷ bs) b e = elim (Option-cases (oldest test bs)) [
  | inl n ↦ ground arith
  | inr (d, f) ↦ ground (arith, oldest_passes test bs d)
]

pub oldest_id :
    (test : Booking → Bool) (bs : List Booking) (b : Booking)
    → IsConsistent bs
    → oldest test bs ≡ some b
    → find (has_id b.id) bs ≡ some b
unfolding oldest
oldest_id test [] b h e = cc
oldest_id test (c ∷ bs) b h e = elim (Option-cases (oldest test bs)) [
  | inl n ↦ ground arith
  | inr (d, f) ↦ ground (arith, oldest_id test bs d h.2)
]

pub oldest_least :
    (test : Booking → Bool) (bs : List Booking) (b c : Booking) (i : ℕ)
    → oldest test bs ≡ some b
    → find (has_id i) bs ≡ some c
    → test c ≡ true
    → b.created_at ≤ c.created_at
unfolding oldest
oldest_least test [] b c i e f g = cc
oldest_least test (d ∷ bs) b c i e f g = elim (Option-cases (oldest test bs)) [
  | inl n ↦ ground (arith, oldest-none test bs, find_fails (has_id i) test bs c)
  | inr (d', f') ↦ ground (arith, oldest_least test bs d' c i)
]

unfoldable pub next_id : List Booking → ℕ
next_id [] = 0
next_id (b ∷ bs) = max (suc b.id) (next_id bs)

pub next_id_above : (i : ℕ) (bs : List Booking) → next_id bs ≤ i → find (has_id i) bs ≡ none
unfolding next_id
next_id_above i [] h = refl
next_id_above i (b ∷ bs) h =
    let apart : suc b.id ≤ i = omega arith in
    let rest : next_id bs ≤ i = omega arith in ground (arith, next_id_above i bs rest)

pub update : ℕ → BookingStatus → List Booking → Result Booking × List Booking
update id status bs = elim (find (has_id id) bs) [
  | none ↦ (err (known_error "P2025"), bs)
  | some b ↦ (ok (with_status status b), change (has_id id) (with_status status) bs)
]

pub insert : ℕ → ℕ → ℕ → BookingStatus → List Booking → Result Booking × List Booking
insert now user_id event_id status bs = elim (find (is_of user_id event_id) bs) [
  | some b ↦ (err (known_error "P2002"), bs)
  | none ↦ let b = new_booking (next_id bs) now user_id event_id status in (ok b, bs ++ b ∷ [])
]

pub transact : Option Failure → (A : Type 0) → Action Store A → Action Store A
transact none A body s = atomically body s
transact (some e) A body s = (err (failure e), s)

pub update-some :
    (id : ℕ) (status : BookingStatus) (bs : List Booking) (b : Booking)
    → find (has_id id) bs ≡ some b
    → update id status bs ≡ (ok (with_status status b), change (has_id id) (with_status status) bs)
unfolding update
update-some id status bs b e = rw (e, update)

pub update-none :
    (id : ℕ) (status : BookingStatus) (bs : List Booking)
    → find (has_id id) bs ≡ none
    → update id status bs ≡ (err (known_error "P2025"), bs)
unfolding update
update-none id status bs e = rw (e, update)

pub insert_new :
    (now user_id event_id : ℕ) (status : BookingStatus) (bs : List Booking)
    → find (is_of user_id event_id) bs ≡ none
    → insert now user_id event_id status bs ≡ (
      ok (new_booking (next_id bs) now user_id event_id status),
      bs ++ new_booking (next_id bs) now user_id event_id status ∷ [],
    )
unfolding insert
insert_new now user_id event_id status bs e = rw (e, insert)

pub insert_taken :
    (now user_id event_id : ℕ) (status : BookingStatus) (bs : List Booking) (b : Booking)
    → find (is_of user_id event_id) bs ≡ some b
    → insert now user_id event_id status bs ≡ (err (known_error "P2002"), bs)
unfolding insert
insert_taken now user_id event_id status bs b e = rw (e, insert)

pub transact_commits :
    (A : Type 0) (body : Action Store A) (s : Store) → transact none A body s ≡ atomically body s
unfolding transact
transact_commits A body s = refl

pub transact_aborts :
    (e : Failure) (A : Type 0) (body : Action Store A) (s : Store)
    → transact (some e) A body s ≡ (err (failure e), s)
unfolding transact
transact_aborts e A body s = refl

unfoldable pub memory : Prisma
unfolding update insert transact oldest next_id
memory = record {
  text_of = λ id. "1f4a1a1a-0000-4000-8000-000000000001";
  event_find = λ id es. find (λ e. e.id == id) es;
  event_find_lem = λ id es. refl;
  booking_count = λ event_id status bs. count_where (is_for event_id status) bs;
  booking_count_lem = λ event_id status bs. refl;
  booking_find = λ id bs. find (has_id id) bs;
  booking_find_lem = λ id bs. refl;
  booking_find_pair = λ user_id event_id bs. find (is_of user_id event_id) bs;
  booking_find_pair_lem = λ user_id event_id bs. refl;
  booking_first = λ event_id status bs. oldest (is_for event_id status) bs;
  booking_first_none = λ event_id status bs. oldest-none (is_for event_id status) bs;
  booking_first_some = λ event_id status bs b h e.
      (oldest_id (is_for event_id status) bs b h e, oldest_passes (is_for event_id status) bs b e);
  booking_first_oldest =
      λ event_id status bs b c. oldest_least (is_for event_id status) bs b c c.id;
  booking_update = update;
  booking_update_some = update-some;
  booking_update_none = update-none;
  new_id = next_id;
  new_id_lem = λ bs. next_id_above (next_id bs) bs (omega arith);
  booking_create = insert;
  booking_create_new = insert_new;
  booking_create_taken = insert_taken;
  transaction = transact;
  transaction_commits = transact_commits;
  transaction_aborts = transact_aborts;
  queue_add = λ job jobs. some (jobs ++ job ∷ []);
  queue_add_lem = λ job jobs. inr refl;
}
