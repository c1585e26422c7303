-- ===== src/Events/Memory.antt =====
-- A cache and a table of events in memory that meet the laws of `Redis` and of `EventTable`.
use eventify_backend_course.Common.{
  ℕ, suc, String, str_eq, str_eq_iff, ◌≤◌, max, ◌≡◌, ◌≢◌, ◌⊎◌, inl, inr, refl, Bool, true, Option,
  none, some, List, [], ◌∷◌, ◌++◌, arith, find, change, if◌then◌else◌, Option-cases, Bool-cases,
  length,
}
use eventify_backend_course.Errors.{Thrown, known_error, Result, ok, err}
use eventify_backend_course.Store.{Event}
use eventify_backend_course.Events.Cache.{Redis, IsUp}
use eventify_backend_course.Events.Table.{EventTable, is_event, malformed_id, without}

-- Events only: no page is kept, which Redis may do.
pub record Entries : Type 0 where
  pub rows : String → Option Event
  pub counter : ℕ

abbrev put : String → Option Event → (String → Option Event) → String → Option Event
put id o rows i = if str_eq i id then o else rows i

pub put-event :
    (id i : String) (e f : Event) (rows : String → Option Event)
    → some (put id (some e) rows i) ≡ some (some f)
    → ((i ≡ id) × (f ≡ e)) ⊎ (some (rows i) ≡ some (some f))
put-event id i e f rows at = elim (Bool-cases (str_eq i id)) [
  | inl here ↦ inl ((str_eq_iff i id).0 here, ground arith)
  | inr past ↦ inr (ground arith)
]

pub put-none :
    (id i : String) (f : Event) (rows : String → Option Event)
    → some (put id none rows i) ≡ some (some f)
    → some (rows i) ≡ some (some f)
put-none id i f rows at = ground arith

pub put-none_self :
    (id : String) (f : Event) (rows : String → Option Event)
    → some (put id none rows id) ≢ some (some f)
put-none_self id f rows at = let same = (str_eq_iff id id).1 refl in ground arith

pub put-other :
    (id i : String) (rows : String → Option Event)
    → i ≢ id
    → some (put id none rows i) ≡ some (rows i)
put-other id i rows ne = elim (Bool-cases (str_eq i id)) [
  | inl here ↦ absurd (ne ((str_eq_iff i id).0 here))
  | inr past ↦ ground arith
]

abbrev pub redis_memory : Redis
redis_memory = record {
  Cache = Entries;
  is_ready = λ c. true;
  get_event = λ i c. some (c.rows i);
  get_page = λ k c. some none;
  version = λ c. c.counter;
  get_version = λ c. some (some c.counter);
  get_version_none = λ c e. ground arith;
  get_version_some = λ c v e. ground arith;
  set_event = λ id e c. (true, record c { rows = put id (some e) c.rows });
  set_event_event = λ id i e f c at. put-event id i e f c.rows at;
  set_event_page = λ id e k p c at. ground arith;
  set_event_version = λ id e c. refl;
  set_page = λ k p c. (true, c);
  set_page_event = λ k p i f c at. at;
  set_page_page = λ k j p q c at. ground arith;
  set_page_version = λ k p c. refl;
  del_event = λ id c. (true, record c { rows = put id none c.rows });
  del_event_self = λ id f c up. put-none_self id f c.rows;
  del_event_event = λ id i f c at. put-none id i f c.rows at;
  del_event_page = λ id k p c at. ground arith;
  del_event_version = λ id c. refl;
  incr_version = λ c. (true, record c { counter = suc c.counter });
  incr_version_lem = λ c up. refl;
  incr_version_event = λ i f c at. at;
  incr_version_page = λ k p c at. ground arith;
}

pub redis_memory-IsUp : IsUp redis_memory
redis_memory-IsUp = record {
  ready = λ c. refl;
  deletes = λ id c. refl;
  counts = λ c. refl;
  answers = λ c e. ground arith;
}

unfoldable pub next_event_id : List Event → ℕ
next_event_id [] = 0
next_event_id (e ∷ es) = max (suc e.id) (next_event_id es)

pub next_event_id_above :
    (i : ℕ) (es : List Event) → next_event_id es ≤ i → find (is_event i) es ≡ none
unfolding next_event_id
next_event_id_above i [] h = refl
next_event_id_above i (e ∷ es) h =
    let apart : suc e.id ≤ i = omega arith in
    let rest : next_event_id es ≤ i = omega arith in ground (arith, next_event_id_above i es rest)

-- Two texts of one uuid, and one text of another.
unfoldable pub read_uuid : String → Option ℕ
read_uuid id =
    if str_eq id "a1"
    then some 1
    else if str_eq id "A1"
    then some 1
    else if str_eq id "a2"
    then some 2
    else none

pub find_row : String → List Event → Result (Option Event)
unfolding read_uuid
find_row id es = elim (read_uuid id) [
  | none ↦ err malformed_id
  | some n ↦ ok (find (is_event n) es)
]

pub find_row_lem :
    (id : String) (n : ℕ) (es : List Event)
    → read_uuid id ≡ some n
    → find_row id es ≡ ok (find (is_event n) es)
unfolding find_row
find_row_lem id n es names = rw (names, find_row)

pub find_row_malformed :
    (id : String) (es : List Event) → read_uuid id ≡ none → find_row id es ≡ err malformed_id
unfolding find_row
find_row_malformed id es bad = rw (bad, find_row)

-- A write of the row that a text names, by what it answers and leaves.
pub write_row : String → (ℕ → Event → Event × List Event) → List Event → Result Event × List Event
unfolding read_uuid
write_row id write es = elim (read_uuid id) [
  | none ↦ (err malformed_id, es)
  | some n ↦ elim (find (is_event n) es) [
    | none ↦ (err (known_error "P2025"), es)
    | some e ↦ let (e', es') = write n e in (ok e', es')
  ]
]

pub write_row_lem :
    (id : String) (write : ℕ → Event → Event × List Event) (es : List Event)
    → ((e : Thrown) × (write_row id write es ≡ (err e, es)))
      ⊎ ((n : ℕ) × (e : Event) × (read_uuid id ≡ some n)
          × (find (is_event n) es ≡ some e)
          × (write_row id write es ≡ (ok (write n e).0, (write n e).1)))
unfolding write_row
write_row_lem id write es = elim (Option-cases (read_uuid id)) [
  | inl bad ↦ inl (malformed_id, rw (bad, write_row))
  | inr (n, names) ↦ elim (Option-cases (find (is_event n) es)) [
    | inl gone ↦ inl (known_error "P2025", rw (names, gone, write_row))
    | inr (e, row) ↦ inr (n, e, names, row, rw (names, row, write_row))
  ]
]

-- The pages are not sorted by date, which no law asks for.
abbrev filtered : (Event → Bool) → List Event → List Event
filtered test [] = []
filtered test (e ∷ es) = if test e then e ∷ filtered test es else filtered test es

unfoldable pub event_memory : EventTable
unfolding next_event_id find_row write_row read_uuid
event_memory = record {
  uuid = read_uuid;
  event_find = find_row;
  event_find_lem = find_row_lem;
  event_find_malformed = find_row_malformed;
  event_create = λ row es. (ok (row (next_event_id es)), es ++ row (next_event_id es) ∷ []);
  event_id = next_event_id;
  event_id_lem = λ es. next_event_id_above (next_event_id es) es (omega arith);
  event_create_lem = λ row es. inr refl;
  event_find_many = λ test skip take es. filtered test es;
  event_count = λ test es. length (filtered test es);
  event_update = λ id f es. write_row id (λ n e. (f e, change (is_event n) f es)) es;
  event_update_lem = λ id f es. write_row_lem id (λ n e. (f e, change (is_event n) f es)) es;
  event_delete = λ id es. write_row id (λ n e. (e, without n es)) es;
  event_delete_lem = λ id es. write_row_lem id (λ n e. (e, without n es)) es;
}
