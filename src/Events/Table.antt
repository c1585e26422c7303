-- ===== src/Events/Table.antt =====
-- What src/events/repository.ts uses of Prisma: the table of events, by calls and laws. Dates are
-- times already: the parsing of their strings is outside the model.
use eventify_backend_course.Common.{
  ℕ, ◌≡◌, ◌⊎◌, String, Option, none, some, List, [], ◌∷◌, ◌++◌, find, change, ◌==◌, Bool,
  if◌then◌else◌,
}
use eventify_backend_course.Errors.{Thrown, known_error, Result, ok, err}
use eventify_backend_course.Store.{Event}

pub record EventCreateInput : Type 0 where
  pub title : String
  pub description : String
  pub venue : Option (Option String)
  pub starts_at : ℕ
  pub capacity : ℕ
  pub price_cents : Option ℕ
  pub organizer_id : ℕ

-- `none` is `undefined`; the inner option of `venue` is `null`.
pub record EventUpdateInput : Type 0 where
  pub title : Option String
  pub description : Option String
  pub venue : Option (Option String)
  pub starts_at : Option ℕ
  pub capacity : Option ℕ
  pub price_cents : Option ℕ
  pub organizer_id : Option ℕ

pub record EventWhereInput : Type 0 where
  pub venue : Option String
  pub from : Option ℕ
  pub to : Option ℕ

abbrev pub is_event : ℕ → Event → Bool
is_event id e = e.id == id

-- The row that a text names, where `uuid` is the row's id that a text writes.
abbrev pub row_in : Option ℕ → List Event → Option Event
row_in none es = none
row_in (some id) es = find (is_event id) es

-- What a query throws for a text that is no uuid.
abbrev pub malformed_id : Thrown
malformed_id = known_error "P2023"

abbrev pub without : ℕ → List Event → List Event
without id [] = []
without id (e ∷ es) = if is_event id e then es else e ∷ without id es

pub record EventTable : Type 0 where
  -- the row's id that a text writes; several texts write one uuid
  pub uuid : String → Option ℕ
  -- event.findUnique({ where: { id } })
  pub event_find : String → List Event → Result (Option Event)
  pub event_find_lem :
      (id : String) (n : ℕ) (es : List Event)
      → uuid id ≡ some n
      → event_find id es ≡ ok (find (is_event n) es)
  pub event_find_malformed :
      (id : String) (es : List Event) → uuid id ≡ none → event_find id es ≡ err malformed_id
  -- event.create({ data }), the data without the id
  pub event_create : (ℕ → Event) → List Event → Result Event × List Event
  pub event_id : List Event → ℕ
  pub event_id_lem : (es : List Event) → find (is_event (event_id es)) es ≡ none
  pub event_create_lem :
      (row : ℕ → Event) (es : List Event)
      → ((e : Thrown) × (event_create row es ≡ (err e, es)))
        ⊎ (event_create row es ≡ (ok (row (event_id es)), es ++ row (event_id es) ∷ []))
  -- event.findMany({ where, skip, take, orderBy: { startsAt: "asc" } })
  pub event_find_many : (Event → Bool) → (skip take : ℕ) → List Event → List Event
  -- event.count({ where })
  pub event_count : (Event → Bool) → List Event → ℕ
  -- event.update({ where: { id }, data })
  pub event_update : String → (Event → Event) → List Event → Result Event × List Event
  pub event_update_lem :
      (id : String) (f : Event → Event) (es : List Event)
      → ((e : Thrown) × (event_update id f es ≡ (err e, es)))
        ⊎ ((n : ℕ) × (e : Event) × (uuid id ≡ some n)
            × (find (is_event n) es ≡ some e)
            × (event_update id f es ≡ (ok (f e), change (is_event n) f es)))
  -- event.delete({ where: { id } })
  pub event_delete : String → List Event → Result Event × List Event
  pub event_delete_lem :
      (id : String) (es : List Event)
      → ((e : Thrown) × (event_delete id es ≡ (err e, es)))
        ⊎ ((n : ℕ) × (e : Event) × (uuid id ≡ some n)
            × (find (is_event n) es ≡ some e)
            × (event_delete id es ≡ (ok e, without n es)))

-- The row that a text names in the table.
abbrev pub row_at : EventTable → String → List Event → Option Event
row_at table id es = row_in (table.uuid id) es

-- The error of a query for a text that names no row.
abbrev pub IsMissing : EventTable → String → Thrown → Thrown → Type 0
IsMissing table id not_found e =
    ((table.uuid id ≡ none) × (e ≡ malformed_id))
    ⊎ ((n : ℕ) × (table.uuid id ≡ some n) × (e ≡ not_found))
