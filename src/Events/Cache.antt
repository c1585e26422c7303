-- ===== src/Events/Cache.antt =====
-- What src/events/events.service.ts uses of the Redis client (src/infra/redis.ts). A key is kept as
-- the parts that it is joined from, and an entry as the row whose JSON it is, with the text of a date
-- for the date; an entry may expire at any time, so the laws say only which
-- entries a call can leave.
use eventify_backend_course.Common.{
  ℕ, suc, ◌≡◌, ◌≢◌, ◌⊎◌, String, Bool, true, Option, none, some, List,
}
use eventify_backend_course.Store.{Event}

-- `events:list:{v}:p{page}:l{limit}:v{venue}:f{from}:t{to}`
pub record ListKey : Type 0 where
  pub version : ℕ
  pub page : ℕ
  pub limit : ℕ
  pub venue : Option String
  pub from : Option ℕ
  pub to : Option ℕ

-- A page of events, as `listEvents` answers and caches it.
pub record Page : Type 0 where
  pub data_rows : List Event
  pub page : ℕ
  pub limit : ℕ
  pub total : ℕ

-- The result of a command that writes is whether its promise is fulfilled.
pub record Redis : Type 1 where
  pub Cache : Type 0
  pub is_ready : Cache → Bool
  -- GET event:{id}, `none` where the promise is rejected
  pub get_event : String → Cache → Option (Option Event)
  -- GET of a list page
  pub get_page : ListKey → Cache → Option (Option Page)
  -- the counter of events:list:v, and GET of it
  pub version : Cache → ℕ
  pub get_version : Cache → Option (Option ℕ)
  pub get_version_none : (c : Cache) → get_version c ≡ some none → version c ≡ 0
  pub get_version_some : (c : Cache) (v : ℕ) → get_version c ≡ some (some v) → version c ≡ v
  -- SET event:{id} with an expiry
  pub set_event : String → Event → Cache → Bool × Cache
  pub set_event_event :
      (id i : String) (e f : Event) (c : Cache)
      → get_event i (set_event id e c).1 ≡ some (some f)
      → ((i ≡ id) × (f ≡ e)) ⊎ (get_event i c ≡ some (some f))
  pub set_event_page :
      (id : String) (e : Event) (k : ListKey) (p : Page) (c : Cache)
      → get_page k (set_event id e c).1 ≡ some (some p)
      → get_page k c ≡ some (some p)
  pub set_event_version :
      (id : String) (e : Event) (c : Cache) → version (set_event id e c).1 ≡ version c
  -- SET of a list page with an expiry
  pub set_page : ListKey → Page → Cache → Bool × Cache
  pub set_page_event :
      (k : ListKey) (p : Page) (i : String) (f : Event) (c : Cache)
      → get_event i (set_page k p c).1 ≡ some (some f)
      → get_event i c ≡ some (some f)
  pub set_page_page :
      (k j : ListKey) (p q : Page) (c : Cache)
      → get_page j (set_page k p c).1 ≡ some (some q)
      → ((j ≡ k) × (q ≡ p)) ⊎ (get_page j c ≡ some (some q))
  pub set_page_version :
      (k : ListKey) (p : Page) (c : Cache) → version (set_page k p c).1 ≡ version c
  -- DEL event:{id}
  pub del_event : String → Cache → Bool × Cache
  pub del_event_self :
      (id : String) (f : Event) (c : Cache)
      → (del_event id c).0 ≡ true
      → get_event id (del_event id c).1 ≢ some (some f)
  pub del_event_event :
      (id i : String) (f : Event) (c : Cache)
      → get_event i (del_event id c).1 ≡ some (some f)
      → get_event i c ≡ some (some f)
  pub del_event_page :
      (id : String) (k : ListKey) (p : Page) (c : Cache)
      → get_page k (del_event id c).1 ≡ some (some p)
      → get_page k c ≡ some (some p)
  pub del_event_version : (id : String) (c : Cache) → version (del_event id c).1 ≡ version c
  -- INCR events:list:v
  pub incr_version : Cache → Bool × Cache
  pub incr_version_lem :
      (c : Cache) → (incr_version c).0 ≡ true → version (incr_version c).1 ≡ suc (version c)
  pub incr_version_event :
      (i : String) (f : Event) (c : Cache)
      → get_event i (incr_version c).1 ≡ some (some f)
      → get_event i c ≡ some (some f)
  pub incr_version_page :
      (k : ListKey) (p : Page) (c : Cache)
      → get_page k (incr_version c).1 ≡ some (some p)
      → get_page k c ≡ some (some p)

-- Every command that the cache receives is carried out.
pub record IsUp (redis : Redis) : Type 0 where
  pub ready : (c : redis.Cache) → redis.is_ready c ≡ true
  pub deletes : (id : String) (c : redis.Cache) → (redis.del_event id c).0 ≡ true
  pub counts : (c : redis.Cache) → (redis.incr_version c).0 ≡ true
  pub answers : (c : redis.Cache) → redis.get_version c ≢ none
