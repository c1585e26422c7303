-- ===== src/Events/Lists.antt =====
-- Lists of events through the cache.
use eventify_backend_course.Common.{
  String, ℕ, ◌≡◌, ◌≢◌, ◌⊎◌, inl, inr, refl, ◌∙◌, ap, none, some, true, false, arith, Bool-cases,
  Option-cases,
}
use eventify_backend_course.Errors.{Result, ok, >>=_ok}
use eventify_backend_course.Store.{Event}
use eventify_backend_course.Events.Cache.{Redis, ListKey, Page}
use eventify_backend_course.Events.Table.{EventTable}
use eventify_backend_course.Events.Service.{
  World, EventQuery, record_hit, record_miss, list_key, refresh_list_version, lookup_page,
  store_page, page_of, fetch_page, list_events,
}
use eventify_backend_course.Events.Fresh.{IsFresh, IsFresh-set_page}
use eventify_backend_course.Events.Reads.{Counts}

module _ (redis : Redis) (table : EventTable) where
  open redis use {Cache, get_event, is_ready, get_page, get_version, version}

  abbrev Missing : ListKey → World Cache → Type 0
  Missing k w = (is_ready w.cache ≡ false) ⊎ ((p : Page) → get_page k w.cache ≢ some (some p))

  lookup_page-hit :
      (k : ListKey) (w : World Cache) (p : Page)
      → is_ready w.cache ≡ true
      → get_page k w.cache ≡ some (some p)
      → lookup_page redis k w ≡ (ok (some p), record_hit w)
  unfolding lookup_page
  lookup_page-hit k w p ready at = ground arith

  lookup_page-miss :
      (k : ListKey) (w : World Cache)
      → Missing k w
      → lookup_page redis k w ≡ (ok none, record_miss w)
  unfolding lookup_page
  lookup_page-miss k w (inl down) = ground arith
  lookup_page-miss k w (inr gone) = elim (Option-cases (get_page k w.cache)) [
    | inl failed ↦ ground arith
    | inr (o, at) ↦ elim (Option-cases o) [
      | inl n ↦ ground arith
      | inr (p, there) ↦ absurd (gone p (at ∙ ap some there))
    ]
  ]

  -- The world in which the pages are looked up.
  abbrev refreshed : World Cache → World Cache
  refreshed w = (refresh_list_version redis w).1

  refresh_lem :
      (w : World Cache)
      → is_ready w.cache ≡ true
      → get_version w.cache ≢ none
      → refresh_list_version redis w ≡ (ok tt, record w { list_version = version w.cache })
  unfolding refresh_list_version
  refresh_lem w ready answers = elim (Option-cases (get_version w.cache)) [
    | inl failed ↦ absurd (answers failed)
    | inr (o, at) ↦ elim (Option-cases o) [
      | inl n ↦ let zeroed = redis.get_version_none w.cache (at ∙ ap some n) in ground arith
      | inr (v, there) ↦
          let same = redis.get_version_some w.cache v (at ∙ ap some there) in ground arith
    ]
  ]

  refresh-down :
      (w : World Cache) → is_ready w.cache ≡ false → refresh_list_version redis w ≡ (ok tt, w)
  unfolding refresh_list_version
  refresh-down w down = ground arith

  list_events-hit :
      (q : EventQuery) (w w' : World Cache) (p : Page)
      → refresh_list_version redis w ≡ (ok tt, w')
      → lookup_page redis (list_key w'.list_version q) w' ≡ (ok (some p), record_hit w')
      → list_events redis table q w ≡ (ok p, record_hit w')
  unfolding list_events
  list_events-hit q w w' p r l =
      rw
        (
          >>=_ok (refresh_list_version redis) _ w r,
          >>=_ok (lookup_page redis (list_key w'.list_version q)) _ w' l,
        )
        refl

  list_events-miss :
      (q : EventQuery) (w w' : World Cache)
      → refresh_list_version redis w ≡ (ok tt, w')
      → lookup_page redis (list_key w'.list_version q) w' ≡ (ok none, record_miss w')
      → let key = list_key w'.list_version q in
        let page = page_of redis table key w.events in
        w'.events ≡ w.events
        → list_events redis table q w ≡ (ok page, (store_page redis key page (record_miss w')).1)
  unfolding list_events fetch_page store_page
  list_events-miss q w w' r l same =
      rw
        (
          >>=_ok (refresh_list_version redis) _ w r,
          >>=_ok (lookup_page redis (list_key w'.list_version q)) _ w' l,
          same,
        )
        refl

  -- What `listEvents` answers where the cache is fresh, and what it leaves.
  abbrev pub ListsEvents : EventQuery → World Cache → Result Page × World Cache → Type 0
  ListsEvents q w (r, w') =
      (r ≡ ok (page_of redis table (list_key 0 q) w.events))
      × Counts redis table w w'
      × IsFresh redis table w'.cache w.events
      × ((i : String) (f : Event)
          → get_event i w'.cache ≡ some (some f)
          → get_event i w.cache ≡ some (some f))

  page_of-version :
      (v : ℕ) (q : EventQuery) (w : World Cache)
      → page_of redis table (list_key v q) w.events ≡ page_of redis table (list_key 0 q) w.events
  unfolding page_of list_key
  page_of-version v q w = refl

  list_key_version : (v : ℕ) (q : EventQuery) → (list_key v q).version ≡ v
  unfolding list_key
  list_key_version v q = refl

  list_events-down :
      (q : EventQuery) (w : World Cache)
      → IsFresh redis table w.cache w.events
      → is_ready w.cache ≡ false
      → ListsEvents q w (list_events redis table q w)
  unfolding store_page
  list_events-down q w h down =
      let key = list_key w.list_version q in
      rw
        (
          list_events-miss q w w (refresh-down w down) (lookup_page-miss key w (inl down)) refl,
          down,
        )
        (ap ok (page_of-version w.list_version q w), (refl, omega arith), h, λ i f at. at)

  -- Where the page of the current version is not in the cache.
  list_events-fetch :
      (q : EventQuery) (w : World Cache)
      → IsFresh redis table w.cache w.events
      → is_ready w.cache ≡ true
      → get_version w.cache ≢ none
      → ((p : Page) → get_page (list_key (version w.cache) q) w.cache ≢ some (some p))
      → ListsEvents q w (list_events redis table q w)
  unfolding store_page
  list_events-fetch q w h ready answers gone =
      let w' : World Cache = record w { list_version = version w.cache } in
      let key = list_key (version w.cache) q in
      rw
        (
          list_events-miss q w w' (refresh_lem w ready answers) (lookup_page-miss key w' (inr gone))
              refl,
          ready,
        )
        (
          ap ok (page_of-version (version w.cache) q w),
          (refl, omega arith),
          IsFresh-set_page redis table key w.cache w.events (list_key_version (version w.cache) q)
              h,
          λ i f at. redis.set_page_event key (page_of redis table key w.events) i f w.cache at,
        )

  -- `listEvents` on a fresh cache, where Redis is unreachable or answers for the list version: it
  -- answers with the page that the table has for the query, counts one hit or one miss, writes no
  -- row, leaves the cache fresh, and brings no event into it.
  pub list_events-ListsEvents :
      (q : EventQuery) (w : World Cache)
      → IsFresh redis table w.cache w.events
      → get_version w.cache ≢ none
      → ListsEvents q w (list_events redis table q w)
  list_events-ListsEvents q w h answers = elim (Bool-cases (is_ready w.cache)) [
    | inr down ↦ list_events-down q w h down
    | inl ready ↦
        let w' : World Cache = record w { list_version = version w.cache } in
        let key = list_key (version w.cache) q in
        elim (Option-cases (get_page key w.cache)) [
          | inl failed ↦ list_events-fetch q w h ready answers (λ p at. ground arith)
          | inr (o, at) ↦ elim (Option-cases o) [
            | inl n ↦ list_events-fetch q w h ready answers (λ p there. ground arith)
            | inr (p, it) ↦
                let found : get_page key w.cache ≡ some (some p) = at ∙ ap some it in
                let current = (h.1 key p found).1 (list_key_version (version w.cache) q) in
                rw
                  (list_events-hit q w w' p (refresh_lem w ready answers)
                    (lookup_page-hit key w' p ready found))
                  (
                    ap ok (current ∙ page_of-version (version w.cache) q w),
                    (refl, omega arith),
                    h,
                    λ i f at. at,
                  )
          ]
        ]
  ]
