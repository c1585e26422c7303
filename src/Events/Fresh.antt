-- ===== src/Events/Fresh.antt =====
-- When the cache is fresh: an entry of an event is the row of the table, and a page of the current
-- list version is what the table has for it. What each primitive of the cache keeps of that.
use eventify_backend_course.Common.{
  ℕ, String, ◌≤◌, ◌<◌, ◌≡◌, ◌≢◌, inl, inr, refl, some, true, List, [], ◌∷◌, arith, find, change,
}
use eventify_backend_course.Store.{Event}
use eventify_backend_course.Events.Cache.{Redis, ListKey, Page}
use eventify_backend_course.Events.Table.{EventTable, is_event, row_at, without, EventUpdateInput}
use eventify_backend_course.Events.Repository.{updated}
use eventify_backend_course.Events.Service.{page_of}

module _ (redis : Redis) where
  open redis use {Cache, get_event, get_page, version, set_event, set_page, del_event, incr_version}

  -- No page is of the current version.
  abbrev pub PagesOld : Cache → Type 0
  PagesOld c = (k : ListKey) (p : Page) → get_page k c ≡ some (some p) → k.version < version c

  module _ (table : EventTable) where
    abbrev pub EventsFresh : Cache → List Event → Type 0
    EventsFresh c es =
        (i : String) (e : Event) → get_event i c ≡ some (some e) → row_at table i es ≡ some e

    abbrev pub PagesFresh : Cache → List Event → Type 0
    PagesFresh c es =
        (k : ListKey) (p : Page)
        → get_page k c ≡ some (some p)
        → (k.version ≤ version c) × (k.version ≡ version c → p ≡ page_of redis table k es)

    abbrev pub IsFresh : Cache → List Event → Type 0
    IsFresh c es = EventsFresh c es × PagesFresh c es

    pub IsFresh-old : (c : Cache) (es : List Event) → EventsFresh c es → PagesOld c → IsFresh c es
    IsFresh-old c es h old =
        (h, λ k p e. let lt = old k p e in (omega arith, λ same. absurd (omega arith)))

    pub IsFresh-set_event :
        (id : String) (e : Event) (c : Cache) (es : List Event)
        → row_at table id es ≡ some e
        → IsFresh c es
        → IsFresh (set_event id e c).1 es
    IsFresh-set_event id e c es row (h, g) = (
      (λ i f at. elim (redis.set_event_event id i e f c at) [
        | inl (same, it) ↦ rw (same, it) row
        | inr before ↦ h i f before
      ]),
      (λ k p at. rw (redis.set_event_version id e c) (g k p (redis.set_event_page id e k p c at))),
    )

    pub IsFresh-set_page :
        (k : ListKey) (c : Cache) (es : List Event)
        → k.version ≡ version c
        → IsFresh c es
        → IsFresh (set_page k (page_of redis table k es) c).1 es
    IsFresh-set_page k c es now (h, g) = (
      (λ i f at. h i f (redis.set_page_event k (page_of redis table k es) i f c at)),
      (λ j p at.
          rw (redis.set_page_version k (page_of redis table k es) c)
            elim (redis.set_page_page k j (page_of redis table k es) p c at) [
              | inl (same, it) ↦ rw (same) (omega (arith, now), λ _. it)
              | inr before ↦ g j p before
            ]),
    )

    pub incr_version-PagesOld :
        (c : Cache) (es : List Event)
        → (incr_version c).0 ≡ true
        → PagesFresh c es
        → PagesOld (incr_version c).1
    incr_version-PagesOld c es up g k p at =
        let (le, _) = g k p (redis.incr_version_page k p c at) in
        let next = redis.incr_version_lem c up in omega arith

    pub del_event-PagesFresh :
        (id : String) (c : Cache) (es : List Event)
        → PagesFresh c es
        → PagesFresh (del_event id c).1 es
    del_event-PagesFresh id c es g k p at =
        rw (redis.del_event_version id c) (g k p (redis.del_event_page id k p c at))

-- The rows other than the one that a write goes to.
pub find-change_other :
    (i id : ℕ) (f : Event → Event) (es : List Event)
    → ((e : Event) → (f e).id ≡ e.id)
    → i ≢ id
    → find (is_event i) (change (is_event id) f es) ≡ find (is_event i) es
find-change_other i id f [] same ne = refl
find-change_other i id f (e ∷ es) same ne =
    ground (arith, same e, find-change_other i id f es same ne)

pub find-change_self :
    (id : ℕ) (f : Event → Event) (es : List Event) (e : Event)
    → ((e : Event) → (f e).id ≡ e.id)
    → find (is_event id) es ≡ some e
    → find (is_event id) (change (is_event id) f es) ≡ some (f e)
find-change_self id f [] e same row = cc
find-change_self id f (d ∷ es) e same row = ground (arith, same d, find-change_self id f es e same)

pub find-without_other :
    (i id : ℕ) (es : List Event) → i ≢ id → find (is_event i) (without id es) ≡ find (is_event i) es
find-without_other i id [] ne = refl
find-without_other i id (e ∷ es) ne = ground (arith, find-without_other i id es ne)

pub updated_id : (input : EventUpdateInput) (e : Event) → (updated input e).id ≡ e.id
unfolding updated
updated_id input e = refl
