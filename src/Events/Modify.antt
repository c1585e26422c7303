-- ===== src/Events/Modify.antt =====
-- The part that updates and deletions of events share: the read, the guard, the invalidation and
-- the write of one row.
use eventify_backend_course.Common.{
  ℕ, String, Option, ◌≡◌, ◌≢◌, ◌⊎◌, inl, inr, refl, ◌∙◌, ap, sym, subst, none, some, arith,
  Bool-cases, List, ◌==◌,
}
use eventify_backend_course.Errors.{Thrown, Result, ok, err, >>=_ok, >>=_err, Action, ◌>>=◌, ◌>>◌}
use eventify_backend_course.Store.{Event, Actor}
use eventify_backend_course.Events.Cache.{Redis, IsUp}
use eventify_backend_course.Events.Table.{EventTable, row_at, IsMissing}
use eventify_backend_course.Events.Service.{
  World, event_not_found, may_not_modify, assert_can_modify, invalidate_event, on_events,
  get_event_by_id,
}
use eventify_backend_course.Events.Fresh.{
  EventsFresh, PagesOld, IsFresh, IsFresh-old, incr_version-PagesOld, del_event-PagesFresh,
}
use eventify_backend_course.Events.Reads.{Adds, GetsEvent, get_event_by_id-GetsEvent}
use eventify_backend_course.Events.Guard.{MayModify, assert_can_modify-cases}

module _ (redis : Redis) (table : EventTable) (up : IsUp redis) where
  open redis use {Cache, get_event, is_ready, del_event, incr_version}

  -- The world after the invalidation of the event `id`.
  abbrev pub invalidated : String → World Cache → World Cache
  invalidated id w = record w { cache = (incr_version (del_event id w.cache).1).1 }

  invalidate_lem :
      (id : String) (w : World Cache) → invalidate_event redis id w ≡ (ok tt, invalidated id w)
  unfolding invalidate_event
  invalidate_lem id w = rw (up.ready w.cache, up.deletes id w.cache) refl

  -- No entry of the event, fresh entries of the others, and no page of the current version.
  abbrev IsInvalidated : String → Cache → List Event → Type 0
  IsInvalidated id c es =
      ((f : Event) → get_event id c ≢ some (some f))
      × EventsFresh redis table c es
      × PagesOld redis c

  invalidated-IsInvalidated :
      (id : String) (w : World Cache)
      → IsFresh redis table w.cache w.events
      → IsInvalidated id (invalidated id w).cache w.events
  invalidated-IsInvalidated id w (h, g) =
      let c = (del_event id w.cache).1 in
      (
        (λ f at.
            redis.del_event_self id f w.cache (up.deletes id w.cache)
              (redis.incr_version_event id f c at)),
        (λ i f at.
            h i f (redis.del_event_event id i f w.cache (redis.incr_version_event i f c at))),
        incr_version-PagesOld redis table c w.events (up.counts c)
            (del_event-PagesFresh redis table id w.cache w.events g),
      )

  -- The part that `updateEvent` and `deleteEvent` share, before their write.
  abbrev pub modify : String → Actor → Action (World Cache) Event → Action (World Cache) Event
  modify id actor write = do
    event ← get_event_by_id redis table id
    assert_can_modify event actor
    invalidate_event redis id
    write

  -- It refuses with a fresh cache and the rows as they were, or it writes after invalidating.
  abbrev Modifies : String → Actor → Action (World Cache) Event → World Cache → Type 0
  Modifies id actor write w =
      (w' : World Cache) × (w'.events ≡ w.events)
      × Adds redis table id w.cache w'.cache
      × (((row_at table id w.events ≡ none)
            × ((x : Thrown) × IsMissing table id event_not_found x
                × (modify id actor write w ≡ (err x, w')))
            × IsFresh redis table w'.cache w.events)
          ⊎ ((e : Event) × (row_at table id w.events ≡ some e)
              × ((¬ MayModify e actor)
                    × (modify id actor write w ≡ (err may_not_modify, w'))
                    × IsFresh redis table w'.cache w.events
                  ⊎ (MayModify e actor)
                    × (modify id actor write w ≡ write w')
                    × IsInvalidated id w'.cache w.events)))

  GetsEvent-Modifies :
      (id : String) (actor : Actor) (write : Action (World Cache) Event) (w w1 : World Cache)
      (r : Result Event)
      → get_event_by_id redis table id w ≡ (r, w1)
      → GetsEvent redis table id w (r, w1)
      → Modifies id actor write w
  GetsEvent-Modifies id actor write w w1 (err e) got (gone, missing, (same, _), fresh, adds) = (
    w1,
    same,
    adds,
    inl (gone, (e, missing, rw (>>=_err (get_event_by_id redis table id) _ w got) refl), fresh),
  )
  GetsEvent-Modifies id actor write w w1 (ok e) got (row, (same, _), fresh, adds) =
      elim (assert_can_modify-cases e actor w1) [
        | inl (passed, may) ↦ (
          invalidated id w1,
          same,
          (λ i f at.
              let c = (del_event id w1.cache).1 in
              adds i f (redis.del_event_event id i f w1.cache (redis.incr_version_event i f c at))),
          inr (
            e,
            row,
            inr (
              may,
              rw
                  (
                    >>=_ok (get_event_by_id redis table id) _ w got,
                    >>=_ok (assert_can_modify e actor) _ w1 passed,
                    >>=_ok (invalidate_event redis id) _ w1 (invalidate_lem id w1),
                  )
                  refl,
              subst (IsInvalidated id (invalidated id w1).cache) same (
                  invalidated-IsInvalidated id w1
                    (subst (IsFresh redis table w1.cache) (sym same) fresh)),
            ),
          ),
        )
        | inr (refused, may_not) ↦ (
          w1,
          same,
          adds,
          inr (
            e,
            row,
            inl (
              may_not,
              rw
                  (
                    >>=_ok (get_event_by_id redis table id) _ w got,
                    >>=_err (assert_can_modify e actor) _ w1 refused,
                  )
                  refl,
              fresh,
            ),
          ),
        )
      ]

  modify-Modifies :
      (id : String) (actor : Actor) (write : Action (World Cache) Event) (w : World Cache)
      → IsFresh redis table w.cache w.events
      → Modifies id actor write w
  modify-Modifies id actor write w h =
      let (r, w1) = get_event_by_id redis table id w in
      GetsEvent-Modifies id actor write w w1 r refl (get_event_by_id-GetsEvent redis table id w h)

  -- What a write of the event `id` answers: where it is not there, the 404, or the error of the
  -- database for a text that is no uuid; 403 where the actor may not; the error of the database with
  -- no row changed; or what `Writes` says. No entry of another text comes into the cache.
  abbrev pub Answers :
      String
      → Actor
      → (Event → Event → List Event → Type 0)
      → World Cache
      → Result Event × World Cache
      → Type 0
  Answers id actor Writes w (err e, w') =
      (w'.events ≡ w.events)
      × (row_at table id w.events ≡ none → IsMissing table id event_not_found e)
      × ((f : Event) → row_at table id w.events ≡ some f → ¬ MayModify f actor → e ≡ may_not_modify)
      × Adds redis table id w.cache w'.cache
  Answers id actor Writes w (ok e, w') =
      ((f : Event) × (row_at table id w.events ≡ some f) × MayModify f actor × Writes f e w'.events)
      × Adds redis table id w.cache w'.cache

  -- The rows that other uuids name stay.
  abbrev pub Keeps : String → List Event → List Event → Type 0
  Keeps id es es' =
      (i : String) → table.uuid i ≢ table.uuid id → row_at table i es' ≡ row_at table i es

  -- How it leaves the cache: fresh, or, after a write, with no entry of the text `id` and no page of
  -- the current version, where the other entries are the rows before the write.
  abbrev pub Leaves : String → World Cache → Result Event × World Cache → Type 0
  Leaves id w (err e, w') = IsFresh redis table w'.cache w'.events
  Leaves id w (ok e, w') = IsInvalidated id w'.cache w.events × Keeps id w.events w'.events

  -- The cache has the event under no other text.
  abbrev pub IsAlone : String → Cache → Type 0
  IsAlone id c =
      (i : String) (f : Event)
      → get_event i c ≡ some (some f)
      → table.uuid i ≡ table.uuid id
      → i ≡ id

  uuid-cases : (a b : Option ℕ) → (a ≡ b) ⊎ (a ≢ b)
  uuid-cases none none = inl refl
  uuid-cases none (some n) = inr (λ e. cc)
  uuid-cases (some m) none = inr (λ e. cc)
  uuid-cases (some m) (some n) = elim (Bool-cases (m == n)) [
    | inl same ↦ inl (ap (λ k. some k) (ground arith))
    | inr other ↦ inr (λ e. ground arith)
  ]

  pub Leaves-IsFresh :
      (id : String) (actor : Actor) (Writes : Event → Event → List Event → Type 0) (w : World Cache)
      (r : Result Event) (w' : World Cache)
      → IsAlone id w.cache
      → Answers id actor Writes w (r, w')
      → Leaves id w (r, w')
      → IsFresh redis table w'.cache w'.events
  Leaves-IsFresh id actor Writes w (err e) w' alone done fresh = fresh
  Leaves-IsFresh id actor Writes w (ok e) w' alone (done, adds) ((gone, h, old), others) =
      IsFresh-old redis table w'.cache w'.events
        (λ i f at. elim (adds i f at) [
          | inl same ↦ absurd (gone f (subst (λ j. get_event j w'.cache ≡ some (some f)) same at))
          | inr before ↦ elim (uuid-cases (table.uuid i) (table.uuid id)) [
            | inl named ↦
                let same = alone i f before named in
                absurd (gone f (subst (λ j. get_event j w'.cache ≡ some (some f)) same at))
            | inr other ↦ others i other ∙ h i f at
          ]
        ])
        old

  -- A call on the table that fails and changes nothing, or answers and changes only the row `id`.
  abbrev pub WritesRow :
      String
      → (Event → Event → List Event → Type 0)
      → List Event
      → Result Event × List Event
      → Type 0
  WritesRow id Writes es (err e, es') = es' ≡ es
  WritesRow id Writes es (ok e, es') =
      ((f : Event) → row_at table id es ≡ some f → Writes f e es') × Keeps id es es'

  finish-Answers :
      (id : String) (actor : Actor) (Writes : Event → Event → List Event → Type 0) (w : World Cache)
      (e : Event) (r : Result Event) (es' : List Event) (w' : World Cache)
      → row_at table id w.events ≡ some e
      → MayModify e actor
      → w'.events ≡ w.events
      → Adds redis table id w.cache w'.cache
      → IsInvalidated id w'.cache w.events
      → WritesRow id Writes w.events (r, es')
      → Answers id actor Writes w (r, record w' { events = es' })
        × Leaves id w (r, record w' { events = es' })
  finish-Answers id actor Writes w e (err x) es' w' row may same adds (gone, h, old) kept = (
    (
      kept,
      (λ lost. let none_some : none ≡ some e = sym lost ∙ row in cc),
      (λ f there may_not.
          let one : some f ≡ some e = sym there ∙ row in
          let same : f ≡ e = ground arith in
          absurd (may_not (subst (λ g. MayModify g actor) (sym same) may))),
      adds,
    ),
    subst (IsFresh redis table w'.cache) (sym kept)
        (IsFresh-old redis table w'.cache w.events h old),
  )
  finish-Answers id actor Writes w e (ok x) es' w' row may same adds inv (written, others) =
      (((e, row, may, written e row), adds), (inv, others))

  pub modify-Answers :
      (id : String) (actor : Actor) (Writes : Event → Event → List Event → Type 0)
      (call : List Event → Result Event × List Event) (w : World Cache)
      → IsFresh redis table w.cache w.events
      → WritesRow id Writes w.events (call w.events)
      → Answers id actor Writes w (modify id actor (on_events call) w)
        × Leaves id w (modify id actor (on_events call) w)
  modify-Answers id actor Writes call w h row =
      let (w', same, adds, cases) = modify-Modifies id actor (on_events call) w h in
      elim cases [
        | inl (gone, (x, missing, is_x), fresh) ↦ rw is_x (
          (
            same,
            (λ _. missing),
            (λ f there may_not. let none_some : none ≡ some f = sym gone ∙ there in cc),
            adds,
          ),
          rw same fresh,
        )
        | inr (e, there, rest) ↦ elim rest [
          | inl (may_not, is_403, fresh) ↦ rw is_403 (
            (
              same,
              (λ gone. let none_some : none ≡ some e = sym gone ∙ there in cc),
              (λ f _ _. refl),
              adds,
            ),
            rw same fresh,
          )
          | inr (may, writes, inv) ↦
              rw (writes, same)
                (finish-Answers id actor Writes w e (call w.events).0 (call w.events).1 w' there may
                  same adds inv row)
        ]
      ]
