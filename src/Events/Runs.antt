-- ===== src/Events/Runs.antt =====
-- Runs of calls, one after the other, with entries that expire in between.
use eventify_backend_course.Common.{
  String, ◌∙◌, ◌++◌, ◌∷◌, [], sym, subst, none, Option-cases, ℕ, ◌≡◌, inl, inr, some, List,
  find-append_some,
}
use eventify_backend_course.Errors.{Result, ok, err}
use eventify_backend_course.Store.{Event, Actor}
use eventify_backend_course.Events.Cache.{Redis, ListKey, Page, IsUp}
use eventify_backend_course.Events.Table.{
  EventTable, EventCreateInput, EventUpdateInput, is_event, row_at,
}
use eventify_backend_course.Events.Repository.{created, create}
use eventify_backend_course.Events.Service.{
  World, EventQuery, get_event_by_id, list_events, create_event, update_event, delete_event,
}
use eventify_backend_course.Events.Fresh.{IsFresh, IsFresh-old, incr_version-PagesOld}
use eventify_backend_course.Events.Reads.{Adds, GetsEvent, get_event_by_id-GetsEvent}
use eventify_backend_course.Events.Lists.{ListsEvents, list_events-ListsEvents}
use eventify_backend_course.Events.Modify.{Answers, IsAlone}
use eventify_backend_course.Events.Creation.{create_event-err, create_event-ok}
use eventify_backend_course.Events.Writes.{update_event-Answers, delete_event-Answers}

module _ (redis : Redis) (table : EventTable) (spell : ℕ → String) where
  open redis use {Cache, get_event, get_page, version, incr_version}

  -- Every entry of the second cache is one of the first.
  abbrev pub Loses : Cache → Cache → Type 0
  Loses c c' =
      ((i : String) (e : Event) → get_event i c' ≡ some (some e) → get_event i c ≡ some (some e))
      × ((k : ListKey) (p : Page) → get_page k c' ≡ some (some p) → get_page k c ≡ some (some p))
      × (version c' ≡ version c)

  -- The text is the one in which the clients write its uuid, if it writes one.
  abbrev pub IsSpelled : String → Type 0
  IsSpelled id = (n : ℕ) → table.uuid id ≡ some n → id ≡ spell n

  -- Every entry of an event is under such a text.
  abbrev pub AllSpelled : Cache → Type 0
  AllSpelled c = (i : String) (f : Event) → get_event i c ≡ some (some f) → IsSpelled i

  -- One call, or the expiry of entries.
  pub data Step (w : World Cache) : World Cache → Type 0 where
    gets : (id : String) → IsSpelled id → Step w (get_event_by_id redis table id w).1
    lists : (q : EventQuery) → Step w (list_events redis table q w).1
    creates : (input : EventCreateInput) → Step w (create_event redis table input w).1
    updates :
        (id : String) (input : EventUpdateInput) (actor : Actor)
        → IsSpelled id
        → Step w (update_event redis table id input actor w).1
    deletes :
        (id : String) (actor : Actor)
        → IsSpelled id
        → Step w (delete_event redis table id actor w).1
    expires : (c : Cache) → Loses w.cache c → Step w (record w { cache = c })

  pub data Reach (w : World Cache) : World Cache → Type 0 where
    start : Reach w w
    next : {v v' : World Cache} → Reach w v → Step v v' → Reach w v'

  abbrev pub Fresh : World Cache → Type 0
  Fresh w = IsFresh redis table w.cache w.events × AllSpelled w.cache

  Adds-AllSpelled :
      (id : String) (c c' : Cache)
      → IsSpelled id
      → AllSpelled c
      → Adds redis table id c c'
      → AllSpelled c'
  Adds-AllSpelled id c c' spelled all adds i f at = elim (adds i f at) [
    | inl same ↦ subst IsSpelled (sym same) spelled
    | inr before ↦ all i f before
  ]

  -- So an event is in the cache under one text only.
  spelled-IsAlone :
      (up : IsUp redis) (id : String) (w : World Cache)
      → IsSpelled id
      → Fresh w
      → IsAlone redis table up id w.cache
  spelled-IsAlone up id w spelled (fresh, all) i f at same = elim (Option-cases (table.uuid i)) [
    | inl bad ↦ let none_some : none ≡ some f = rw bad at (fresh.0 i f at) in cc
    | inr (n, names) ↦ all i f at n names ∙ sym (spelled n (sym same ∙ names))
  ]

  gets-Fresh :
      (id : String) (w w' : World Cache) (r : Result Event)
      → IsSpelled id
      → Fresh w
      → GetsEvent redis table id w (r, w')
      → Fresh w'
  gets-Fresh id w w' (ok e) spelled (_, all) (row, (same, _), fresh, adds) =
      (rw same fresh, Adds-AllSpelled id w.cache w'.cache spelled all adds)
  gets-Fresh id w w' (err e) spelled (_, all) (gone, missing, (same, _), fresh, adds) =
      (rw same fresh, Adds-AllSpelled id w.cache w'.cache spelled all adds)

  writes-Fresh :
      (up : IsUp redis) (id : String) (actor : Actor) (Writes : Event → Event → List Event → Type 0)
      (w w' : World Cache) (r : Result Event)
      → IsSpelled id
      → Fresh w
      → Answers redis table up id actor Writes w (r, w') × IsFresh redis table w'.cache w'.events
      → Fresh w'
  writes-Fresh up id actor Writes w w' (ok e) spelled (_, all) ((done, adds), fresh) =
      (fresh, Adds-AllSpelled id w.cache w'.cache spelled all adds)
  writes-Fresh up id actor Writes w w' (err e) spelled (_, all) ((_, _, _, adds), fresh) =
      (fresh, Adds-AllSpelled id w.cache w'.cache spelled all adds)

  row_at-append :
      (i : String) (es : List Event) (f e : Event)
      → row_at table i es ≡ some e
      → row_at table i (es ++ f ∷ []) ≡ some e
  row_at-append i es f e row = elim (Option-cases (table.uuid i)) [
    | inl bad ↦ let none_some : none ≡ some e = rw bad at row in cc
    | inr (n, names) ↦ rw names (find-append_some (is_event n) es (f ∷ []) e (rw names at row))
  ]

  pub create_event-Fresh :
      IsUp redis
      → (input : EventCreateInput) (w : World Cache) → Fresh w
      → Fresh (create_event redis table input w).1
  unfolding create
  create_event-Fresh up input w ((h, g), all) =
      elim (table.event_create_lem (created input) w.events) [
        | inl (x, failed) ↦ rw (create_event-err redis table input w x failed) ((h, g), all)
        | inr done ↦ rw (create_event-ok redis table up input w _ _ done) (
          IsFresh-old redis table (incr_version w.cache).1 _
              (λ i e at.
                row_at-append i w.events _ e (h i e (redis.incr_version_event i e w.cache at)))
              (incr_version-PagesOld redis table w.cache w.events (up.counts w.cache) g),
          λ i e at. all i e (redis.incr_version_event i e w.cache at),
        )
      ]

  expires-Fresh :
      (w : World Cache) (c : Cache) → Loses w.cache c → Fresh w → Fresh (record w { cache = c })
  expires-Fresh w c (events, pages, same) ((h, g), all) = (
    ((λ i e at. h i e (events i e at)), (λ k p at. rw same (g k p (pages k p at)))),
    λ i e at. all i e (events i e at),
  )

  Step-Fresh : IsUp redis → (w w' : World Cache) → Step w w' → Fresh w → Fresh w'
  Step-Fresh up w _ (gets id spelled) h =
      let (r, w') = get_event_by_id redis table id w in
      gets-Fresh id w w' r spelled h (get_event_by_id-GetsEvent redis table id w h.0)
  Step-Fresh up w _ (lists q) h =
      let (_, (same, _), fresh, kept) =
        list_events-ListsEvents redis table q w h.0 (up.answers w.cache) in
      (rw same fresh, λ i e at. h.1 i e (kept i e at))
  Step-Fresh up w _ (creates input) h = create_event-Fresh up input w h
  Step-Fresh up w _ (updates id input actor spelled) h =
      let (r, w') = update_event redis table id input actor w in
      writes-Fresh up id actor _ w w' r spelled h (
        update_event-Answers redis table up id input actor w h.0
          (spelled-IsAlone up id w spelled h))
  Step-Fresh up w _ (deletes id actor spelled) h =
      let (r, w') = delete_event redis table id actor w in
      writes-Fresh up id actor _ w w' r spelled h
        (delete_event-Answers redis table up id actor w h.0 (spelled-IsAlone up id w spelled h))
  Step-Fresh up w _ (expires c loses) h = expires-Fresh w c loses h

  Reach-Fresh : IsUp redis → (w w' : World Cache) → Fresh w → Reach w w' → Fresh w'
  Reach-Fresh up w _ h start = h
  Reach-Fresh up w _ h (next {v} {v'} r step) = Step-Fresh up v v' step (Reach-Fresh up w v h r)

  -- The cache never shows, as long as the clients write each uuid as one text: after any run of
  -- reads, creations, updates and deletions of events by such texts, one call after the other, and
  -- of entries that expire, from a fresh cache that carries out every command and has events under
  -- such texts only, each get, by any text, answers with the row of the table that the text names,
  -- with the 404 where there is none, or with the error of the database where the text is no uuid;
  -- and each list answers with the page that the table has for the query.
  pub Reach-IsTransparent :
      IsUp redis
      → (w w' : World Cache) → IsFresh redis table w.cache w.events
      → AllSpelled w.cache
      → Reach w w'
      → ((id : String) → GetsEvent redis table id w' (get_event_by_id redis table id w'))
        × ((q : EventQuery) → ListsEvents redis table q w' (list_events redis table q w'))
  Reach-IsTransparent up w w' h all run =
      let fresh : Fresh w' = Reach-Fresh up w w' (h, all) run in
      (
        (λ id. get_event_by_id-GetsEvent redis table id w' fresh.0),
        (λ q. list_events-ListsEvents redis table q w' fresh.0 (up.answers w'.cache)),
      )
