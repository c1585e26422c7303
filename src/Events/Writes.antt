-- ===== src/Events/Writes.antt =====
-- Updates and deletions of events: who may, what they write, and how they leave the cache.
use eventify_backend_course.Common.{
  ℕ, String, Option-cases, ◌≢◌, ◌∙◌, sym, ◌≡◌, inl, inr, refl, ap, some, arith, find, List,
}
use eventify_backend_course.Store.{Event, Actor}
use eventify_backend_course.Events.Cache.{Redis, IsUp}
use eventify_backend_course.Events.Table.{EventTable, EventUpdateInput, is_event, row_at, without}
use eventify_backend_course.Events.Repository.{updated, update, remove}
use eventify_backend_course.Events.Service.{World, update_event, delete_event}
use eventify_backend_course.Events.Fresh.{
  IsFresh, find-change_other, find-change_self, find-without_other, updated_id,
}
use eventify_backend_course.Events.Modify.{
  Answers, Keeps, Leaves, IsAlone, Leaves-IsFresh, WritesRow, modify-Answers,
}

module _ (redis : Redis) (table : EventTable) (up : IsUp redis) where
  open redis use {Cache}

  -- A call that keeps every row but `n` keeps the rows of the other uuids.
  named-Keeps :
      (id : String) (n : ℕ) (es es' : List Event)
      → table.uuid id ≡ some n
      → ((m : ℕ) → m ≢ n → find (is_event m) es' ≡ find (is_event m) es)
      → Keeps redis table up id es es'
  named-Keeps id n es es' names others i ne = elim (Option-cases (table.uuid i)) [
    | inl bad ↦ rw bad refl
    | inr (m, is_m) ↦ rw is_m (others m (λ same. ne (is_m ∙ ap (λ k. some k) same ∙ sym names)))
  ]

  -- The row of a uuid is the row that its text names.
  same_row :
      (id : String) (n : ℕ) (es : List Event) (f g : Event)
      → table.uuid id ≡ some n
      → find (is_event n) es ≡ some f
      → row_at table id es ≡ some g
      → f ≡ g
  same_row id n es f g names row there =
      let there' : find (is_event n) es ≡ some g = rw names at there in
      let one : some f ≡ some g = sym row ∙ there' in ground arith

  abbrev pub Updates : String → EventUpdateInput → Event → Event → List Event → Type 0
  Updates id input f e es' = (e ≡ updated input f) × (row_at table id es' ≡ some e)

  abbrev pub Deletes : String → List Event → Event → Event → List Event → Type 0
  Deletes id es f e es' = (e ≡ f) × (n : ℕ) × (table.uuid id ≡ some n) × (es' ≡ without n es)

  update-WritesRow :
      (id : String) (input : EventUpdateInput) (es : List Event)
      → WritesRow redis table up id (Updates id input) es (update table id input es)
  unfolding update
  update-WritesRow id input es = elim (table.event_update_lem id (updated input) es) [
    | inl (x, failed) ↦ rw failed refl
    | inr (n, f, names, row, done) ↦ rw done (
      (λ g there. (
        ap (updated input) (same_row id n es f g names row there),
        rw names (find-change_self n (updated input) es f (updated_id input) row),
      )),
      named-Keeps id n es _ names
          (λ m ne. find-change_other m n (updated input) es (updated_id input) ne),
    )
  ]

  remove-WritesRow :
      (id : String) (es : List Event)
      → WritesRow redis table up id (Deletes id es) es (remove table id es)
  unfolding remove
  remove-WritesRow id es = elim (table.event_delete_lem id es) [
    | inl (x, failed) ↦ rw failed refl
    | inr (n, f, names, row, done) ↦ rw done (
      (λ g there. (same_row id n es f g names row there, n, names, refl)),
      named-Keeps id n es _ names (λ m ne. find-without_other m n es ne),
    )
  ]

  pub update_event_lem :
      (id : String) (input : EventUpdateInput) (actor : Actor) (w : World Cache)
      → IsFresh redis table w.cache w.events
      → let r = update_event redis table id input actor w in
        Answers redis table up id actor (Updates id input) w r × Leaves redis table up id w r
  unfolding update_event
  update_event_lem id input actor w h =
      modify-Answers redis table up id actor _ (update table id input) w h
        (update-WritesRow id input w.events)

  pub delete_event_lem :
      (id : String) (actor : Actor) (w : World Cache)
      → IsFresh redis table w.cache w.events
      → let r = delete_event redis table id actor w in
        Answers redis table up id actor (Deletes id w.events) w r × Leaves redis table up id w r
  unfolding delete_event
  delete_event_lem id actor w h =
      modify-Answers redis table up id actor _ (remove table id) w h (remove-WritesRow id w.events)

  -- `updateEvent` on a fresh cache that carries out every command and has the event under no other
  -- text of its uuid. Without a row it answers with the 404, or with the error of the database for an
  -- id that is no uuid; with 403 for an actor who is neither the event's organizer nor an admin; and
  -- on every error no row changes. Otherwise the answer is the row with the given fields, which is
  -- the event's row afterwards. The cache is fresh afterwards on every branch.
  pub update_event-Answers :
      (id : String) (input : EventUpdateInput) (actor : Actor) (w : World Cache)
      → IsFresh redis table w.cache w.events
      → IsAlone redis table up id w.cache
      → let (r, w') = update_event redis table id input actor w in
        Answers redis table up id actor (Updates id input) w (r, w')
        × IsFresh redis table w'.cache w'.events
  update_event-Answers id input actor w h alone =
      let (r, w') = update_event redis table id input actor w in
      let (done, left) = update_event_lem id input actor w h in
      (done, Leaves-IsFresh redis table up id actor (Updates id input) w r w' alone done left)

  -- `deleteEvent` on a fresh cache that carries out every command and has the event under no other
  -- text of its uuid. Without a row it answers with the 404, or with the error of the database for an
  -- id that is no uuid; with 403 for an actor who is neither the event's organizer nor an admin; and
  -- on every error no row changes. Otherwise the answer is the row, and it alone is gone. The cache is
  -- fresh afterwards on every branch.
  pub delete_event-Answers :
      (id : String) (actor : Actor) (w : World Cache)
      → IsFresh redis table w.cache w.events
      → IsAlone redis table up id w.cache
      → let (r, w') = delete_event redis table id actor w in
        Answers redis table up id actor (Deletes id w.events) w (r, w')
        × IsFresh redis table w'.cache w'.events
  delete_event-Answers id actor w h alone =
      let (r, w') = delete_event redis table id actor w in
      let (done, left) = delete_event_lem id actor w h in
      (done, Leaves-IsFresh redis table up id actor (Deletes id w.events) w r w' alone done left)
