-- ===== src/Tests/Pages.antt =====
-- Pages of events from a table that takes and skips rows.
use eventify_backend_course.Common.{
  ◌≡◌, refl, arith, none, some, [], ◌∷◌, length, take, drop, those, ℕ,
}
use eventify_backend_course.Events.Table.{EventTable, EventWhereInput}
use eventify_backend_course.Events.Repository.{matches, list}
use eventify_backend_course.Events.Memory.{event_memory}
use eventify_backend_course.Events.Order.{IsOrdered}
use eventify_backend_course.Events.Paging.{matching, pages, pages-Perm}
use eventify_backend_course.Tests.Bookings.{event}
use mathlib.Core.List.{Perm, Pairwise-singleton}
use mathlib.Core.List.Perm

abbrev table : EventTable
table = record event_memory {
  event_find_many = λ test skip limit es. take limit (drop skip (those test es));
  event_count = λ test es. length (those test es);
}

abbrev any_event : EventWhereInput
any_event = record { venue = none; from = some 0; to = none }

pages-Perm_example :
    IsOrdered (pages table any_event (event ∷ []) 2 1)
    × Perm (pages table any_event (event ∷ []) 2 1) (matching table any_event (event ∷ []))
    × ((page : ℕ)
        → (list table page 2 any_event (event ∷ [])).1
          ≡ length (matching table any_event (event ∷ [])))
unfolding matches
pages-Perm_example =
    pages-Perm table any_event (event ∷ []) 2 1
      ((λ skip limit. (event ∷ [], Pairwise-singleton _ event, Perm.rfl, refl)), refl)
      (Pairwise-singleton _ event) (omega arith)
