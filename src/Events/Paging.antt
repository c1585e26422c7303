-- ===== src/Events/Paging.antt =====
-- Pages of the list of events: together they are all matching events.
use eventify_backend_course.Common.{
  ℕ, zero, suc, ◌+◌, ◌*◌, ◌-◌, ◌∙◌, length, take, drop, those, take-append-drop, take_all, ◌≡◌, ◌≤◌,
  refl, sym, subst, arith,
}
use eventify_backend_course.Store.{Event}
use eventify_backend_course.Events.Table.{EventTable, EventWhereInput}
use eventify_backend_course.Events.Repository.{matches, list}
use mathlib.Core.List.{List, [], ◌++◌, Perm}
use mathlib.Core.List.Perm
use native.Mathlib.Nat.{suc-mul}
use eventify_backend_course.Events.Order.{
  IsOrdered, IsDistinct, one_order, IsDistinct-Perm, length-Perm,
}

module _ (table : EventTable) (filters : EventWhereInput) (es : List Event) where
  open table use {event_find_many, event_count}

  -- The events that the filters let pass.
  abbrev pub matching : List Event
  matching = those (matches filters) es

  -- What Prisma answers: the rows of one order by time, from `skip` on, at most as many as asked;
  -- another query may have another order. And their number.
  abbrev pub IsServed : Type 0
  IsServed =
      ((skip limit : ℕ)
        → (o : List Event) × IsOrdered o
          × Perm o matching
          × (event_find_many (matches filters) skip limit es ≡ take limit (drop skip o)))
      × (event_count (matches filters) es ≡ length matching)

  -- The rows of the pages from 1 to `n`.
  abbrev pub pages : ℕ → ℕ → List Event
  pages limit zero = []
  pages limit (suc n) = pages limit n ++ (list table (suc n) limit filters es).0

  page_lem :
      (o : List Event)
      → IsServed
      → IsOrdered o
      → Perm o matching
      → IsDistinct matching
      → (limit n : ℕ) → (list table (suc n) limit filters es).0 ≡ take limit (drop (n * limit) o)
  unfolding list
  page_lem o served ordered perm distinct limit n =
      let (o', ordered', perm', is_rows) = served.0 (n * limit) limit in
      let same : o ≡ o' =
        one_order o o' ordered ordered' (IsDistinct-Perm matching o (Perm.symm perm) distinct)
          (Perm.trans perm (Perm.symm perm')) in
      let before : suc n - 1 ≡ n = omega arith in rw (before, is_rows, ← same) refl

  pages_lem :
      (o : List Event)
      → IsServed
      → IsOrdered o
      → Perm o matching
      → IsDistinct matching
      → (limit n : ℕ) → pages limit n ≡ take (n * limit) o
  pages_lem o served ordered perm distinct limit zero =
      let none_yet : 0 * limit ≡ 0 = omega arith in rw none_yet refl
  pages_lem o served ordered perm distinct limit (suc n) =
      let more : suc n * limit ≡ n * limit + limit = suc-mul n limit in
      rw
        (
          pages_lem o served ordered perm distinct limit n,
          page_lem o served ordered perm distinct limit n,
          more,
        )
        (take-append-drop (n * limit) limit o)

  -- Paging loses nothing and repeats nothing. Where no two matching events start at one time, and
  -- the pages are enough for all of them, the pages from the first on are together all matching
  -- events, each as often as it is in the table, ordered by time; and every page tells how many
  -- there are.
  pub pages-Perm :
      (limit n : ℕ)
      → IsServed
      → IsDistinct matching
      → length matching ≤ n * limit
      → IsOrdered (pages limit n)
        × Perm (pages limit n) matching
        × ((page : ℕ) → (list table page limit filters es).1 ≡ length matching)
  unfolding list
  pages-Perm limit n served distinct enough =
      let (o, ordered, perm, _) = served.0 0 0 in
      let all_rows : take (n * limit) o ≡ o =
        take_all (n * limit) o
          (subst (λ k. k ≤ n * limit) (sym (length-Perm o matching perm)) enough) in
      let same = sym (pages_lem o served ordered perm distinct limit n ∙ all_rows) in
      (subst IsOrdered same ordered, subst (λ l. Perm l matching) same perm, λ page. served.1)
