-- ===== src/Seed/Settles.antt =====
-- Actions that settle: they return, keep every row that can be looked up, and do nothing when they
-- run again.
use eventify_backend_course.Common.{
  ℕ, ◌≡◌, refl, ◌∙◌, ap, inl, inr, String, Bool, true, none, some, List, [], ◌∷◌, ◌++◌, arith, find,
  Option-cases, str_eq_iff, find-append_some, find-append_none, ==_refl,
}
use eventify_backend_course.Errors.{ok, Action, pure, ◌>>=◌, >>=_ok}
use eventify_backend_course.Store.{User, Event, Booking, Role, Store, is_of}
use eventify_backend_course.Prisma.{new_booking}
use eventify_backend_course.Store.{confirmed}
use eventify_backend_course.Seed.Upserts.{Upserts, has_email, is_user, is_event}
use eventify_backend_course.Seed.Script.{upsert_user, upsert_event, upsert_booking, user_row}

-- What can be looked up in the first store is found in the second.
abbrev pub Extends : Store → Store → Type 0
Extends s t =
    ((email : String) (u : User)
      → find (has_email email) s.users ≡ some u
      → find (has_email email) t.users ≡ some u)
    × ((id : ℕ) (u : User)
        → find (is_user id) s.users ≡ some u
        → find (is_user id) t.users ≡ some u)
    × ((id : ℕ) (e : Event)
        → find (is_event id) s.events ≡ some e
        → find (is_event id) t.events ≡ some e)
    × ((user_id event_id : ℕ) (b : Booking)
        → find (is_of user_id event_id) s.bookings ≡ some b
        → find (is_of user_id event_id) t.bookings ≡ some b)

pub Extends-refl : (s : Store) → Extends s s
Extends-refl s = ((λ k u e. e), (λ k u e. e), (λ k e f. f), (λ i j b e. e))

pub Extends-trans : (s t u : Store) → Extends s t → Extends t u → Extends s u
Extends-trans s t u (a, b, c, d) (a', b', c', d') = (
  (λ k v e. a' k v (a k v e)),
  (λ k v e. b' k v (b k v e)),
  (λ k v e. c' k v (c k v e)),
  (λ i j v e. d' i j v (d i j v e)),
)

abbrev pub HasUser : ℕ → Store → Type 0
HasUser id s = (u : User) × (find (is_user id) s.users ≡ some u)

abbrev pub HasEvent : ℕ → Store → Type 0
HasEvent id s = (e : Event) × (find (is_event id) s.events ≡ some e)

-- The user with that address.
abbrev pub IsUserOf : String → User → Store → Type 0
IsUserOf email u s = (find (has_email email) s.users ≡ some u) × HasUser u.id s

abbrev pub HasBooking : ℕ → ℕ → Store → Type 0
HasBooking user_id event_id s = (b : Booking) × (find (is_of user_id event_id) s.bookings ≡ some b)

pub IsUserOf-Extends :
    (email : String) (u : User) (s t : Store)
    → Extends s t
    → IsUserOf email u s
    → IsUserOf email u t
IsUserOf-Extends email u s t ext (there, (v, e)) = (ext.0 email u there, (v, ext.1 u.id v e))

pub HasUser-Extends : (id : ℕ) (s t : Store) → Extends s t → HasUser id s → HasUser id t
HasUser-Extends id s t ext (u, e) = (u, ext.1 id u e)

pub HasEvent-Extends : (id : ℕ) (s t : Store) → Extends s t → HasEvent id s → HasEvent id t
HasEvent-Extends id s t ext (u, e) = (u, ext.2 id u e)

-- From `s` the action returns, keeps what can be looked up, ends as `Post` says, and does nothing
-- when it runs again, at once or later.
abbrev pub Settles : {A : Type 0} → Store → Action Store A → (A → Store → Type 0) → Type 0
Settles {A} s m Post =
    (a : A) × (s' : Store) × (m s ≡ (ok a, s'))
    × Extends s s'
    × Post a s'
    × ((t : Store) → Extends s' t → m t ≡ (ok a, t))

pub pure-Settles :
    {A : Type 0} (a : A) (s : Store) (Post : A → Store → Type 0)
    → Post a s
    → Settles s (pure a) Post
pure-Settles a s Post h = (a, s, refl, Extends-refl s, h, λ t ext. refl)

pub >>=-Settles :
    {A B : Type 0} (m : Action Store A) (f : A → Action Store B) (s : Store)
    (Mid : A → Store → Type 0) (Post : B → Store → Type 0)
    → Settles s m Mid
    → ((a : A) (s' : Store) → Extends s s' → Mid a s' → Settles s' (f a) Post)
    → Settles s (m >>= f) Post
>>=-Settles m f s Mid Post (a, s1, first, ext1, mid, again1) k =
    let (b, s2, second, ext2, post, again2) = k a s1 ext1 mid in
    (
      b,
      s2,
      >>=_ok m f s first ∙ second,
      Extends-trans s s1 s2 ext1 ext2,
      post,
      λ t ext. >>=_ok m f t (again1 t (Extends-trans s1 s2 t ext2 ext)) ∙ again2 t ext,
    )

find_own_id :
    (test : User → Bool) (us : List User) (u : User)
    → find test us ≡ some u
    → (v : User) × (find (is_user u.id) us ≡ some v)
find_own_id test [] u e = cc
find_own_id test (v ∷ us) u e = elim (Option-cases (find (is_user u.id) (v ∷ us))) [
  | inr found ↦ found
  | inl gone ↦ ground (arith, find_own_id test us u)
]

-- A row at the end hides no row.
users-Extends : (s : Store) (u : User) → Extends s (record s { users = s.users ++ u ∷ [] })
users-Extends s u = (
  (λ k v e. find-append_some (has_email k) s.users (u ∷ []) v e),
  (λ k v e. find-append_some (is_user k) s.users (u ∷ []) v e),
  (λ k v e. e),
  (λ i j v e. e),
)

events-Extends : (s : Store) (row : Event) → Extends s (record s { events = s.events ++ row ∷ [] })
events-Extends s row = (
  (λ k v e. e),
  (λ k v e. e),
  (λ k v e. find-append_some (is_event k) s.events (row ∷ []) v e),
  (λ i j v e. e),
)

bookings-Extends :
    (s : Store) (b : Booking) → Extends s (record s { bookings = s.bookings ++ b ∷ [] })
bookings-Extends s b = (
  (λ k v e. e),
  (λ k v e. e),
  (λ k v e. e),
  (λ i j v e. find-append_some (is_of i j) s.bookings (b ∷ []) v e),
)

-- A row that passes is found where none did before it.
find-append_last {ℓ} :
    {A : Type ℓ} (test : A → Bool) (xs : List A) (x : A)
    → find test xs ≡ none
    → test x ≡ true
    → find test (xs ++ x ∷ []) ≡ some x
find-append_last test xs x gone passes = find-append_none test xs (x ∷ []) gone ∙ rw passes refl

module _ (upserts : Upserts) (s : Store) where
  pub upsert_user-Settles :
      (name email : String) (role : Role)
      → Settles s (upsert_user upserts name email role) (λ u t. IsUserOf email u t)
  unfolding upsert_user
  upsert_user-Settles name email role = elim (Option-cases (find (has_email email) s.users)) [
    | inr (u, there) ↦ (
      u,
      s,
      upserts.user_upsert_some email (user_row name email role) s u there,
      Extends-refl s,
      (there, find_own_id (has_email email) s.users u there),
      λ t ext. upserts.user_upsert_some email (user_row name email role) t u (ext.0 email u there),
    )
    | inl gone ↦
        let u = user_row name email role (upserts.user_id s) in
        let s' : Store = record s { users = s.users ++ u ∷ [] } in
        let there =
          find-append_last (has_email email) s.users u gone ((str_eq_iff email email).1 refl) in
        (
          u,
          s',
          upserts.user_upsert_none email (user_row name email role) s gone,
          users-Extends s u,
          (there, find_own_id (has_email email) s'.users u there),
          λ t ext.
              upserts.user_upsert_some email (user_row name email role) t u (ext.0 email u there),
        )
  ]

  pub upsert_event-Settles :
      (row : Event)
      → HasUser row.organizer_id s
      → Settles s (upsert_event upserts row) (λ e t. (e.id ≡ row.id) × HasEvent e.id t)
  unfolding upsert_event
  upsert_event-Settles row (u, owner) = elim (Option-cases (find (is_event row.id) s.events)) [
    | inr (e, there) ↦ (
      e,
      s,
      upserts.event_upsert_some row.id row s e there,
      Extends-refl s,
      (let same : e.id ≡ row.id = found_id row.id s.events e there in
          (same, (e, ap (λ i. find (is_event i) s.events) same ∙ there))),
      λ t ext. upserts.event_upsert_some row.id row t e (ext.2 row.id e there),
    )
    | inl gone ↦
        let there = find-append_last (is_event row.id) s.events row gone (==_refl row.id) in
        (
          row,
          record s { events = s.events ++ row ∷ [] },
          upserts.event_upsert_none row.id row s gone (λ lost. ground arith),
          events-Extends s row,
          (refl, (row, there)),
          λ t ext. upserts.event_upsert_some row.id row t row (ext.2 row.id row there),
        )
  ]
    where
      found_id : (id : ℕ) (es : List Event) (e : Event) → find (is_event id) es ≡ some e → e.id ≡ id
      found_id id [] e h = cc
      found_id id (f ∷ es) e h = ground (arith, found_id id es e)

  pub upsert_booking-Settles :
      (user_id event_id : ℕ)
      → HasUser user_id s
      → HasEvent event_id s
      → Settles s (upsert_booking upserts user_id event_id) (λ b t. HasBooking user_id event_id t)
  unfolding upsert_booking
  upsert_booking-Settles user_id event_id (u, who) (e, what) =
      let row = λ (id now : ℕ). new_booking id now user_id event_id confirmed in
      elim (Option-cases (find (is_of user_id event_id) s.bookings)) [
        | inr (b, there) ↦ (
          b,
          s,
          upserts.booking_upsert_some user_id event_id row s b there,
          Extends-refl s,
          (b, there),
          λ t ext.
              upserts.booking_upsert_some user_id event_id row t b (ext.3 user_id event_id b there),
        )
        | inl gone ↦
            let b = row (upserts.booking_id s) (upserts.booking_time s) in
            let there =
              find-append_last (is_of user_id event_id) s.bookings b gone (ground arith) in
            (
              b,
              record s { bookings = s.bookings ++ b ∷ [] },
              upserts.booking_upsert_none user_id event_id row s gone (λ lost. ground arith)
                  (λ lost. ground arith),
              bookings-Extends s b,
              (b, there),
              λ t ext.
                  upserts.booking_upsert_some user_id event_id row t b
                    (ext.3 user_id event_id b there),
            )
      ]
