-- ===== src/Http/Guarded.antt =====
-- Who can change the store through DELETE /v1/bookings/:id.
use eventify_backend_course.Common.{
  ℕ, ◌≡◌, ◌⊎◌, inl, inr, refl, String, Option, none, some, true, false, Bool, arith, find, change,
  Bool-cases, Option-cases, str_eq, not, ◌||◌,
}
use eventify_backend_course.Errors.{Thrown, Result, ok, err, null}
use eventify_backend_course.Store.{Booking, Actor, Store, has_id, with_status, cancelled}
use eventify_backend_course.Prisma.{Prisma}
use eventify_backend_course.Bookings.Service as Service
use eventify_backend_course.Bookings.Cancel.{
  Cancels, IsRequested, is_allowed, cancel_booking-Cancels,
}
use eventify_backend_course.Http.Respond.{Response, success, error, thrown, respond, send}
use eventify_backend_course.Http.Access.{
  Tokens, authentication_required, invalid_token, verify_access_token, require_auth,
}
use eventify_backend_course.Http.Bookings.{
  booking_id_required, malformed_id, cancel_booking, delete_route,
}

-- A header that carries a token, whose claims are those of `user`.
abbrev pub Carries : Tokens → String → Actor → Type 0
Carries tokens header user =
    (tokens.starts_with_bearer header ≡ true)
    × (payload : tokens.Payload) × (tokens.decode (tokens.behind_bearer header) ≡ some payload)
    × (tokens.parse payload ≡ some user)

-- What `requireAuth` decides: a user whose claims the header carries, or a 401.
abbrev pub Authenticates : Tokens → Option String → Result Actor → Type 0
Authenticates tokens header (ok user) =
    (text : String) × (header ≡ some text) × Carries tokens text user
Authenticates tokens header (err e) = (e ≡ authentication_required) ⊎ (e ≡ invalid_token)

module _ (tokens : Tokens) where
  open tokens use {starts_with_bearer, behind_bearer, decode, parse}

  decode_fails :
      (token : String) → decode token ≡ none → verify_access_token tokens token ≡ err invalid_token
  unfolding verify_access_token
  decode_fails token bad = rw (bad, verify_access_token)

  parse_fails :
      (token : String) (payload : tokens.Payload)
      → decode token ≡ some payload
      → parse payload ≡ none
      → verify_access_token tokens token ≡ err invalid_token
  unfolding verify_access_token
  parse_fails token payload good malformed = rw (good, malformed, verify_access_token)

  verifies :
      (token : String) (payload : tokens.Payload) (user : Actor)
      → decode token ≡ some payload
      → parse payload ≡ some user
      → verify_access_token tokens token ≡ ok user
  unfolding verify_access_token
  verifies token payload user good claims = rw (good, claims, verify_access_token)

  verify-Authenticates :
      (text : String)
      → starts_with_bearer text ≡ true
      → Authenticates tokens (some text) (verify_access_token tokens (behind_bearer text))
  verify-Authenticates text bearer = elim (Option-cases (decode (behind_bearer text))) [
    | inl bad ↦ rw (decode_fails (behind_bearer text) bad) (inr refl)
    | inr (payload, good) ↦ elim (Option-cases (parse payload)) [
      | inl malformed ↦ rw (parse_fails (behind_bearer text) payload good malformed) (inr refl)
      | inr (user, claims) ↦
          rw (verifies (behind_bearer text) payload user good claims)
            (text, refl, (bearer, payload, good, claims))
    ]
  ]

  require_bare :
      (text : String)
      → (str_eq text "" || not (starts_with_bearer text) ≡ true)
      → require_auth tokens (some text) ≡ err authentication_required
  unfolding require_auth
  require_bare text bare = rw bare refl

  require_empty :
      (text : String)
      → (str_eq text "" || not (starts_with_bearer text) ≡ false)
      → str_eq (behind_bearer text) "" ≡ true
      → require_auth tokens (some text) ≡ err authentication_required
  unfolding require_auth
  require_empty text given bare = rw (given, bare) refl

  require_token :
      (text : String)
      → (str_eq text "" || not (starts_with_bearer text) ≡ false)
      → str_eq (behind_bearer text) "" ≡ false
      → require_auth tokens (some text) ≡ verify_access_token tokens (behind_bearer text)
  unfolding require_auth
  require_token text given token = rw (given, token) refl

  require_none : require_auth tokens none ≡ err authentication_required
  unfolding require_auth
  require_none = refl

  bearer_lem : (a b : Bool) → a || not b ≡ false → b ≡ true
  bearer_lem a b e = ground arith

  pub require_auth-Authenticates :
      (header : Option String) → Authenticates tokens header (require_auth tokens header)
  require_auth-Authenticates none = rw require_none (inl refl)
  require_auth-Authenticates (some text) =
      elim (Bool-cases (str_eq text "" || not (starts_with_bearer text))) [
        | inl bare ↦ rw (require_bare text bare) (inl refl)
        | inr given ↦ elim (Bool-cases (str_eq (behind_bearer text) "")) [
          | inl bare ↦ rw (require_empty text given bare) (inl refl)
          | inr token ↦ rw (require_token text given token) (
              verify-Authenticates text
                (bearer_lem (str_eq text "") (starts_with_bearer text) given))
        ]
      ]

module _ (prisma : Prisma) (tokens : Tokens) (uuid : String → Option ℕ) where
  -- The outcome of the route: an error that leaves the store as it was, or the cancellation of a
  -- booking by a user whose claims the header carries, its owner or an admin.
  abbrev pub Guards : Option String → Option String → Store → Response Booking × Store → Type 0
  Guards header id s (error status message details, s') =
      (s' ≡ s)
      × (details ≡ null)
      × ((status ≡ 400)
          ⊎ (status ≡ 401)
          ⊎ (status ≡ 403)
          ⊎ (status ≡ 404)
          ⊎ (status ≡ 409)
          ⊎ ((status ≡ 500) × (word : String) × (id ≡ some word) × (uuid word ≡ none)))
  Guards header id s (success status c, s') =
      (status ≡ 200)
      × (text : String) × (user : Actor) × (word : String) × (n : ℕ) × (b : Booking) × (header
          ≡ some text)
      × Carries tokens text user
      × (id ≡ some word)
      × (uuid word ≡ some n)
      × (find (has_id n) s.bookings ≡ some b)
      × (is_allowed b user ≡ true)
      × (c ≡ with_status cancelled b)
      × (s'.bookings ≡ change (has_id n) (with_status cancelled) s.bookings)
      × IsRequested b s.waitlist_queue s'.waitlist_queue

  send-Guards :
      (text : String) (user : Actor) (word : String) (n : ℕ) (s s' : Store) (r : Result Booking)
      → Carries tokens text user
      → uuid word ≡ some n
      → Cancels prisma n user s (r, s')
      → Guards (some text) (some word) s (send 200 (λ t. (r, s')) s)
  unfolding send respond
  send-Guards text user word n s s' (err e) carries is_n (same, inl (gone, is_404)) =
      rw is_404 (same, refl, ground arith)
  send-Guards text user word n s s' (err e) carries is_n
        (same, inr (b, row, inl (not_own, is_403))) =
      rw is_403 (same, refl, ground arith)
  send-Guards text user word n s s' (err e) carries is_n
        (same, inr (b, row, inr (own, again, is_409))) =
      rw is_409 (same, refl, ground arith)
  send-Guards text user word n s s' (ok c) carries is_n
        (b, row, allowed, live, is_c, rows, asked, _) =
      (refl, text, user, word, n, b, refl, carries, refl, is_n, row, allowed, is_c, rows, asked)

  cancel_empty :
      (user : Actor) (word : String) (s : Store)
      → str_eq word "" ≡ true
      → cancel_booking prisma uuid (some word) (some user) s
        ≡ (respond (thrown booking_id_required), s)
  unfolding cancel_booking send respond
  cancel_empty user word s blank = ground arith

  cancel_malformed :
      (user : Actor) (word : String) (s : Store)
      → str_eq word "" ≡ false
      → uuid word ≡ none
      → cancel_booking prisma uuid (some word) (some user) s ≡ (respond (thrown malformed_id), s)
  unfolding cancel_booking send respond
  cancel_malformed user word s given bad = ground arith

  cancel_named :
      (user : Actor) (word : String) (n : ℕ) (s : Store)
      → str_eq word "" ≡ false
      → uuid word ≡ some n
      → cancel_booking prisma uuid (some word) (some user) s
        ≡ send 200 (λ t. Service.cancel_booking prisma n user s) s
  unfolding cancel_booking send
  cancel_named user word n s given is_n = ground arith

  cancel-Guards :
      (text : String) (user : Actor) (id : Option String) (s : Store)
      → Carries tokens text user
      → Guards (some text) id s (cancel_booking prisma uuid id (some user) s)
  unfolding cancel_booking send respond
  cancel-Guards text user none s carries = (refl, refl, ground arith)
  cancel-Guards text user (some word) s carries = elim (Bool-cases (str_eq word "")) [
    | inl blank ↦ rw (cancel_empty user word s blank) (refl, refl, ground arith)
    | inr given ↦ elim (Option-cases (uuid word)) [
      | inl bad ↦
          rw (cancel_malformed user word s given bad)
            (refl, refl, inr (inr (inr (inr (inr (refl, word, refl, bad))))))
      | inr (n, is_n) ↦
          let (r, s') = Service.cancel_booking prisma n user s in
          rw (cancel_named user word n s given is_n) (
            send-Guards text user word n s s' r carries is_n
              (cancel_booking-Cancels prisma n user s))
    ]
  ]

  delete_route-err :
      (header : Option String) (id : Option String) (s : Store) (e : Thrown)
      → require_auth tokens header ≡ err e
      → delete_route prisma uuid tokens header id s ≡ (respond (thrown e), s)
  unfolding delete_route
  delete_route-err header id s e is_r = rw (is_r, delete_route)

  delete_route-ok :
      (header : Option String) (id : Option String) (s : Store) (user : Actor)
      → require_auth tokens header ≡ ok user
      → delete_route prisma uuid tokens header id s ≡ cancel_booking prisma uuid id (some user) s
  unfolding delete_route
  delete_route-ok header id s user is_r = rw (is_r, delete_route)

  authenticated-Guards :
      (header : Option String) (id : Option String) (s : Store) (r : Result Actor)
      → require_auth tokens header ≡ r
      → Authenticates tokens header r
      → Guards header id s (delete_route prisma uuid tokens header id s)
  unfolding respond
  authenticated-Guards header id s (err e) is_r (inl is_401) =
      rw (delete_route-err header id s e is_r, is_401) (refl, refl, ground arith)
  authenticated-Guards header id s (err e) is_r (inr is_401) =
      rw (delete_route-err header id s e is_r, is_401) (refl, refl, ground arith)
  authenticated-Guards header id s (ok user) is_r (text, is_text, carries) =
      rw (delete_route-ok header id s user is_r, is_text) (cancel-Guards text user id s carries)

  -- DELETE /v1/bookings/:id, on every branch: it answers with an error (400, 401, 403, 404 or 409,
  -- or 500 for an id that is no uuid) and leaves the store as it was, or with 200 and the cancelled
  -- booking; then the header carries a token whose claims are those of the booking's owner or of an
  -- admin, that booking alone changed, to cancelled, and a promotion of its event is queued, unless
  -- the queue refuses, if it was confirmed.
  pub delete_route-Guards :
      (header : Option String) (id : Option String) (s : Store)
      → Guards header id s (delete_route prisma uuid tokens header id s)
  delete_route-Guards header id s =
      authenticated-Guards header id s (require_auth tokens header) refl
        (require_auth-Authenticates tokens header)
