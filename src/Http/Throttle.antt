-- ===== src/Http/Throttle.antt =====
-- How many bookings of one user get through in one window.
use eventify_backend_course.Common.{
  ℕ, ◌+◌, ◌-◌, ◌≤◌, ◌≡◌, refl, Bool, true, false, ◌&&◌, List, [], ◌∷◌, one, str_eq, arith, subst,
}
use eventify_backend_course.Errors.{Thrown, http, failure, Result, ok, err}
use eventify_backend_course.Store.{Booking, Actor, Store}
use eventify_backend_course.Infra.Counters.{IsUp}
use eventify_backend_course.Infra.RateLimit.{Request, key_of, rate_limit}
use eventify_backend_course.Infra.Window.{is_ok, is_same, passed, passed-bound}
use eventify_backend_course.Http.Respond.{Response, success, error, thrown, respond, next_with}
use eventify_backend_course.Http.Rights.{next_with-cases}
use eventify_backend_course.Http.Validate.{validate}
use eventify_backend_course.Http.Access.{require_auth}
use eventify_backend_course.Http.Reserve.{
  booking_rate_limit, Reserving, Post, Both, request_of, book_valid, behind_limit, behind_auth,
  post_booking,
}

abbrev pub is_success : {A : Type 0} → Response A → Bool
is_success (success status a) = true
is_success (error status message details) = false

thrown_fails : (e : Thrown) → is_success {A = Booking} (respond (thrown e)) ≡ false
unfolding respond
thrown_fails (http e) = refl
thrown_fails (failure e) = refl

one_le : (a b m : Bool) → (a ≡ true → b ≡ true) → one (a && m) ≤ one (b && m)
one_le true true m h = omega arith
one_le true false m h = let clash = h refl in ground arith
one_le false b m h = omega arith

module _ (r : Reserving) (r0 : Request) where
  open r use {counters, tokens, Body, create_booking_schema}

  -- The post counts for the user and the window of `r0`.
  abbrev counts_for : Post Body → Result Actor → Bool
  counts_for post (ok user) = is_same booking_rate_limit r0 (request_of r post user)
  counts_for post (err e) = false

  -- How many of the posts of that user in that window are answered with a booking.
  abbrev pub granted : List (Post Body) → Both r → ℕ
  granted [] w = 0
  granted (post ∷ posts) w =
      let (answer, w') = post_booking r post w in
      one (is_success answer && counts_for post (require_auth tokens post.header))
      + granted posts w'

  -- The requests that reach the limiter.
  abbrev reaching : Post Body → Result Actor → List Request → List Request
  reaching post (ok user) rest = request_of r post user ∷ rest
  reaching post (err e) rest = rest

  abbrev limited : List (Post Body) → List Request
  limited [] = []
  limited (post ∷ posts) = reaching post (require_auth tokens post.header) (limited posts)

  behind_limit-keeps :
      (post : Post Body) (user : Actor) (c : counters.State) (s : Store)
      → (behind_limit r post user tt (c, s)).1.0 ≡ c
  unfolding behind_limit book_valid
  behind_limit-keeps post user c s =
      next_with-cases (λ p. p.1.0 ≡ c) (validate create_booking_schema post.body)
        (book_valid r post user) (c, s) (λ e _. refl) (λ a _. refl)

  -- Behind the limiter: its counters are those of its decision, and a success was let pass.
  abbrev Follows : (Result (Unit {0})) × counters.State → Response Booking × Both r → Type 0
  Follows (x, c') (answer, w') = (w'.0 ≡ c') × (is_success answer ≡ true → is_ok x ≡ true)

  behind_auth-Follows :
      (post : Post Body) (user : Actor) (c : counters.State) (s : Store)
      → Follows
          (rate_limit counters booking_rate_limit (request_of r post user) c)
          (behind_auth r post user (c, s))
  unfolding behind_auth next_with
  behind_auth-Follows post user c s =
      let (x, c') = rate_limit counters booking_rate_limit (request_of r post user) c in
      follows x c'
    where
      follows :
          (x : Result (Unit {0})) (c' : counters.State)
          → Follows (x, c') (next_with x (behind_limit r post user) (c', s))
      follows (ok _) c' = (behind_limit-keeps post user c' s, λ _. refl)
      follows (err e) c' = (refl, λ answered. let fails = thrown_fails e in ground arith)

  -- One post, with what its token says.
  granted_step :
      (post : Post Body) (posts : List (Post Body)) (c : counters.State) (s : Store)
      (a : Result Actor)
      → ((w : Both r) → granted posts w ≤ passed counters booking_rate_limit r0 (limited posts) w.0)
      → let (answer, w') = next_with a (behind_auth r post) (c, s) in
        one (is_success answer && counts_for post a) + granted posts w'
        ≤ passed counters booking_rate_limit r0 (reaching post a (limited posts)) c
  unfolding next_with
  granted_step post posts c s (err e) rest =
      let fails = thrown_fails e in let now = rest (c, s) in rw fails (omega arith)
  granted_step post posts c s (ok user) rest =
      let (x, c') = rate_limit counters booking_rate_limit (request_of r post user) c in
      let (answer, w') = behind_auth r post user (c, s) in
      let (same, let_pass) = behind_auth-Follows post user c s in
      let here =
        one_le (is_success answer) (is_ok x)
          (is_same booking_rate_limit r0 (request_of r post user)) let_pass in
      let later : granted posts w' ≤ passed counters booking_rate_limit r0 (limited posts) c' =
        subst (λ d. granted posts w' ≤ passed counters booking_rate_limit r0 (limited posts) d) same
          (rest w') in
      omega arith

  granted-passed :
      (posts : List (Post Body)) (w : Both r)
      → granted posts w ≤ passed counters booking_rate_limit r0 (limited posts) w.0
  unfolding post_booking
  granted-passed [] w = omega arith
  granted-passed (post ∷ posts) (c, s) =
      granted_step post posts c s (require_auth tokens post.header) (granted-passed posts)

  -- However many bookings are posted, with whatever tokens and bodies and in whatever order, as
  -- long as Redis carries out every command, those of one user in one window that succeed are at
  -- most what the counter of the user leaves of ten, which is ten at the start of a window.
  pub granted-bound :
      IsUp counters
      → str_eq r0.identity "" ≡ false
      → (posts : List (Post Body)) (w : Both r)
      → granted posts w ≤ 10 - counters.value (key_of booking_rate_limit r0) w.0
  granted-bound up named posts w =
      let passing = granted-passed posts w in
      let most =
        passed-bound counters booking_rate_limit up (omega arith) r0 named (limited posts) w.0 in
      omega arith
