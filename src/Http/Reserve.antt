-- ===== src/Http/Reserve.antt =====
-- POST of src/bookings/routes.ts: the token, the limit of its user, the schema, and the handler.
use eventify_backend_course.Common.{ℕ, String, Option, some}
use eventify_backend_course.Store.{Booking, Actor, Store}
use eventify_backend_course.Prisma.{Prisma}
use eventify_backend_course.Bookings.Service.{Attempt}
use eventify_backend_course.Infra.Counters.{Counters}
use eventify_backend_course.Infra.RateLimit.{RateLimitOptions, Request, rate_limit}
use eventify_backend_course.Http.Respond.{Response, next_with}
use eventify_backend_course.Http.Validate.{Parsed, validate}
use eventify_backend_course.Http.Access.{Tokens, require_auth}
use eventify_backend_course.Http.Bookings.{create_booking}

abbrev pub booking_rate_limit : RateLimitOptions
booking_rate_limit = record { max = 10; window_ms = 60000; label = "bookings:create" }

-- `createBookingSchema` parses a body into the id of an event; `sub` is a string to the limiter.
pub record Reserving : Type 1 where
  pub prisma : Prisma
  pub tokens : Tokens
  pub counters : Counters
  pub Body : Type 0
  pub create_booking_schema : Body → Parsed ℕ
  pub sub_text : ℕ → String

-- A request, with the clock readings of the limiter and what its attempts meet.
pub record Post (Body : Type 0) : Type 0 where
  pub header : Option String
  pub body : Body
  pub now : ℕ
  pub later : ℕ
  pub env : ℕ → Attempt

module _ (r : Reserving) where
  open r use {prisma, tokens, counters, Body, create_booking_schema, sub_text}

  -- The counters of the limiter, and the tables.
  abbrev pub Both : Type 0
  Both = counters.State × Store

  -- `keyOf`, and the clock.
  abbrev pub request_of : Post Body → Actor → Request
  request_of post user = record { identity = sub_text user.sub; now = post.now; later = post.later }

  unfoldable pub book_valid : Post Body → Actor → ℕ → Both → Response Booking × Both
  book_valid post user event_id (c, s) =
      let (answer, s') = create_booking prisma post.env (some user) event_id s in (answer, (c, s'))

  unfoldable pub behind_limit : Post Body → Actor → Unit {0} → Both → Response Booking × Both
  behind_limit post user _ =
      next_with (validate create_booking_schema post.body) (book_valid post user)

  unfoldable pub behind_auth : Post Body → Actor → Both → Response Booking × Both
  behind_auth post user (c, s) =
      let (passes, c') = rate_limit counters booking_rate_limit (request_of post user) c in
      next_with passes (behind_limit post user) (c', s)

  unfoldable pub post_booking : Post Body → Both → Response Booking × Both
  post_booking post = next_with (require_auth tokens post.header) (behind_auth post)
