-- ===== src/Http/Bookings.antt =====
-- src/bookings/controller.ts, and the routes of src/bookings/routes.ts that read or cancel a
-- booking.
use eventify_backend_course.Common.{ℕ, String, Option, none, some, str_eq, if◌then◌else◌}
use eventify_backend_course.Errors.{Thrown, http_error, known_error, Result, ok, err, Action, throw}
use eventify_backend_course.Store.{Booking, Actor, Store}
use eventify_backend_course.Prisma.{Prisma}
use eventify_backend_course.Bookings.Service as Service
use eventify_backend_course.Bookings.Service.{Attempt}
use eventify_backend_course.Http.Respond.{Response, thrown, respond, send}
use eventify_backend_course.Http.Access.{Tokens, authentication_required, require_auth}

abbrev pub booking_id_required : Thrown
booking_id_required = http_error 400 "Booking id is required"

module _ (prisma : Prisma) where
  unfoldable pub create_booking :
      (ℕ → Attempt) → Option Actor → ℕ → Store → Response Booking × Store
  create_booking env none event_id = send 201 (throw authentication_required)
  create_booking env (some user) event_id =
      send 201 (Service.create_booking prisma env user.sub event_id)

-- A path parameter that is there and not empty.
abbrev pub given_id : Option String → Result String
given_id none = err booking_id_required
given_id (some text) = if str_eq text "" then err booking_id_required else ok text

-- What the first query of a service throws for a text that is no uuid.
abbrev pub malformed_id : Thrown
malformed_id = known_error "P2023"

abbrev pub by_id : Option ℕ → (ℕ → Action Store Booking) → Action Store Booking
by_id none call = throw malformed_id
by_id (some id) call = call id

-- `uuid` is the row's id that a text writes, as the database reads it.
module _ (prisma : Prisma) (uuid : String → Option ℕ) where
  unfoldable pub get_booking : Option String → Store → Response Booking × Store
  get_booking id = elim (given_id id) [
    | err e ↦ send 200 (throw e)
    | ok text ↦ send 200 (by_id (uuid text) (Service.get_booking_by_id prisma))
  ]

  unfoldable pub cancel_booking : Option String → Option Actor → Store → Response Booking × Store
  cancel_booking id user = elim (given_id id) [
    | err e ↦ send 200 (throw e)
    | ok text ↦ elim user [
      | none ↦ send 200 (throw authentication_required)
      | some u ↦ send 200 (by_id (uuid text) (λ n. Service.cancel_booking prisma n u))
    ]
  ]

  -- router.delete("/:id", requireAuth, cancelBooking)
  unfoldable pub delete_route :
      Tokens → Option String → Option String → Store → Response Booking × Store
  delete_route tokens header id s = elim (require_auth tokens header) [
    | err e ↦ (respond (thrown e), s)
    | ok user ↦ cancel_booking id (some user) s
  ]
