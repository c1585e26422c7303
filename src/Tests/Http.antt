-- ===== src/Tests/Http.antt =====
-- The route that cancels a booking, with a header that is its own token.
use eventify_backend_course.Common.{
  ℕ, ◌≡◌, refl, true, none, some, Option, String, str_eq, if◌then◌else◌, [], ◌∷◌,
}
use eventify_backend_course.Errors.{null}
use eventify_backend_course.Store.{Store, attendee, confirmed}
use eventify_backend_course.Prisma.{new_booking}
use eventify_backend_course.Memory.{memory}
use eventify_backend_course.Http.Respond.{error, respond}
use eventify_backend_course.Http.Access.{Tokens, require_auth}
use eventify_backend_course.Http.Bookings.{delete_route}
use eventify_backend_course.Http.Guarded.{Guards, delete_route-Guards}
use eventify_backend_course.Tests.Bookings.{empty}

-- Every header carries the token of user 11.
abbrev pub tokens : Tokens
tokens = record {
  Payload = ℕ;
  starts_with_bearer = λ header. true;
  behind_bearer = λ header. header;
  decode = λ token. some 11;
  parse = λ sub. some (record { sub = sub; role = attendee });
}

-- One text names a row.
abbrev read_uuid : String → Option ℕ
read_uuid text = if str_eq text "b" then some 0 else none

abbrev booked : Store
booked = record empty { bookings = new_booking 0 4 11 1 confirmed ∷ [] }

no_header :
    delete_route memory read_uuid tokens none (some "b") booked
    ≡ (error 401 "Authentication required" null, booked)
unfolding delete_route require_auth respond
no_header = refl

delete_route-Guards_example :
    Guards memory tokens read_uuid
      (some "Bearer x")
      (some "b")
      booked
      (delete_route memory read_uuid tokens (some "Bearer x") (some "b") booked)
delete_route-Guards_example =
    delete_route-Guards memory tokens read_uuid (some "Bearer x") (some "b") booked
