-- ===== src/Tests/Throttle.antt =====
-- Bookings of one user through the limiter.
use eventify_backend_course.Common.{ℕ, ◌-◌, ◌≤◌, refl, some, [], ◌∷◌}
use eventify_backend_course.Memory.{memory}
use eventify_backend_course.Infra.RateLimit.{Request}
use eventify_backend_course.Http.Validate.{parsed}
use eventify_backend_course.Http.Reserve.{Reserving, Post}
use eventify_backend_course.Http.Throttle.{granted, granted-bound}
use eventify_backend_course.Tests.Bookings.{empty, calm}
use eventify_backend_course.Tests.Infra.{counters, counters-IsUp}
use eventify_backend_course.Tests.Http.{tokens}

abbrev reserving : Reserving
reserving = record {
  prisma = memory;
  tokens = tokens;
  counters = counters;
  Body = ℕ;
  create_booking_schema = λ body. parsed body;
  sub_text = λ sub. "user";
}

abbrev post_at : ℕ → Post ℕ
post_at now = record { header = some "Bearer x"; body = 1; now = now; later = now; env = calm now }

abbrev user_at : ℕ → Request
user_at now = record { identity = "user"; now = now; later = now }

granted-bound_example :
    granted reserving (user_at 60000) (post_at 61000 ∷ post_at 62000 ∷ []) ((λ k. 9), empty)
    ≤ 10 - 9
granted-bound_example =
    granted-bound reserving (user_at 60000) counters-IsUp refl (post_at 61000 ∷ post_at 62000 ∷ [])
      ((λ k. 9), empty)
