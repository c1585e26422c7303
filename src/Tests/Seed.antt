-- ===== src/Tests/Seed.antt =====
-- The seed script on tables in memory.
use eventify_backend_course.Common.{◌≡◌, refl, [], ◌∷◌, append}
use eventify_backend_course.Store.{Store, admin}
use eventify_backend_course.Seed.Memory.{seed_memory}
use eventify_backend_course.Seed.Script.{decimal, seed}
use eventify_backend_course.Seed.Settles.{Settles}
use eventify_backend_course.Seed.Again.{IsReal, seed-Settles}

-- The admin has signed up before, under another name.
abbrev before : Store
before = record {
  users = record { id = 7; name = "Root"; email = "admin@eventify.dev"; role = admin } ∷ [];
  events = [];
  bookings = [];
  refresh_tokens = [];
  waitlist_queue = [];
  email_queue = [];
}

decimal_two : append "user-" (decimal 17) ≡ "user-17"
unfolding append decimal
decimal_two = refl

seed-Settles_example : Settles before (seed seed_memory) IsReal
seed-Settles_example = seed-Settles seed_memory before
