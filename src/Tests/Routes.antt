-- ===== src/Tests/Routes.antt =====
-- The routes that write events, with bodies that stand for themselves.
use eventify_backend_course.Common.{ℕ, ◌≡◌, refl, none, some, [], ◌∷◌, Bool, true, append, join}
use eventify_backend_course.Errors.{Issue}
use eventify_backend_course.Store.{organizer}
use eventify_backend_course.Events.Table.{EventCreateInput}
use eventify_backend_course.Events.Memory.{redis_memory, redis_memory-IsUp, event_memory}
use eventify_backend_course.Http.Validate.{parsed, refused, place, line, message}
use eventify_backend_course.Http.Access.{Tokens}
use eventify_backend_course.Http.Events.{EventSchemas, posts, write_route}
use eventify_backend_course.Http.Rights.{IsRight}
use eventify_backend_course.Http.Writers.{Knows, write_route-IsRight}
use eventify_backend_course.Tests.Events.{cold, cold-IsFresh, enlarge}

-- Every header carries the token of the organizer 9.
abbrev tokens : Tokens
tokens = record {
  Payload = ℕ;
  starts_with_bearer = λ header. true;
  behind_bearer = λ header. header;
  decode = λ token. some 9;
  parse = λ sub. some (record { sub = sub; role = organizer });
}

abbrev lecture : EventCreateInput
lecture = record {
  title = "Lecture";
  description = "";
  venue = none;
  starts_at = 0;
  capacity = 3;
  price_cents = none;
  organizer_id = 5;
}

abbrev missing : Issue
missing = record { path = "venue" ∷ "name" ∷ []; message = "required" }

abbrev whole : Issue
whole = record { path = []; message = "bad" }

abbrev schemas : EventSchemas
schemas = record {
  Body = Bool;
  create_event_schema =
      λ body. elim body [ true ↦ parsed lecture | _ ↦ refused (missing ∷ whole ∷ []) ];
  update_event_schema = λ body. parsed enlarge;
}

refusal : message "body" (missing ∷ whole ∷ []) ≡ "venue.name: required; body: bad"
unfolding message line place join append
refusal = refl

write_route-IsRight_example :
    IsRight event_memory schemas
      (Knows redis_memory event_memory redis_memory-IsUp tokens schemas (some "Bearer x"))
      (posts true)
      cold
      (write_route redis_memory event_memory tokens schemas (some "Bearer x") (posts true) cold)
write_route-IsRight_example =
    write_route-IsRight redis_memory event_memory redis_memory-IsUp tokens schemas (some "Bearer x")
      (posts true) cold cold-IsFresh
