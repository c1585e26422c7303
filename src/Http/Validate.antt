-- ===== src/Http/Validate.antt =====
-- src/middleware/validate.ts, over the parse of a schema, which is Zod's.
use eventify_backend_course.Common.{
  String, List, map, str_eq, ◌≡◌, arith, if◌then◌else◌, append, join,
}
use eventify_backend_course.Errors.{Issue, issues, http, Result, ok, err}

-- What `safeParse` answers.
pub data Parsed (A : Type 0) : Type 0 where
  parsed : A → Parsed A
  refused : List Issue → Parsed A

-- The path of an issue, or the name of what was parsed.
unfoldable pub place : String → Issue → String
unfolding join
place whole issue = let path = join "." issue.path in if str_eq path "" then whole else path

unfoldable pub line : String → Issue → String
unfolding append place
line whole issue = append (place whole issue) (append ": " issue.message)

unfoldable pub message : String → List Issue → String
unfolding join line
message whole found = join "; " (map (line whole) found)

unfoldable check : {A : Type 0} → String → Parsed A → Result A
unfolding message
check whole (parsed a) = ok a
check whole (refused found) =
    err (http (record { status_code = 400; message = message whole found; details = issues found }))

-- The value is what the middleware puts in place of the body, or beside the query.
unfoldable pub validate : {B A : Type 0} → (B → Parsed A) → B → Result A
unfolding check
validate schema body = check "body" (schema body)

unfoldable pub validate_query : {B A : Type 0} → (B → Parsed A) → B → Result A
unfolding check
validate_query schema query = check "query" (schema query)

check_parsed :
    {A : Type 0} (whole : String) (p : Parsed A) (a : A) → check whole p ≡ ok a → p ≡ parsed a
unfolding check
check_parsed whole (parsed b) a h = ground arith
check_parsed whole (refused found) a h = ground arith

-- What passes is what the schema parsed.
pub validate_parsed :
    {B A : Type 0} (schema : B → Parsed A) (body : B) (a : A)
    → validate schema body ≡ ok a
    → schema body ≡ parsed a
unfolding validate
validate_parsed schema body a h = check_parsed "body" (schema body) a h
