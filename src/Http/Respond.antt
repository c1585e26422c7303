-- ===== src/Http/Respond.antt =====
-- The error handler of src/app.ts, and what a handler sends.
use eventify_backend_course.Common.{ℕ, String, ◌==◌, if◌then◌else◌}
use eventify_backend_course.Errors.{Details, null, Thrown, http, failure, Result, ok, err, Action}

-- `res.status(…).json(…)`: a value, or the error object.
pub data Response (A : Type 0) : Type 0 where
  success : (status_code : ℕ) → A → Response A
  error : (status_code : ℕ) → (message : String) → Details → Response A

-- What reaches the error handler: the errors of the program, or a syntax error with its status,
-- which the JSON parser of Express throws.
pub data Caught : Type 0 where
  thrown : Thrown → Caught
  syntax_error : (status : ℕ) → Caught

unfoldable pub respond : {A : Type 0} → Caught → Response A
respond (thrown (http e)) = error e.status_code e.message e.details
respond (thrown (failure e)) = error 500 "Internal Server Error" null
respond (syntax_error status) =
    if status == 400
    then error 400 "Invalid JSON body" null
    else error 500 "Internal Server Error" null

-- A handler that sends the result of a call with a status, and passes its error on.
unfoldable pub send : {S A : Type 0} → ℕ → Action S A → S → Response A × S
unfolding respond
send status_code call s =
    let (r, s') = call s in
    (elim r [ ok a ↦ success status_code a | err e ↦ respond (thrown e) ], s')

-- `next()` with what a middleware found, or `next(error)`.
unfoldable pub next_with :
    {S A B : Type 0} → Result A → (A → S → Response B × S) → S → Response B × S
unfolding respond
next_with (ok a) handler s = handler a s
next_with (err e) handler s = (respond (thrown e), s)
