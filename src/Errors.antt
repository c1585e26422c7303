-- ===== src/Errors.antt =====
-- src/http/HttpError.ts, and what a statement of the program can throw.
use eventify_backend_course.Common.{ℕ, String, Bool, true, false, Option, none, some, List, ◌≡◌, ap}

-- An issue of a Zod parse error, as src/middleware/validate.ts reads it.
pub record Issue : Type 0 where
  pub path : List String
  pub message : String

-- The values that the program passes as `details`; `null` is the default of the constructor.
pub data Details : Type 0 where
  null : Details
  retry_after_sec : ℕ → Details
  issues : List Issue → Details

pub record HttpError : Type 0 where
  pub status_code : ℕ
  pub message : String
  pub details : Details

-- Any other error object: the members that the program reads of it.
pub record Failure : Type 0 where
  pub message : String
  pub code : Option String
  pub original_code : Option String
  pub kind : Option String

-- `error instanceof HttpError` or not.
pub data Thrown : Type 0 where
  http : HttpError → Thrown
  failure : Failure → Thrown

-- `new HttpError(statusCode, message)`
abbrev pub http_error : ℕ → String → Thrown
http_error status_code message =
    http (record { status_code = status_code; message = message; details = null })

-- `new Error(message)`
abbrev pub plain_error : String → Thrown
plain_error message =
    failure (record { message = message; code = none; original_code = none; kind = none })

-- A known request error of Prisma, by its code.
abbrev pub known_error : String → Thrown
known_error code =
    failure (record { message = ""; code = some code; original_code = none; kind = none })

pub data Result {ℓ} (A : Type ℓ) : Type ℓ where
  ok : A → Result A
  err : Thrown → Result A

-- A statement over a state: what was written stays written when it throws.
abbrev pub Action : Type 0 → Type 0 → Type 0
Action S A = S → Result A × S

module _ {S A : Type 0} where
  abbrev pub pure : A → Action S A
  pure a s = (ok a, s)

  abbrev pub throw : Thrown → Action S A
  throw e s = (err e, s)

  abbrev pub gets : (S → A) → Action S A
  gets f s = (ok (f s), s)

abbrev pub throw_if : {S : Type 0} → Bool → Thrown → Action S (Unit {0})
throw_if true e s = (err e, s)
throw_if false e s = (ok tt, s)

infixl 5 ◌>>=◌ ◌>>◌
abbrev pub ◌>>=◌ : {S A B : Type 0} → Action S A → (A → Action S B) → Action S B
◌>>=◌ m f s = let (r, s') = m s in elim r [ ok a ↦ f a s' | err e ↦ (err e, s') ]

abbrev pub ◌>>◌ : {S A B : Type 0} → Action S A → Action S B → Action S B
m >> k = m >>= λ _. k

-- A sequence whose first part is known.
module _ {S A B : Type 0} (m : Action S A) (f : A → Action S B) (s : S) where
  then : Result A × S → Result B × S
  then r = elim r.0 as (λ _. Result B × S) [ ok a ↦ f a r.1 | err e ↦ (err e, r.1) ]

  pub >>=_ok : {a : A} {s' : S} → m s ≡ (ok a, s') → (m >>= f) s ≡ f a s'
  unfolding then
  >>=_ok e = ap then e

  pub >>=_err : {e : Thrown} {s' : S} → m s ≡ (err e, s') → (m >>= f) s ≡ (err e, s')
  unfolding then
  >>=_err e = ap then e
