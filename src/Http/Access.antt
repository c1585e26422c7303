-- ===== src/Http/Access.antt =====
-- src/auth/middleware.ts, and `verifyAccessToken` of src/auth/tokens.ts. Strings are taken apart,
-- and tokens decoded and parsed, by parameters.
use eventify_backend_course.Common.{
  String, Bool, false, Option, none, some, List, [], ◌∷◌, str_eq, if◌then◌else◌, not, ◌||◌,
}
use eventify_backend_course.Errors.{Thrown, http_error, Result, ok, err}
use eventify_backend_course.Store.{Role, role_eq, Actor}

abbrev pub authentication_required : Thrown
authentication_required = http_error 401 "Authentication required"

abbrev pub invalid_token : Thrown
invalid_token = http_error 401 "Invalid or expired token"

abbrev pub not_allowed : Thrown
not_allowed = http_error 403 "You are not allowed to perform this action"

-- The parameters: `startsWith("Bearer ")`, the rest behind it, trimmed, `jwt.verify` with the
-- secret, and the parse of the claims, of which the program reads `sub` and `role`.
pub record Tokens : Type 1 where
  pub Payload : Type 0
  pub starts_with_bearer : String → Bool
  pub behind_bearer : String → String
  pub decode : String → Option Payload
  pub parse : Payload → Option Actor

abbrev includes : List Role → Role → Bool
includes [] r = false
includes (a ∷ roles) r = role_eq a r || includes roles r

module _ (tokens : Tokens) where
  open tokens use {starts_with_bearer, behind_bearer, decode, parse}

  unfoldable pub verify_access_token : String → Result Actor
  verify_access_token token = elim (decode token) as (λ _. Result Actor) [
    | none ↦ err invalid_token
    | some payload ↦ elim (parse payload) as (λ _. Result Actor) [
      | none ↦ err invalid_token
      | some claims ↦ ok claims
    ]
  ]

  -- The principal that `requireAuth` sets as `req.user`, or the error that it passes on.
  unfoldable pub require_auth : Option String → Result Actor
  require_auth none = err authentication_required
  require_auth (some header) =
      if str_eq header "" || not (starts_with_bearer header)
      then err authentication_required
      else if str_eq (behind_bearer header) ""
      then err authentication_required
      else verify_access_token (behind_bearer header)

unfoldable pub require_role : List Role → Option Actor → Result (Unit {0})
require_role roles none = err authentication_required
require_role roles (some user) = if includes roles user.role then ok tt else err not_allowed
