-- ===== src/Http/Sessions.antt =====
-- src/auth/controller.ts, and the options of the refresh cookie in src/auth/tokens.ts.
use eventify_backend_course.Common.{
  ℕ, ◌≡◌, String, Option, none, some, Bool, true, false, ◌||◌, str_eq, if◌then◌else◌, Avoids,
}
use eventify_backend_course.Errors.{throw}
use eventify_backend_course.Store.{Store}
use eventify_backend_course.Prisma.{Prisma}
use eventify_backend_course.Auth.Table.{TokenTable}
use eventify_backend_course.Auth.Service.{
  Draw, Session, refresh_token_ttl_ms, generic_refresh_error, login, rotate_refresh,
}
use eventify_backend_course.Http.Respond.{Response, success, error, send}
use eventify_backend_course.Http.Cookies.{refresh_cookie_name, get_refresh_cookie}
use eventify_backend_course.Http.Jar.{is_stop}

-- The model has a token as a number; this is how it stands for the text of a cookie. The text of a
-- random token is base64url.
pub record Texts : Type 1 where
  pub text : ℕ → String
  pub number : String → ℕ
  pub IsRaw : ℕ → Type 0
  pub number_text : (n : ℕ) → IsRaw n → number (text n) ≡ n
  pub text_Avoids : (n : ℕ) → IsRaw n → Avoids is_stop (text n)
  pub text_given : (n : ℕ) → IsRaw n → str_eq (text n) "" ≡ false

pub record CookieOptions : Type 0 where
  pub max_age : ℕ
  pub http_only : Bool
  pub secure : Bool
  pub same_site : String
  pub path : String
  pub domain : Option String

-- `new URL(webOrigin).hostname` is a parameter, `none` where it throws.
unfoldable pub cookie_domain : (String → Option String) → String → Option String
cookie_domain hostname web_origin = elim (hostname web_origin) [
  | none ↦ none
  | some host ↦
      if str_eq host "localhost" || str_eq host "127.0.0.1" || str_eq host "::1"
      then none
      else some host
]

unfoldable given_domain : Option String → Option String
given_domain none = none
given_domain (some domain) = if str_eq domain "" then none else some domain

unfoldable pub refresh_cookie_options : (String → Option String) → String → CookieOptions
unfolding cookie_domain given_domain
refresh_cookie_options hostname web_origin = record {
  max_age = refresh_token_ttl_ms;
  http_only = true;
  secure = true;
  same_site = "strict";
  path = "/v1/auth/refresh";
  domain = given_domain (cookie_domain hostname web_origin);
}

-- `{ accessToken }`, and the cookie that the answer sets.
pub record Issued : Type 0 where
  pub access_token : ℕ
  pub cookie_name : String
  pub cookie_value : String
  pub options : CookieOptions

module _ (texts : Texts) (hostname : String → Option String) (web_origin : String) where
  abbrev pub issued : Session → Issued
  issued session = record {
    access_token = session.access_token;
    cookie_name = refresh_cookie_name;
    cookie_value = texts.text session.refresh_token;
    options = refresh_cookie_options hostname web_origin;
  }

  unfoldable sets : Response Session × Store → Response Issued × Store
  sets (success status session, s) = (success status (issued session), s)
  sets (error status message details, s) = (error status message details, s)

  unfoldable pub login_handler : TokenTable → Draw → String → Store → Response Issued × Store
  unfolding sets
  login_handler table draw email s = sets (send 200 (login table draw email) s)

  unfoldable pub refresh_handler :
      Prisma → TokenTable → Draw → Option String → Store → Response Issued × Store
  unfolding sets
  refresh_handler prisma table draw header s = elim (get_refresh_cookie header) [
    | none ↦ sets (send 200 (throw generic_refresh_error) s)
    | some raw_token ↦
        if str_eq raw_token ""
        then sets (send 200 (throw generic_refresh_error) s)
        else sets (send 200 (rotate_refresh prisma table draw (texts.number raw_token)) s)
  ]
