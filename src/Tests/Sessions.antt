-- ===== src/Tests/Sessions.antt =====
-- A login and a refresh, with one token that has a text.
use eventify_backend_course.Common.{◌≡◌, refl, sym, some, [], ◌∷◌, arith, String, Option}
use eventify_backend_course.Memory.{memory}
use eventify_backend_course.Auth.Memory.{token_memory}
use eventify_backend_course.Auth.Service.{login, issue, hash_token, generate_refresh_token}
use eventify_backend_course.Http.Respond.{send}
use eventify_backend_course.Http.Jar.{Cookie}
use eventify_backend_course.Http.Sessions.{Texts, login_handler, refresh_cookie_options}
use eventify_backend_course.Http.Renewal.{Renews, login_then_refresh}
use eventify_backend_course.Tests.Auth.{ann, nobody_in, at}

abbrev texts : Texts
texts = record {
  text = λ n. "xyz";
  number = λ s. 100;
  IsRaw = λ n. n ≡ 100;
  number_text = λ n h. sym h;
  text_Avoids = λ n h. (refl, (refl, (refl, tt)));
  text_given = λ n h. refl;
}

abbrev hostname : String → Option String
hostname origin = some "eventify.dev"

abbrev theme : Cookie
theme = record { key = "a"; value = "b" }

domain : (refresh_cookie_options hostname "https://eventify.dev").domain ≡ some "eventify.dev"
unfolding refresh_cookie_options
domain = refl

login_then_refresh_example :
    Renews memory token_memory texts hostname "https://eventify.dev"
      (at 0 100)
      (at 5 200)
      "ann@eventify.dev"
      (theme ∷ [])
      nobody_in
      ann
unfolding login_handler send login issue hash_token generate_refresh_token token_memory
login_then_refresh_example =
    login_then_refresh memory token_memory texts hostname "https://eventify.dev" (at 0 100)
      (at 5 200) "ann@eventify.dev" (theme ∷ []) nobody_in ann tt refl refl refl
      (((refl, tt), (refl, tt)), tt) refl (omega arith) refl
