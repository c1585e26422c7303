-- ===== src/Tests/Cookies.antt =====
-- Cookie headers.
use eventify_backend_course.Common.{
  ◌≡◌, refl, none, some, [], ◌∷◌, split, index_of, slice_to, slice_from, trim_start, trim_end, trim,
}
use eventify_backend_course.Http.Cookies.{key_value, find_cookie, get_refresh_cookie}
use eventify_backend_course.Http.Jar.{
  Cookie, cookie_header, refresh_cookie, get_refresh_cookie-header,
}

abbrev theme : Cookie
theme = record { key = "theme"; value = "a=b" }

abbrev session : Cookie
session = record { key = "refreshToken"; value = "x-_9" }

readings :
    (get_refresh_cookie (some "refreshToken") ≡ none)
    × (get_refresh_cookie (some " a=1;refreshToken = t =u ; refreshToken=v") ≡ some "t =u")
    × (get_refresh_cookie (some "") ≡ none)
unfolding get_refresh_cookie find_cookie key_value split index_of slice_to slice_from trim_start
    trim_end trim
readings = (refl, refl, refl)

get_refresh_cookie-header_example :
    get_refresh_cookie (some (cookie_header (theme ∷ session ∷ [])))
    ≡ refresh_cookie (theme ∷ session ∷ [])
get_refresh_cookie-header_example = get_refresh_cookie-header (theme ∷ session ∷ []) (
  ((refl, (refl, (refl, (refl, (refl, tt))))), (refl, (refl, (refl, tt)))),
  (
    (
      (
        refl,
        (refl, (refl, (refl, (refl, (refl, (refl, (refl, (refl, (refl, (refl, (refl, tt))))))))))),
      ),
      (refl, (refl, (refl, (refl, tt)))),
    ),
    tt,
  ),
)
