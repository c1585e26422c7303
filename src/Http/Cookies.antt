-- ===== src/Http/Cookies.antt =====
-- `getRefreshCookie` of src/auth/controller.ts.
use eventify_backend_course.Common.{
  ◌+◌, String, Option, none, some, List, [], ◌∷◌, str_eq, if◌then◌else◌, split, index_of, slice_to,
  slice_from, trim,
}

abbrev pub refresh_cookie_name : String
refresh_cookie_name = "refreshToken"

-- The key and the value of a part, unless it has no `=`.
unfoldable pub key_value : String → Option (String × String)
unfolding index_of slice_to slice_from trim
key_value part = elim (index_of b'=' part) [
  | none ↦ none
  | some idx ↦ some (trim (slice_to idx part), trim (slice_from (idx + 1) part))
]

-- The loop over the parts.
unfoldable pub find_cookie : List String → Option String
unfolding key_value
find_cookie [] = none
find_cookie (part ∷ parts) =
    let rest = find_cookie parts in
    elim (key_value part) [
      | none ↦ rest
      | some (key, value) ↦ if str_eq key refresh_cookie_name then some value else rest
    ]

unfoldable pub get_refresh_cookie : Option String → Option String
unfolding find_cookie split
get_refresh_cookie none = none
get_refresh_cookie (some header) =
    if str_eq header "" then none else find_cookie (split b';' header)
