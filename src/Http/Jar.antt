-- ===== src/Http/Jar.antt =====
-- The cookies that a browser sends, as RFC 6265 has it send them, are read back.
use Prim.Native.Char.{Char}
use eventify_backend_course.Common.{
  suc, ◌≡◌, ◌∙◌, refl, ap, inl, inr, String, Bool, false, ◌||◌, Option, none, some, List, [], ◌∷◌,
  map, All, str_eq, str_eq_iff, if◌then◌else◌, arith, Bool-cases, append, prefixed, join, split,
  trim, is_char, is_space, Avoids, Avoids-append, Avoids-less, append_nil, split_alone,
  split-append, index_of-append, slice_to-append, slice_from-append, trim_word, trim_spaced, chars,
}
use eventify_backend_course.Http.Cookies.{
  refresh_cookie_name, key_value, find_cookie, get_refresh_cookie,
}

pub record Cookie : Type 0 where
  pub key : String
  pub value : String

unfoldable pair : Cookie → String
unfolding append
pair cookie = append cookie.key (append "=" cookie.value)

-- The Cookie header of a browser.
unfoldable pub cookie_header : List Cookie → String
unfolding pair join
cookie_header jar = join "; " (map pair jar)

-- The first cookie with the name.
abbrev pub refresh_cookie : List Cookie → Option String
refresh_cookie [] = none
refresh_cookie (cookie ∷ jar) =
    if str_eq cookie.key refresh_cookie_name then some cookie.value else refresh_cookie jar

-- What the grammar of cookies excludes, among others.
abbrev pub is_stop : Char → Bool
is_stop c = is_char b';' c || is_space c

abbrev pub IsCookie : Cookie → Type 0
IsCookie cookie = Avoids (λ c. is_char b'=' c || is_stop c) cookie.key × Avoids is_stop cookie.value

or_false : (a b : Bool) → a || b ≡ false → (a ≡ false) × (b ≡ false)
or_false a b h = ground arith

pair-Avoids : (cookie : Cookie) → IsCookie cookie → Avoids (is_char b';') (pair cookie)
unfolding pair
pair-Avoids cookie (k, v) =
    Avoids-append (is_char b';') cookie.key (append "=" cookie.value)
      (Avoids-less (is_char b';') _ cookie.key (λ c h. (or_false _ _ (or_false _ _ h).1).0) k)
      (refl, Avoids-less (is_char b';') _ cookie.value (λ c h. (or_false _ _ h).0) v)

-- A part is cut at its first `=`.
key_value_cut :
    (key value : String)
    → Avoids (is_char b'=') key
    → key_value (append key (String.◌∷◌ "=" value)) ≡ some (trim key, trim value)
unfolding key_value
key_value_cut key value h =
    rw
      (
        index_of-append b'=' key value "=" h refl,
        key_value,
        slice_to-append key (String.◌∷◌ "=" value),
        slice_from-append key value "=",
      )
      refl

word :
    (cookie : Cookie) → IsCookie cookie → Avoids is_space cookie.key × Avoids is_space cookie.value
word cookie (k, v) = (
  Avoids-less is_space _ cookie.key (λ c h. (or_false _ _ (or_false _ _ h).1).1) k,
  Avoids-less is_space _ cookie.value (λ c h. (or_false _ _ h).1) v,
)

no_equals : (cookie : Cookie) → IsCookie cookie → Avoids (is_char b'=') cookie.key
no_equals cookie (k, v) = Avoids-less (is_char b'=') _ cookie.key (λ c h. (or_false _ _ h).0) k

key_value-pair :
    (cookie : Cookie) → IsCookie cookie → key_value (pair cookie) ≡ some (cookie.key, cookie.value)
unfolding pair append
key_value-pair cookie h =
    let (k, v) = word cookie h in
    key_value_cut cookie.key cookie.value (no_equals cookie h)
    ∙ rw (trim_word cookie.key k, trim_word cookie.value v) refl

abbrev spaced : String → String
spaced s = String.◌∷◌ " " s

key_value-spaced :
    (cookie : Cookie)
    → IsCookie cookie
    → key_value (spaced (pair cookie)) ≡ some (cookie.key, cookie.value)
unfolding pair append
key_value-spaced cookie h =
    let (k, v) = word cookie h in
    key_value_cut (spaced cookie.key) cookie.value (refl, no_equals cookie h)
    ∙ rw (trim_spaced cookie.key " " refl k, trim_word cookie.value v) refl

-- The header is split back into the pairs, each but the first behind its space.
split-prefixed :
    (first : String) (parts : List String)
    → Avoids (is_char b';') first
    → All (Avoids (is_char b';')) parts
    → split b';' (append first (prefixed "; " parts)) ≡ first ∷ map spaced parts
unfolding prefixed append
split-prefixed first [] h all = ap (split b';') (append_nil first) ∙ split_alone b';' first h
split-prefixed first (part ∷ parts) h (here, rest) =
    split-append b';' first (append (spaced part) (prefixed "; " parts)) ";" h refl
    ∙ ap (λ ps. first ∷ ps) (split-prefixed (spaced part) parts (refl, here) rest)

find_cookie-step :
    (part key value : String) (parts : List String)
    → key_value part ≡ some (key, value)
    → find_cookie (part ∷ parts)
      ≡ (if str_eq key refresh_cookie_name then some value else find_cookie parts)
unfolding find_cookie
find_cookie-step part key value parts e = rw (e, find_cookie) refl

find_cookie-none : find_cookie [] ≡ none
unfolding find_cookie
find_cookie-none = refl

find_cookie-spaced :
    (jar : List Cookie)
    → All IsCookie jar
    → find_cookie (map spaced (map pair jar)) ≡ refresh_cookie jar
find_cookie-spaced [] h = find_cookie-none
find_cookie-spaced (cookie ∷ jar) (here, rest) =
    find_cookie-step (spaced (pair cookie)) cookie.key cookie.value (map spaced (map pair jar))
      (key_value-spaced cookie here)
    ∙ rw (find_cookie-spaced jar rest) refl

find_cookie-pairs :
    (cookie : Cookie) (jar : List Cookie)
    → IsCookie cookie
    → All IsCookie jar
    → find_cookie (pair cookie ∷ map spaced (map pair jar)) ≡ refresh_cookie (cookie ∷ jar)
find_cookie-pairs cookie jar here rest =
    find_cookie-step (pair cookie) cookie.key cookie.value (map spaced (map pair jar))
      (key_value-pair cookie here)
    ∙ rw (find_cookie-spaced jar rest) refl

pairs-Avoids : (jar : List Cookie) → All IsCookie jar → All (Avoids (is_char b';')) (map pair jar)
pairs-Avoids [] h = tt
pairs-Avoids (cookie ∷ jar) (here, rest) = (pair-Avoids cookie here, pairs-Avoids jar rest)

cons_given : (c : Char) (s : String) → str_eq (String.◌∷◌ c s) "" ≡ false
cons_given c s = elim (Bool-cases (str_eq (String.◌∷◌ c s) "")) [
  | inr given ↦ given
  | inl empty ↦
      let same : String.◌∷◌ c s ≡ "" = (str_eq_iff _ _).0 empty in
      let none_left : suc (chars s) ≡ 0 = ap chars same in ground arith
]

header_given : (cookie : Cookie) (rest : String) → str_eq (append (pair cookie) rest) "" ≡ false
unfolding pair append
header_given cookie rest = given cookie.key cookie.value
  where
    given : (key value : String) → str_eq (append (append key (append "=" value)) rest) "" ≡ false
    given String.[] value = cons_given "=" _
    given (String.◌∷◌ c key) value = cons_given c _

-- Reading gives back what was sent: from the header that a browser writes for its cookies, whose
-- keys have no `=` and whose keys and values have no `;` and no white space, getRefreshCookie takes
-- the value of the first cookie with its name, and nothing where there is none.
pub get_refresh_cookie-header :
    (jar : List Cookie)
    → All IsCookie jar
    → get_refresh_cookie (some (cookie_header jar)) ≡ refresh_cookie jar
unfolding get_refresh_cookie cookie_header join
get_refresh_cookie-header [] h = refl
get_refresh_cookie-header (cookie ∷ jar) (here, rest) =
    rw
      (
        header_given cookie (prefixed "; " (map pair jar)),
        split-prefixed (pair cookie) (map pair jar) (pair-Avoids cookie here)
            (pairs-Avoids jar rest),
      )
      (find_cookie-pairs cookie jar here rest)
