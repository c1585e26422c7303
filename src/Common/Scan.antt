-- ===== src/Common/Scan.antt =====
-- The methods of strings that the program calls, by characters. Positions count characters, where
-- JavaScript counts its units; the program only slices at a position that `index_of` found.
use Prim.Native.Nat.{ℕ, zero, suc}
use Prim.Native.Char.{Char, code}
use Prim.Native.String.{String}
use mathlib.Core.Bool.{Bool, false, ◌&&◌, ◌||◌}
use mathlib.Core.Option.{Option, none, some}
use mathlib.Core.List.{List, [], ◌∷◌}
use mathlib.Core.Path.{◌≡◌}
use text.Mathlib.Text.{◌==◌ as str_eq}
use eventify_backend_course.Common.Tests.{if◌then◌else◌, ◌==◌, leb}

abbrev pub is_char : ℕ → Char → Bool
is_char n c = code c == n

-- White space and line ends, as ECMAScript lists them.
abbrev pub is_space : Char → Bool
is_space c =
    let n = code c in
    (leb 9 n && leb n 13)
    || (n == 32)
    || (n == 160)
    || (n == 5760)
    || (leb 8192 n && leb n 8202)
    || (n == 8232)
    || (n == 8233)
    || (n == 8239)
    || (n == 8287)
    || (n == 12288)
    || (n == 65279)

abbrev push : Char → List String → List String
push c [] = String.◌∷◌ c "" ∷ []
push c (part ∷ parts) = String.◌∷◌ c part ∷ parts

-- split, at one character
unfoldable pub split : ℕ → String → List String
split separator String.[] = "" ∷ []
split separator (String.◌∷◌ c s) =
    let rest = split separator s in if is_char separator c then "" ∷ rest else push c rest

-- indexOf, of one character
unfoldable pub index_of : ℕ → String → Option ℕ
index_of n String.[] = none
index_of n (String.◌∷◌ c s) =
    let rest = index_of n s in
    if is_char n c then some 0 else elim rest [ none ↦ none | some i ↦ some (suc i) ]

-- slice(0, i)
unfoldable pub slice_to : ℕ → String → String
slice_to zero s = ""
slice_to (suc i) String.[] = ""
slice_to (suc i) (String.◌∷◌ c s) = String.◌∷◌ c (slice_to i s)

-- slice(i)
unfoldable pub slice_from : ℕ → String → String
slice_from zero s = s
slice_from (suc i) String.[] = ""
slice_from (suc i) (String.◌∷◌ c s) = slice_from i s

unfoldable pub trim_start : String → String
trim_start String.[] = ""
trim_start (String.◌∷◌ c s) = let rest = trim_start s in if is_space c then rest else String.◌∷◌ c s

unfoldable pub trim_end : String → String
trim_end String.[] = ""
trim_end (String.◌∷◌ c s) =
    let rest = trim_end s in if is_space c && str_eq rest "" then "" else String.◌∷◌ c rest

unfoldable pub trim : String → String
unfolding trim_start trim_end
trim s = trim_end (trim_start s)

-- No character passes the test.
abbrev pub Avoids : (Char → Bool) → String → Type 0
Avoids test String.[] = Unit
Avoids test (String.◌∷◌ c s) = (test c ≡ false) × Avoids test s
