-- ===== src/Common/Scanning.antt =====
-- Laws of the methods of strings.
use Prim.Native.Nat.{ℕ, suc, ◌+◌}
use Prim.Native.Char.{Char}
use Prim.Native.String.{String}
use mathlib.Core.Bool.{Bool, true, false}
use mathlib.Core.Option.{some}
use mathlib.Core.List.{[], ◌∷◌}
use mathlib.Core.Path.{◌≡◌, refl, ap, ◌∙◌}
use native.Mathlib.Omega.{arith}
use eventify_backend_course.Common.Texts.{append}
use eventify_backend_course.Common.Scan.{
  is_char, is_space, split, index_of, slice_to, slice_from, trim_start, trim_end, trim, Avoids,
}

abbrev pub chars : String → ℕ
chars String.[] = 0
chars (String.◌∷◌ c s) = suc (chars s)

pub append_nil : (s : String) → append s "" ≡ s
unfolding append
append_nil String.[] = refl
append_nil (String.◌∷◌ c s) = ap (String.◌∷◌ c) (append_nil s)

pub Avoids-append :
    (test : Char → Bool) (s t : String) → Avoids test s → Avoids test t → Avoids test (append s t)
unfolding append
Avoids-append test String.[] t h k = k
Avoids-append test (String.◌∷◌ c s) t (here, rest) k = (here, Avoids-append test s t rest k)

-- What avoids more avoids less.
pub Avoids-less :
    (p q : Char → Bool) (s : String)
    → ((c : Char) → q c ≡ false → p c ≡ false)
    → Avoids q s
    → Avoids p s
Avoids-less p q String.[] less h = tt
Avoids-less p q (String.◌∷◌ c s) less (here, rest) = (less c here, Avoids-less p q s less rest)

pub split_alone : (n : ℕ) (s : String) → Avoids (is_char n) s → split n s ≡ s ∷ []
unfolding split
split_alone n String.[] h = refl
split_alone n (String.◌∷◌ c s) (here, rest) = rw (here, split_alone n s rest) refl

pub split-append :
    (n : ℕ) (s t : String) (c : Char)
    → Avoids (is_char n) s
    → is_char n c ≡ true
    → split n (append s (String.◌∷◌ c t)) ≡ s ∷ split n t
unfolding split append
split-append n String.[] t c h is_n = rw is_n refl
split-append n (String.◌∷◌ d s) t c (here, rest) is_n =
    rw (here, split-append n s t c rest is_n) refl

pub index_of-append :
    (n : ℕ) (s t : String) (c : Char)
    → Avoids (is_char n) s
    → is_char n c ≡ true
    → index_of n (append s (String.◌∷◌ c t)) ≡ some (chars s)
unfolding index_of append
index_of-append n String.[] t c h is_n = rw is_n refl
index_of-append n (String.◌∷◌ d s) t c (here, rest) is_n =
    rw (here, index_of-append n s t c rest is_n) refl

pub slice_to-append : (s t : String) → slice_to (chars s) (append s t) ≡ s
unfolding slice_to append
slice_to-append String.[] t = refl
slice_to-append (String.◌∷◌ c s) t = ap (String.◌∷◌ c) (slice_to-append s t)

slice_from-suc :
    (s t : String) (c : Char) → slice_from (suc (chars s)) (append s (String.◌∷◌ c t)) ≡ t
unfolding slice_from append
slice_from-suc String.[] t c = refl
slice_from-suc (String.◌∷◌ d s) t c = slice_from-suc s t c

pub slice_from-append :
    (s t : String) (c : Char) → slice_from (chars s + 1) (append s (String.◌∷◌ c t)) ≡ t
slice_from-append s t c =
    let one_more : chars s + 1 ≡ suc (chars s) = omega arith in rw one_more (slice_from-suc s t c)

trim_start_word : (s : String) → Avoids is_space s → trim_start s ≡ s
unfolding trim_start
trim_start_word String.[] h = refl
trim_start_word (String.◌∷◌ c s) (here, rest) = rw here refl

trim_end_word : (s : String) → Avoids is_space s → trim_end s ≡ s
unfolding trim_end
trim_end_word String.[] h = refl
trim_end_word (String.◌∷◌ c s) (here, rest) = rw (here, trim_end_word s rest) refl

pub trim_word : (s : String) → Avoids is_space s → trim s ≡ s
unfolding trim
trim_word s h = ap trim_end (trim_start_word s h) ∙ trim_end_word s h

pub trim_spaced :
    (s : String) (c : Char) → is_space c ≡ true → Avoids is_space s → trim (String.◌∷◌ c s) ≡ s
unfolding trim trim_start
trim_spaced s c space h = rw space (trim_word s h)
