-- ===== src/Common/Lists.antt =====
-- Rows of a table as a list: counting, finding and changing those that pass a test.
use Prim.Native.Nat.{ℕ, zero, suc, ◌+◌, ◌≤◌}
use mathlib.Core.Path.{◌≡◌, refl, subst, ap}
use mathlib.Core.Bool.{Bool, true, false}
use mathlib.Core.Logic.{inl, inr}
use mathlib.Core.List.{List, [], ◌∷◌, ◌++◌}
use mathlib.Core.Option.{Option, none, some}
use native.Mathlib.Omega.{arith}
use eventify_backend_course.Common.Tests.{if◌then◌else◌, Bool-cases}

-- What one row adds to a count.
abbrev pub one : Bool → ℕ
one true = 1
one false = 0

module _ {ℓ} {A : Type ℓ} where
  abbrev pub length : List A → ℕ
  length [] = 0
  length (x ∷ xs) = suc (length xs)

  abbrev pub count_where : (A → Bool) → List A → ℕ
  count_where test [] = 0
  count_where test (x ∷ xs) = one (test x) + count_where test xs

  abbrev pub find : (A → Bool) → List A → Option A
  find test [] = none
  find test (x ∷ xs) = if test x then some x else find test xs

  -- The rows that pass.
  abbrev pub those : (A → Bool) → List A → List A
  those test [] = []
  those test (x ∷ xs) = if test x then x ∷ those test xs else those test xs

  abbrev pub take : ℕ → List A → List A
  take zero xs = []
  take (suc n) [] = []
  take (suc n) (x ∷ xs) = x ∷ take n xs

  abbrev pub drop : ℕ → List A → List A
  drop zero xs = xs
  drop (suc n) [] = []
  drop (suc n) (x ∷ xs) = drop n xs

  take_nil : (n : ℕ) → take n [] ≡ []
  take_nil zero = refl
  take_nil (suc n) = refl

  pub take-append-drop : (m n : ℕ) (xs : List A) → take m xs ++ take n (drop m xs) ≡ take (m + n) xs
  take-append-drop zero n xs = let same : 0 + n ≡ n = omega arith in rw same refl
  take-append-drop (suc m) n [] = rw (take_nil n, take_nil (suc m + n)) refl
  take-append-drop (suc m) n (x ∷ xs) =
      let same : suc m + n ≡ suc (m + n) = omega arith in
      rw same (ap (λ ys. x ∷ ys) (take-append-drop m n xs))

  pub take_all : (n : ℕ) (xs : List A) → length xs ≤ n → take n xs ≡ xs
  take_all zero [] h = refl
  take_all zero (x ∷ xs) h = ground arith
  take_all (suc n) [] h = refl
  take_all (suc n) (x ∷ xs) h = ground (arith, take_all n xs)

  -- The first row that passes is replaced.
  abbrev pub change : (A → Bool) → (A → A) → List A → List A
  change test f [] = []
  change test f (x ∷ xs) = if test x then f x ∷ xs else x ∷ change test f xs

  pub count_where-append :
      (test : A → Bool) (xs ys : List A)
      → count_where test (xs ++ ys) ≡ count_where test xs + count_where test ys
  count_where-append test [] ys = omega arith
  count_where-append test (x ∷ xs) ys = omega (arith, count_where-append test xs ys)

  pub find_passes : (test : A → Bool) (xs : List A) (x : A) → find test xs ≡ some x → test x ≡ true
  find_passes test [] x e = ground arith
  find_passes test (y ∷ xs) x e = ground (arith, find_passes test xs x)

  pub find-append_some :
      (test : A → Bool) (xs ys : List A) (x : A)
      → find test xs ≡ some x
      → find test (xs ++ ys) ≡ some x
  find-append_some test [] ys x e = ground arith
  find-append_some test (y ∷ xs) ys x e = ground (arith, find-append_some test xs ys x)

  pub find-append_none :
      (test : A → Bool) (xs ys : List A) → find test xs ≡ none → find test (xs ++ ys) ≡ find test ys
  find-append_none test [] ys e = refl
  find-append_none test (y ∷ xs) ys e = ground (arith, find-append_none test xs ys)

  -- Changing one row moves any count by what that row adds before and after.
  pub count_where-change :
      (p test : A → Bool) (f : A → A) (xs : List A) (x : A)
      → find test xs ≡ some x
      → count_where p (change test f xs) + one (p x) ≡ count_where p xs + one (p (f x))
  count_where-change p test f [] x e = ground arith
  count_where-change p test f (y ∷ xs) x e = ground (arith, count_where-change p test f xs x)

  pub length-change :
      (test : A → Bool) (f : A → A) (xs : List A) → length (change test f xs) ≡ length xs
  length-change test f [] = refl
  length-change test f (y ∷ xs) = ground (arith, length-change test f xs)

module _ {ℓ} {A : Type ℓ} where
  -- No row that can be found passes a test that no row passes.
  pub find_fails :
      (p q : A → Bool) (xs : List A) (x : A) → find p xs ≡ some x → find q xs ≡ none → q x ≡ false
  find_fails p q [] x e f = ground arith
  find_fails p q (y ∷ xs) x e f = ground (arith, find_fails p q xs x)

  pub count_where_pos :
      (test : A → Bool) (xs : List A) (x : A) → find test xs ≡ some x → 1 ≤ count_where test xs
  count_where_pos test [] x e = ground arith
  count_where_pos test (y ∷ xs) x e = ground (arith, count_where_pos test xs x)

module _ {ℓ κ} {A : Type ℓ} (P : A → Type κ) where
  abbrev pub All : List A → Type κ
  All [] = Unit
  All (x ∷ xs) = P x × All xs

  pub All-find : (test : A → Bool) (xs : List A) (x : A) → All xs → find test xs ≡ some x → P x
  All-find test [] x h e = cc
  All-find test (y ∷ xs) x (here, rest) e = elim (Bool-cases (test y)) [
    | inl passes ↦ let same : y ≡ x = ground arith in subst P same here
    | inr fails ↦ All-find test xs x rest (ground arith)
  ]
