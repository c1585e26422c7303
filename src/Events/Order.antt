-- ===== src/Events/Order.antt =====
-- Events in the order of their start: distinct ones have one order.
use eventify_backend_course.Common.{
  ◌∙◌, length, ◌≡◌, ◌≢◌, ◌≤◌, String, inl, inr, refl, sym, subst, str_eq, str_eq_iff, Bool-cases,
  true, arith,
}
use eventify_backend_course.Store.{Event}
use mathlib.Core.Path.{ap₂}
use mathlib.Core.Logic.Or
use mathlib.Core.Logic.{∥∥₁_elim}
use mathlib.Core.HLevel.{hedberg}
use native.Mathlib.Bridge.{le_prop}
use mathlib.Core.List.{
  List, [], ◌∷◌, Mem, Perm, Permᴰ, Pairwise, mem-cons_self, eq-or-mem_of_mem-cons,
}
use mathlib.Core.List.Pairwise
use mathlib.Core.List.Perm
use native.Mathlib.Decide.{ℕ_discrete}
use native.Mathlib.Nat.{le_antisymm}

String-discrete : Discrete String
String-discrete s t = elim (Bool-cases (str_eq s t)) [
  | inl same ↦ yes ((str_eq_iff s t).0 same)
  | inr other ↦ no (λ e. let same : str_eq s t ≡ true = (str_eq_iff s t).1 e in ground arith)
]

Event_set : IsSet Event
Event_set = hlevel (hedberg String-discrete)

-- `orderBy: { startsAt: "asc" }`
abbrev pub IsOrdered : List Event → Type 0
IsOrdered = Pairwise (λ a b. a.starts_at ≤ b.starts_at)

-- No two start at one time.
abbrev pub IsDistinct : List Event → Type 0
IsDistinct = Pairwise (λ a b. a.starts_at ≢ b.starts_at)

-- The first starts no later than any.
first_least :
    (a b : Event) (l : List Event) → IsOrdered (a ∷ l) → Mem b (a ∷ l) → a.starts_at ≤ b.starts_at
first_least a b l (Pairwise.cons below rest) m =
    Or.elim (le_prop) (eq-or-mem_of_mem-cons m)
      (λ same. subst (λ x. a.starts_at ≤ x.starts_at) (sym same) (omega arith))
      (λ later. below b later)

-- Of distinct events, the one that starts at a time is one.
same_start :
    (a b : Event) (l : List Event)
    → IsDistinct (a ∷ l)
    → Mem b (a ∷ l)
    → a.starts_at ≡ b.starts_at
    → a ≡ b
same_start a b l (Pairwise.cons apart rest) m e =
    Or.elim (Event_set a b) (eq-or-mem_of_mem-cons m) (λ same. sym same)
      (λ later. absurd (apart b later e))

-- Distinct events have one order.
pub one_order : (l r : List Event) → IsOrdered l → IsOrdered r → IsDistinct l → Perm l r → l ≡ r
one_order [] r sl sr d p = Perm.nil-eq p
one_order (a ∷ l) [] sl sr d p = Perm.eq-nil p
one_order (a ∷ l) (b ∷ r) sl sr d p =
    let b_in : Mem b (a ∷ l) = (Perm.mem_iff p).1 mem-cons_self in
    let a_in : Mem a (b ∷ r) = (Perm.mem_iff p).0 mem-cons_self in
    let same =
      same_start a b l d b_in
        (le_antisymm (first_least a b l sl b_in) (first_least b a r sr a_in)) in
    let rest = Perm.cons_inv (subst (λ x. Perm (x ∷ l) (b ∷ r)) same p) in
    ap₂ ◌∷◌ same
      (one_order l r (Pairwise.of_cons sl) (Pairwise.of_cons sr) (Pairwise.of_cons d) rest)

pub IsDistinct-Perm : (l r : List Event) → Perm l r → IsDistinct l → IsDistinct r
IsDistinct-Perm l r p d = Perm.pairwise (λ a b. hlevel) (λ a b ne e. ne (sym e)) p d

length-Permᴰ : (l r : List Event) → Permᴰ l r → length l ≡ length r
length-Permᴰ _ _ Permᴰ.nil = refl
length-Permᴰ _ _ (Permᴰ.cons e d) = let rest = length-Permᴰ _ _ d in omega (arith, rest)
length-Permᴰ _ _ (Permᴰ.swap e f) = refl
length-Permᴰ _ _ (Permᴰ.trans d f) = length-Permᴰ _ _ d ∙ length-Permᴰ _ _ f

pub length-Perm : (l r : List Event) → Perm l r → length l ≡ length r
length-Perm l r p = ∥∥₁_elim p (hedberg ℕ_discrete (length l) (length r)) (length-Permᴰ l r)
