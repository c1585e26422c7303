-- ===== src/Auth/Family.antt =====
-- The family of a refresh token, and the loop of `revokeFamily` that walks it.
use eventify_backend_course.Common.{
  ℕ, zero, suc, ◌<◌, ◌≡◌, ◌⊎◌, inl, inr, none, some, List, [], ◌∷◌, true, Bool, arith, find, length,
  Option-cases, Bool-cases, ◌==◌,
}
use eventify_backend_course.Store.{RefreshToken}
use eventify_backend_course.Auth.Table.{TokenTable, is_token, is_in}
use eventify_backend_course.Auth.Service.{descendants}

-- A successor is in the table, behind the token that it replaces; ids are unique.
abbrev pub IsChained : List RefreshToken → Type 0
IsChained [] = Unit
IsChained (t ∷ ts) =
    (find (is_token t.id) ts ≡ none)
    × ((j : ℕ) → t.replaced_by_id ≡ some j → (u : RefreshToken) × (find (is_token j) ts ≡ some u))
    × IsChained ts

-- `later` is the table, or what is left of it behind some rows.
data Behind (ts : List RefreshToken) : List RefreshToken → Type 0 where
  whole : Behind ts ts
  next : {t : RefreshToken} {us : List RefreshToken} → Behind ts (t ∷ us) → Behind ts us

-- The token `j` came from `i` by one rotation or more.
pub data Descends (ts : List RefreshToken) (i : ℕ) : ℕ → Type 0 where
  child :
      {j : ℕ} (t : RefreshToken)
      → find (is_token i) ts ≡ some t
      → t.replaced_by_id ≡ some j
      → Descends ts i j
  further :
      {j k : ℕ} (t : RefreshToken)
      → Descends ts i j
      → find (is_token j) ts ≡ some t
      → t.replaced_by_id ≡ some k
      → Descends ts i k

-- A row that any query finds is found by its id.
pub found_by_id :
    (test : RefreshToken → Bool) (ts : List RefreshToken) (t : RefreshToken)
    → IsChained ts
    → find test ts ≡ some t
    → find (is_token t.id) ts ≡ some t
found_by_id test [] t h e = cc
found_by_id test (u ∷ ts) t h e = ground (arith, h.0, found_by_id test ts t h.2)

Behind-IsChained : {ts us : List RefreshToken} → IsChained ts → Behind ts us → IsChained us
Behind-IsChained h whole = h
Behind-IsChained h (next b) = (Behind-IsChained h b).2

find_past :
    (j : ℕ) (t u : RefreshToken) (us : List RefreshToken)
    → IsChained (t ∷ us)
    → find (is_token j) us ≡ some u
    → find (is_token j) (t ∷ us) ≡ some u
find_past j t u us h e = ground (arith, h.0)

find-Behind :
    {ts us : List RefreshToken} (j : ℕ) (u : RefreshToken)
    → IsChained ts
    → Behind ts us
    → find (is_token j) us ≡ some u
    → find (is_token j) ts ≡ some u
find-Behind j u h whole e = e
find-Behind j u h (next {t} {us} b) e =
    find-Behind j u h b (find_past j t u us (Behind-IsChained h b) e)

-- Some rest of the table that is shorter than `us` holds the successor of `t`, if it has one.
abbrev Successor : List RefreshToken → List RefreshToken → RefreshToken → Type 0
Successor ts us t =
    (vs : List RefreshToken) × Behind ts vs
    × (length vs < length us)
    × ((j : ℕ) → t.replaced_by_id ≡ some j → (u : RefreshToken) × (find (is_token j) vs ≡ some u))

Successor-Behind :
    {ts : List RefreshToken} (us : List RefreshToken) (i : ℕ) (t : RefreshToken)
    → IsChained us
    → Behind ts us
    → find (is_token i) us ≡ some t
    → Successor ts us t
Successor-Behind [] i t h b e = cc
Successor-Behind (x ∷ us) i t (_, linked, rest) b e = elim (Bool-cases (x.id == i)) [
  | inl here ↦
      let same : x ≡ t = ground arith in (us, next b, omega arith, λ j r. linked j (rw same r))
  | inr past ↦
      let (vs, c, shorter, found) = Successor-Behind us i t rest (next b) (ground arith) in
      (vs, c, omega arith, found)
]

-- The first link of a descent.
pub Descends-first :
    {ts : List RefreshToken} {i k : ℕ} (t : RefreshToken) (j : ℕ)
    → find (is_token i) ts ≡ some t
    → t.replaced_by_id ≡ some j
    → Descends ts i k
    → (k ≡ j) ⊎ Descends ts j k
Descends-first t j e r (child u f q) = inl (ground arith)
Descends-first {ts} t j e r (further {j = m} u d f q) = elim (Descends-first t j e r d) [
  | inl same ↦ inr (child u (rw (← same) f) q)
  | inr rest ↦ inr (further u rest f q)
]

pub not-Descends :
    {ts : List RefreshToken} {i k : ℕ} (t : RefreshToken)
    → find (is_token i) ts ≡ some t
    → t.replaced_by_id ≡ none
    → ¬ Descends ts i k
not-Descends t e r (child u f q) = ground arith
not-Descends t e r (further u d f q) = not-Descends t e r d

module _ (table : TokenTable) (ts : List RefreshToken) (h : IsChained ts) where
  open table use {token_find_lem}

  -- The loop with this fuel ends, and its list holds every descendant.
  abbrev Finds : ℕ → ℕ → Type 0
  Finds fuel i =
      (ids : List ℕ) × (descendants table fuel i ts ≡ some ids)
      × ((k : ℕ) → Descends ts i k → is_in k ids ≡ true)

  descendants_end :
      (fuel i : ℕ) (t : RefreshToken)
      → find (is_token i) ts ≡ some t
      → t.replaced_by_id ≡ none
      → Finds (suc fuel) i
  unfolding descendants
  descendants_end fuel i t e r =
      ([], ground (arith, token_find_lem i ts), λ k d. absurd (not-Descends t e r d))

  descendants_link :
      (fuel i j : ℕ) (t : RefreshToken)
      → find (is_token i) ts ≡ some t
      → t.replaced_by_id ≡ some j
      → Finds fuel j
      → Finds (suc fuel) i
  unfolding descendants
  descendants_link fuel i j t e r (ids, found, all) = (
    j ∷ ids,
    ground (arith, token_find_lem i ts),
    λ k d. elim (Descends-first t j e r d) [
      | inl same ↦ rw same (ground arith)
      | inr rest ↦ ground (arith, all k rest)
    ],
  )

  descendants_total :
      (fuel : ℕ) (us : List RefreshToken) (i : ℕ) (t : RefreshToken)
      → Behind ts us
      → find (is_token i) us ≡ some t
      → length us < fuel
      → Finds fuel i
  descendants_total zero us i t b e lt = absurd (omega arith)
  descendants_total (suc fuel) us i t b e lt =
      let (vs, c, shorter, linked) = Successor-Behind us i t (Behind-IsChained h b) b e in
      let whole_e = find-Behind i t h b e in
      elim (Option-cases t.replaced_by_id) [
        | inl last ↦ descendants_end fuel i t whole_e last
        | inr (j, r) ↦
            let (u, f) = linked j r in
            descendants_link fuel i j t whole_e r (descendants_total fuel vs j u c f (omega arith))
      ]

  -- The loop of `revokeFamily` ends within one round for each token and one more, whatever token it
  -- starts at, on a table where each successor was made later; its list holds every descendant.
  pub descendants-Finds :
      (i : ℕ) (t : RefreshToken)
      → find (is_token i) ts ≡ some t
      → (ids : List ℕ) × (descendants table (suc (length ts)) i ts ≡ some ids)
        × ((k : ℕ) → Descends ts i k → is_in k ids ≡ true)
  descendants-Finds i t e = descendants_total (suc (length ts)) ts i t whole e (omega arith)
