-- ===== src/Auth/Memory.antt =====
-- The table of tokens in memory: functions that meet the laws of `TokenTable`, for the tests. The
-- hash adds one, and an access token is a sum.
use eventify_backend_course.Common.{
  ℕ, suc, ◌+◌, ◌≤◌, max, ◌≡◌, refl, none, some, List, [], ◌∷◌, ◌++◌, arith, find, change, map,
  str_eq, ◌==◌,
}
use eventify_backend_course.Errors.{known_error, Result, ok, err}
use eventify_backend_course.Store.{User, Role, attendee, RefreshToken}
use eventify_backend_course.Auth.Table.{
  TokenTable, has_hash, is_token, new_token, replaced, revoked,
}

unfoldable pub next_token_id : List RefreshToken → ℕ
next_token_id [] = 0
next_token_id (t ∷ ts) = max (suc t.id) (next_token_id ts)

next_token_id_above :
    (i : ℕ) (ts : List RefreshToken) → next_token_id ts ≤ i → find (is_token i) ts ≡ none
unfolding next_token_id
next_token_id_above i [] h = refl
next_token_id_above i (t ∷ ts) h =
    let apart : suc t.id ≤ i = omega arith in
    let rest : next_token_id ts ≤ i = omega arith in ground (arith, next_token_id_above i ts rest)

pub next_token_id_new : (ts : List RefreshToken) → find (is_token (next_token_id ts)) ts ≡ none
next_token_id_new ts = next_token_id_above (next_token_id ts) ts (omega arith)

pub insert_token : ℕ → ℕ → ℕ → List RefreshToken → Result RefreshToken × List RefreshToken
insert_token hash user_id expires_at ts = elim (find (has_hash hash) ts) [
  | some t ↦ (err (known_error "P2002"), ts)
  | none ↦ let t = new_token (next_token_id ts) hash user_id expires_at in (ok t, ts ++ t ∷ [])
]

pub insert_token_new :
    (hash user_id expires_at : ℕ) (ts : List RefreshToken)
    → find (has_hash hash) ts ≡ none
    → insert_token hash user_id expires_at ts ≡ (
      ok (new_token (next_token_id ts) hash user_id expires_at),
      ts ++ new_token (next_token_id ts) hash user_id expires_at ∷ [],
    )
unfolding insert_token
insert_token_new hash user_id expires_at ts e = rw (e, insert_token)

pub insert_token_taken :
    (hash user_id expires_at : ℕ) (ts : List RefreshToken) (t : RefreshToken)
    → find (has_hash hash) ts ≡ some t
    → insert_token hash user_id expires_at ts ≡ (err (known_error "P2002"), ts)
unfolding insert_token
insert_token_taken hash user_id expires_at ts t e = rw (e, insert_token)

pub replace_row :
    (id now successor : ℕ) → List RefreshToken → Result RefreshToken × List RefreshToken
replace_row id now successor ts = elim (find (is_token id) ts) [
  | none ↦ (err (known_error "P2025"), ts)
  | some t ↦ (ok (replaced now successor t), change (is_token id) (replaced now successor) ts)
]

pub replace_row_found :
    (id now successor : ℕ) (ts : List RefreshToken) (t : RefreshToken)
    → find (is_token id) ts ≡ some t
    → replace_row id now successor ts
      ≡ (ok (replaced now successor t), change (is_token id) (replaced now successor) ts)
unfolding replace_row
replace_row_found id now successor ts t e = rw (e, replace_row)

pub find_role : RefreshToken → List User → Role
find_role t us = elim (find (λ v. v.id == t.user_id) us) [ none ↦ attendee | some u ↦ u.role ]

pub find_role_found :
    (t : RefreshToken) (us : List User) (u : User)
    → find (λ v. v.id == t.user_id) us ≡ some u
    → find_role t us ≡ u.role
unfolding find_role
find_role_found t us u e = rw (e, find_role)

unfoldable pub token_memory : TokenTable
unfolding next_token_id insert_token replace_row find_role
token_memory = record {
  user_find = λ email us. find (λ u. str_eq u.email email) us;
  user_find_lem = λ email us. refl;
  token_find_hash = λ hash ts. find (has_hash hash) ts;
  token_find_hash_lem = λ hash ts. refl;
  role_of = find_role;
  role_of_lem = find_role_found;
  token_find = λ id ts. find (is_token id) ts;
  token_find_lem = λ id ts. refl;
  token_id = next_token_id;
  token_id_lem = next_token_id_new;
  token_create = insert_token;
  token_create_new = insert_token_new;
  token_create_taken = insert_token_taken;
  token_replace = replace_row;
  token_replace_some = replace_row_found;
  token_revoke = λ now ids ts. map (revoked now ids) ts;
  token_revoke_lem = λ now ids ts. refl;
  sha256 = λ raw. raw + 1;
  sign = λ now sub role. now + sub;
}
