-- ===== src/Auth/Table.antt =====
-- What src/auth/ uses of code outside the repository: the tables of users and of refresh tokens
-- behind the Prisma client, sha256, random bytes and the signing of access tokens.
use eventify_backend_course.Common.{
  ℕ, ◌≡◌, String, Bool, false, Option, none, some, List, [], ◌∷◌, ◌++◌, ◌==◌, ◌||◌, find, change,
  map, str_eq, if◌then◌else◌,
}
use eventify_backend_course.Errors.{known_error, Result, ok, err}
use eventify_backend_course.Store.{User, Role, RefreshToken}

abbrev pub has_hash : ℕ → RefreshToken → Bool
has_hash hash t = t.token_hash == hash

abbrev pub is_token : ℕ → RefreshToken → Bool
is_token id t = t.id == id

abbrev pub is_in : ℕ → List ℕ → Bool
is_in id [] = false
is_in id (j ∷ ids) = id == j || is_in id ids

abbrev pub new_token : ℕ → ℕ → ℕ → ℕ → RefreshToken
new_token id hash user_id expires_at = record {
  id = id;
  token_hash = hash;
  user_id = user_id;
  expires_at = expires_at;
  revoked_at = none;
  replaced_by_id = none;
}

-- data: { revokedAt, replacedById }
abbrev pub replaced : ℕ → ℕ → RefreshToken → RefreshToken
replaced now successor t = record t { revoked_at = some now; replaced_by_id = some successor }

-- where: { id: { in: ids }, revokedAt: null }, data: { revokedAt }
abbrev pub revoked : ℕ → List ℕ → RefreshToken → RefreshToken
revoked now ids t = elim t.revoked_at [
  | some at ↦ t
  | none ↦ if is_in t.id ids then record t { revoked_at = some now } else t
]

pub record TokenTable : Type 0 where
  -- user.findUnique({ where: { email } })
  pub user_find : String → List User → Option User
  pub user_find_lem :
      (email : String) (us : List User) → user_find email us ≡ find (λ u. str_eq u.email email) us
  -- refreshToken.findUnique({ where: { tokenHash }, include: { user: true } }), the token's part
  pub token_find_hash : ℕ → List RefreshToken → Option RefreshToken
  pub token_find_hash_lem :
      (hash : ℕ) (ts : List RefreshToken) → token_find_hash hash ts ≡ find (has_hash hash) ts
  -- the role of the user that it includes
  pub role_of : RefreshToken → List User → Role
  pub role_of_lem :
      (t : RefreshToken) (us : List User) (u : User)
      → find (λ v. v.id == t.user_id) us ≡ some u
      → role_of t us ≡ u.role
  -- refreshToken.findUnique({ where: { id } })
  pub token_find : ℕ → List RefreshToken → Option RefreshToken
  pub token_find_lem : (id : ℕ) (ts : List RefreshToken) → token_find id ts ≡ find (is_token id) ts
  -- refreshToken.create({ data: { tokenHash, userId, expiresAt } }); the id is the schema's default
  pub token_id : List RefreshToken → ℕ
  pub token_id_lem : (ts : List RefreshToken) → find (is_token (token_id ts)) ts ≡ none
  pub token_create : ℕ → ℕ → ℕ → List RefreshToken → Result RefreshToken × List RefreshToken
  pub token_create_new :
      (hash user_id expires_at : ℕ) (ts : List RefreshToken)
      → find (has_hash hash) ts ≡ none
      → token_create hash user_id expires_at ts ≡ (
        ok (new_token (token_id ts) hash user_id expires_at),
        ts ++ new_token (token_id ts) hash user_id expires_at ∷ [],
      )
  pub token_create_taken :
      (hash user_id expires_at : ℕ) (ts : List RefreshToken) (t : RefreshToken)
      → find (has_hash hash) ts ≡ some t
      → token_create hash user_id expires_at ts ≡ (err (known_error "P2002"), ts)
  -- refreshToken.update({ where: { id }, data: { revokedAt, replacedById } })
  pub token_replace :
      (id now successor : ℕ) → List RefreshToken → Result RefreshToken × List RefreshToken
  pub token_replace_some :
      (id now successor : ℕ) (ts : List RefreshToken) (t : RefreshToken)
      → find (is_token id) ts ≡ some t
      → token_replace id now successor ts
        ≡ (ok (replaced now successor t), change (is_token id) (replaced now successor) ts)
  -- refreshToken.updateMany({ where: { id: { in: ids }, revokedAt: null }, data: { revokedAt } })
  pub token_revoke : (now : ℕ) → List ℕ → List RefreshToken → List RefreshToken
  pub token_revoke_lem :
      (now : ℕ) (ids : List ℕ) (ts : List RefreshToken)
      → token_revoke now ids ts ≡ map (revoked now ids) ts
  -- createHash("sha256").update(raw).digest("hex")
  pub sha256 : ℕ → ℕ
  -- jwt.sign({ sub, role, jti }, secret, { algorithm: "HS256", expiresIn: "15m" }) at a time
  pub sign : (now sub : ℕ) → Role → ℕ
