-- ===== src/Auth/Service.antt =====
-- src/auth/service.ts and the refresh tokens of src/auth/tokens.ts. What a call draws from outside,
-- the times, the random token and the abort of its transaction, is its first argument.
use eventify_backend_course.Common.{
  ℕ, zero, suc, ◌+◌, ◌*◌, String, Bool, Option, none, some, List, [], ◌∷◌, ltb, if◌then◌else◌,
  length,
}
use mathlib.Core.Option
use eventify_backend_course.Errors.{
  Failure, Thrown, http_error, Result, err, Action, pure, throw, gets, ◌>>=◌, ◌>>◌,
}
use eventify_backend_course.Store.{User, RefreshToken, Store}
use eventify_backend_course.Prisma.{Prisma}
use eventify_backend_course.Auth.Table.{TokenTable}

-- Seven days.
abbrev pub refresh_token_ttl_ms : ℕ
refresh_token_ttl_ms = 7 * 24 * 60 * 60 * 1000

abbrev pub generic_auth_error : Thrown
generic_auth_error = http_error 401 "Invalid email or password"

abbrev pub generic_refresh_error : Thrown
generic_refresh_error = http_error 401 "Invalid or expired refresh token"

-- What a call meets: its time, its random token, and the abort of its transaction, if any.
pub record Draw : Type 0 where
  pub now : ℕ
  pub raw : ℕ
  pub abort : Option Failure
  -- whether the database calls of `revokeFamily` fail
  pub lost : Bool

pub record Session : Type 0 where
  pub access_token : ℕ
  pub refresh_token : ℕ
  pub expires_at : ℕ

pub record Generated : Type 0 where
  pub raw : ℕ
  pub hash : ℕ
  pub expires_at : ℕ

abbrev pub on_tokens :
    {A : Type 0} → (List RefreshToken → Result A × List RefreshToken) → Action Store A
on_tokens call s = let (r, ts) = call s.refresh_tokens in (r, record s { refresh_tokens = ts })

module _ (table : TokenTable) where
  unfoldable pub hash_token : ℕ → ℕ
  hash_token raw = table.sha256 raw

  unfoldable pub generate_refresh_token : Draw → Generated
  unfolding hash_token
  generate_refresh_token draw = record {
    raw = draw.raw;
    hash = hash_token draw.raw;
    expires_at = draw.now + refresh_token_ttl_ms;
  }

  unfoldable pub issue : Draw → User → Action Store Session
  unfolding generate_refresh_token
  issue draw user = do
    let g = generate_refresh_token draw
    on_tokens (table.token_create g.hash user.id g.expires_at)
    pure (record {
      access_token = table.sign draw.now user.id user.role;
      refresh_token = g.raw;
      expires_at = g.expires_at;
    })

  unfoldable pub login : Draw → String → Action Store Session
  unfolding issue
  login draw email = do
    user ← gets λ s. table.user_find email s.users
    elim user [ none ↦ throw generic_auth_error | some u ↦ issue draw u ]

  -- The loop of `revokeFamily`; `none` where the fuel runs out.
  unfoldable pub descendants : ℕ → ℕ → List RefreshToken → Option (List ℕ)
  descendants zero id ts = none
  descendants (suc fuel) id ts = elim (table.token_find id ts) [
    | none ↦ some []
    | some node ↦ elim node.replaced_by_id [
      | none ↦ some []
      | some j ↦ Option.map (λ ids. j ∷ ids) (descendants fuel j ts)
    ]
  ]

  -- An empty update is skipped.
  unfoldable pub revoke_all : ℕ → List ℕ → List RefreshToken → List RefreshToken
  revoke_all now [] ts = ts
  revoke_all now (j ∷ ids) ts = table.token_revoke now (j ∷ ids) ts

  -- One round of the loop for each token suffices (`Family`).
  unfoldable pub revoke_family : ℕ → ℕ → Store → Store
  unfolding revoke_all
  revoke_family now presented s =
      elim (descendants (suc (length s.refresh_tokens)) presented s.refresh_tokens) [
        | none ↦ s
        | some ids ↦ record s { refresh_tokens = revoke_all now ids s.refresh_tokens }
      ]

  -- The callback of the rotation's transaction.
  unfoldable pub replace_token : Draw → RefreshToken → Action Store RefreshToken
  unfolding generate_refresh_token
  replace_token draw stored = do
    let g = generate_refresh_token draw
    created ← on_tokens (table.token_create g.hash stored.user_id g.expires_at)
    on_tokens (table.token_replace stored.id draw.now created.id)
    pure created

module _ (prisma : Prisma) (table : TokenTable) where
  open prisma use {transaction}
  open table use {token_find_hash, sign, role_of}

  -- The presented token is revoked already: the family is revoked, best effort, and the call fails.
  unfoldable pub reuse : Draw → RefreshToken → Action Store Session
  reuse draw stored s =
      (err generic_refresh_error, if draw.lost then s else revoke_family table draw.now stored.id s)

  unfoldable pub rotate_live : Draw → RefreshToken → Action Store Session
  unfolding generate_refresh_token
  rotate_live draw stored = do
    let g = generate_refresh_token table draw
    transaction draw.abort RefreshToken (replace_token table draw stored)
    role ← gets λ s. role_of stored s.users
    pure (record {
      access_token = sign draw.now stored.user_id role;
      refresh_token = g.raw;
      expires_at = g.expires_at;
    })

  -- What follows the read of the presented token; another client may act between the two.
  unfoldable pub rotate_stored : Draw → Option RefreshToken → Action Store Session
  rotate_stored draw none = throw generic_refresh_error
  rotate_stored draw (some stored) = elim stored.revoked_at [
    | some at ↦ reuse draw stored
    | none ↦
        if ltb stored.expires_at draw.now
        then throw generic_refresh_error
        else rotate_live draw stored
  ]

  unfoldable pub rotate_refresh : Draw → ℕ → Action Store Session
  unfolding hash_token
  rotate_refresh draw raw = do
    stored ← gets λ s. token_find_hash (hash_token table raw) s.refresh_tokens
    rotate_stored draw stored
