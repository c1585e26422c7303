-- ===== src/Auth/Rotation.antt =====
-- The rotation of a refresh token, and what a replayed token sets off.
use eventify_backend_course.Common.{
  ℕ, ◌+◌, ◌≤◌, ◌<◌, ◌≡◌, ◌≢◌, ◌⊎◌, inl, inr, refl, ap, ◌∙◌, none, some, List, [], ◌∷◌, ◌++◌, true,
  arith, find, change, map, ltb, Option-cases, Bool-cases, find-append_some,
}
use eventify_backend_course.Errors.{
  Failure, failure, Result, ok, err, Action, pure, ◌>>◌, >>=_ok, >>=_err,
}
use eventify_backend_course.Store.{RefreshToken, Store}
use eventify_backend_course.Prisma.{Prisma, commit}
use eventify_backend_course.Auth.Table.{
  TokenTable, is_token, is_in, has_hash, new_token, replaced, revoked,
}
use eventify_backend_course.Auth.Service.{
  Draw, Session, generic_refresh_error, refresh_token_ttl_ms, hash_token, on_tokens, replace_token,
  reuse, rotate_live, rotate_stored, rotate_refresh,
}
use eventify_backend_course.Auth.Family.{IsChained, found_by_id}

pub find_token-append_new :
    (ts : List RefreshToken) (t : RefreshToken)
    → find (is_token t.id) ts ≡ none
    → find (is_token t.id) (ts ++ t ∷ []) ≡ some t
find_token-append_new [] t e = ground arith
find_token-append_new (u ∷ ts) t e = ground (arith, find_token-append_new ts t)

pub find_token-replaced :
    (i j now successor : ℕ) (ts : List RefreshToken) (t : RefreshToken)
    → i ≢ j
    → find (is_token j) ts ≡ some t
    → find (is_token j) (change (is_token i) (replaced now successor) ts) ≡ some t
find_token-replaced i j now successor [] t ne e = ground arith
find_token-replaced i j now successor (u ∷ ts) t ne e =
    ground (arith, find_token-replaced i j now successor ts t ne)

pub find_token-replaced_self :
    (i now successor : ℕ) (ts : List RefreshToken) (t : RefreshToken)
    → find (is_token i) ts ≡ some t
    → find (is_token i) (change (is_token i) (replaced now successor) ts)
      ≡ some (replaced now successor t)
find_token-replaced_self i now successor [] t e = ground arith
find_token-replaced_self i now successor (u ∷ ts) t e =
    ground (arith, find_token-replaced_self i now successor ts t)

pub find_token-revoked :
    (k now : ℕ) (ids : List ℕ) (ts : List RefreshToken) (t : RefreshToken)
    → is_in k ids ≡ true
    → find (is_token k) (map (revoked now ids) ts) ≡ some t
    → t.revoked_at ≢ none
find_token-revoked k now ids [] t i e = λ r. cc
find_token-revoked k now ids (u ∷ ts) t i e =
    λ r. ground (arith, find_token-revoked k now ids ts t i)

module _ (table : TokenTable) (draw : Draw) (stored : RefreshToken) (s : Store) where
  open table use {token_id, token_create_new, token_replace_some, sha256}

  abbrev pub fresh : RefreshToken
  fresh =
      new_token (token_id s.refresh_tokens) (sha256 draw.raw) stored.user_id
        (draw.now + refresh_token_ttl_ms)

  -- The store after a rotation.
  abbrev pub rotated : Store
  rotated = record s {
    refresh_tokens =
        change (is_token stored.id) (replaced draw.now fresh.id) (s.refresh_tokens ++ fresh ∷ []);
  }

  pub replace_token_lem :
      (row : RefreshToken)
      → find (has_hash (sha256 draw.raw)) s.refresh_tokens ≡ none
      → find (is_token stored.id) s.refresh_tokens ≡ some row
      → replace_token table draw stored s ≡ (ok fresh, rotated)
  unfolding replace_token hash_token
  replace_token_lem row unused own =
      >>=_ok (on_tokens (table.token_create (sha256 draw.raw) stored.user_id expiry)) then_replace s
        created
      ∙ >>=_ok (on_tokens (table.token_replace stored.id draw.now fresh.id)) (λ _. pure fresh)
          between relinked
    where
      expiry : ℕ
      expiry = draw.now + refresh_token_ttl_ms

      then_replace : RefreshToken → Action Store RefreshToken
      then_replace created =
          on_tokens (table.token_replace stored.id draw.now created.id) >> pure created

      between : Store
      between = record s { refresh_tokens = s.refresh_tokens ++ fresh ∷ [] }

      created :
          on_tokens (table.token_create (sha256 draw.raw) stored.user_id expiry) s
          ≡ (ok fresh, between)
      created =
          rw (token_create_new (sha256 draw.raw) stored.user_id expiry s.refresh_tokens unused)

      relinked :
          on_tokens (table.token_replace stored.id draw.now fresh.id) between
          ≡ (ok (replaced draw.now fresh.id row), rotated)
      relinked = rw (
          token_replace_some stored.id draw.now fresh.id (s.refresh_tokens ++ fresh ∷ []) row
            (find-append_some (is_token stored.id) s.refresh_tokens (fresh ∷ []) row own))

-- The outcome of `rotateRefresh` for the token `raw` at the store `s`. It fails with the one
-- generic error, or with the error of the transaction, and then writes nothing, but where a revoked
-- token is presented. It succeeds for a stored token that is neither revoked nor expired: the new
-- token has the hash of the random one, the same user and seven days, and the old one is revoked
-- and linked to it.
abbrev pub Rotates : TokenTable → Draw → ℕ → Store → Result Session × Store → Type 0
Rotates table draw raw s (err e, s') =
    ((e ≡ generic_refresh_error)
      × ((find (has_hash (table.sha256 raw)) s.refresh_tokens ≡ none) × (s' ≡ s)
          ⊎ ((t : RefreshToken) × (find (has_hash (table.sha256 raw)) s.refresh_tokens ≡ some t)
              × ((t.revoked_at ≢ none)
                  ⊎ ((t.revoked_at ≡ none) × (t.expires_at < draw.now) × (s' ≡ s))))))
    ⊎ ((f : Failure) × (e ≡ failure f) × (draw.abort ≡ some f) × (s' ≡ s))
Rotates table draw raw s (ok session, s') =
    (t : RefreshToken) × (find (has_hash (table.sha256 raw)) s.refresh_tokens ≡ some t)
    × (t.revoked_at ≡ none)
    × (draw.now ≤ t.expires_at)
    × (session.refresh_token ≡ draw.raw)
    × (session.expires_at ≡ draw.now + refresh_token_ttl_ms)
    × (s' ≡ rotated table draw t s)

module _ (prisma : Prisma) (table : TokenTable) (draw : Draw) (raw : ℕ) (s : Store)
    (chained : IsChained s.refresh_tokens)
    (unused : find (has_hash (table.sha256 draw.raw)) s.refresh_tokens ≡ none) where
  open prisma use {transaction_commits, transaction_aborts}
  open table use {sha256, token_find_hash_lem}

  transacted :
      (t : RefreshToken)
      → find (has_hash (sha256 raw)) s.refresh_tokens ≡ some t
      → draw.abort ≡ none
      → prisma.transaction draw.abort RefreshToken (replace_token table draw t) s
        ≡ (ok (fresh table draw t s), rotated table draw t s)
  transacted t e calm =
      ap (λ a. prisma.transaction a RefreshToken (replace_token table draw t) s) calm
      ∙ transaction_commits RefreshToken (replace_token table draw t) s
      ∙ ap (commit s) (
          replace_token_lem table draw t s t unused
            (found_by_id (has_hash (sha256 raw)) s.refresh_tokens t chained e))

  aborted_lem :
      (t : RefreshToken) (f : Failure)
      → draw.abort ≡ some f
      → prisma.transaction draw.abort RefreshToken (replace_token table draw t) s
        ≡ (err (failure f), s)
  aborted_lem t f aborted =
      ap (λ a. prisma.transaction a RefreshToken (replace_token table draw t) s) aborted
      ∙ transaction_aborts f RefreshToken (replace_token table draw t) s

  live_Rotates :
      (t : RefreshToken)
      → find (has_hash (sha256 raw)) s.refresh_tokens ≡ some t
      → t.revoked_at ≡ none
      → draw.now ≤ t.expires_at
      → Rotates table draw raw s (rotate_live prisma table draw t s)
  unfolding rotate_live
  live_Rotates t e live soon = elim (Option-cases draw.abort) [
    | inl calm ↦
        rw
          (>>=_ok (prisma.transaction draw.abort RefreshToken (replace_token table draw t)) _ s
            (transacted t e calm))
          (t, e, live, soon, refl, refl, refl)
    | inr (f, aborted) ↦
        rw
          (>>=_err (prisma.transaction draw.abort RefreshToken (replace_token table draw t)) _ s
            (aborted_lem t f aborted))
          (inr (f, refl, aborted, refl))
  ]

  stored_Rotates :
      (t : RefreshToken)
      → find (has_hash (sha256 raw)) s.refresh_tokens ≡ some t
      → Rotates table draw raw s (rotate_stored prisma table draw (some t) s)
  unfolding rotate_stored reuse
  stored_Rotates t e = elim (Option-cases t.revoked_at) [
    | inr (at, r) ↦ rw (r, rotate_stored) (inl (refl, inr (t, e, inl (λ n. cc))))
    | inl live ↦ elim (Bool-cases (ltb t.expires_at draw.now)) [
      | inl late ↦
          rw (live, late, rotate_stored) (inl (refl, inr (t, e, inr (live, ground arith, refl))))
      | inr soon ↦ rw (live, soon, rotate_stored) (live_Rotates t e live (ground arith))
    ]
  ]

  missing_Rotates :
      find (has_hash (sha256 raw)) s.refresh_tokens ≡ none
      → Rotates table draw raw s (rotate_stored prisma table draw none s)
  unfolding rotate_stored
  missing_Rotates e = inl (refl, inl (e, refl))

  -- `rotateRefresh`, on every branch, on a table where ids are unique and successors come later,
  -- when the hash of the random token is new. An unknown token, and one that is expired, fails with
  -- the generic 401 and changes nothing; one that is revoked fails with the same error; a
  -- transaction that the server aborts fails with its error and changes nothing. Otherwise the
  -- answer is the random token and an expiry in seven days, the table has one new live token with
  -- its hash, the same user and that expiry, the presented token is revoked and linked to it, and
  -- nothing else changes.
  pub rotate_refresh-Rotates : Rotates table draw raw s (rotate_refresh prisma table draw raw s)
  unfolding rotate_refresh hash_token
  rotate_refresh-Rotates = elim (Option-cases (find (has_hash (sha256 raw)) s.refresh_tokens)) [
    | inl e ↦ rw (token_find_hash_lem (sha256 raw) s.refresh_tokens, e) (missing_Rotates e)
    | inr (t, e) ↦ rw (token_find_hash_lem (sha256 raw) s.refresh_tokens, e) (stored_Rotates t e)
  ]
