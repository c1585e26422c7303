-- ===== src/Auth/Open.antt =====
-- Tokens that can be rotated, through a login and a rotation.
use eventify_backend_course.Common.{
  ℕ, ◌+◌, ◌≤◌, ◌≡◌, ◌∙◌, inl, inr, refl, ap, sym, subst, String, none, some, List, [], ◌∷◌, ◌++◌,
  find, change, arith, ==_refl, find-append_none,
}
use eventify_backend_course.Errors.{Result, ok, err}
use eventify_backend_course.Store.{User, RefreshToken, Store}
use eventify_backend_course.Auth.Table.{TokenTable, has_hash, is_token, new_token, replaced}
use eventify_backend_course.Auth.Service.{Draw, Session, refresh_token_ttl_ms}
use eventify_backend_course.Auth.Family.{IsChained, found_by_id}
use eventify_backend_course.Auth.Rotation.{Rotates, fresh, rotated}
use eventify_backend_course.Auth.Chain.{append-IsChained, rotated-IsChained, created}

-- The token `raw` is in the table and can be rotated up to a time.
abbrev pub IsOpen : TokenTable → ℕ → ℕ → Store → Type 0
IsOpen table raw until s =
    IsChained s.refresh_tokens
    × (t : RefreshToken) × (find (has_hash (table.sha256 raw)) s.refresh_tokens ≡ some t)
    × (t.revoked_at ≡ none)
    × (t.expires_at ≡ until)

find_hash-change :
    (hash i now successor : ℕ) (ts : List RefreshToken)
    → find (has_hash hash) ts ≡ none
    → find (has_hash hash) (change (is_token i) (replaced now successor) ts) ≡ none
find_hash-change hash i now successor [] h = refl
find_hash-change hash i now successor (t ∷ ts) h =
    ground (arith, find_hash-change hash i now successor ts)

change-append {ℓ} :
    {A : Type ℓ} (test : A → _) (f : A → A) (xs : List A) (x y : A)
    → find test xs ≡ some y
    → change test f (xs ++ x ∷ []) ≡ change test f xs ++ x ∷ []
change-append test f [] x y e = ground arith
change-append test f (z ∷ xs) x y e = ground (arith, change-append test f xs x y)

module _ (table : TokenTable) (draw : Draw) where
  -- A new row at the end opens the session of its token.
  opens :
      (ts : List RefreshToken) (id user_id until : ℕ)
      → find (has_hash (table.sha256 draw.raw)) ts ≡ none
      → find
          (has_hash (table.sha256 draw.raw))
          (ts ++ new_token id (table.sha256 draw.raw) user_id until ∷ [])
        ≡ some (new_token id (table.sha256 draw.raw) user_id until)
  opens ts id user_id until unused =
      find-append_none (has_hash (table.sha256 draw.raw)) ts _ unused
      ∙ rw (==_refl (table.sha256 draw.raw)) refl

  pub login-IsOpen :
      (s : Store) (u : User) (email : String) (chained : IsChained s.refresh_tokens)
      → find (has_hash (table.sha256 draw.raw)) s.refresh_tokens ≡ none
      → IsOpen table draw.raw (draw.now + refresh_token_ttl_ms) (record s {
        refresh_tokens = s.refresh_tokens ++ created table draw email s chained u ∷ [];
      })
  login-IsOpen s u email chained unused = (
    append-IsChained s.refresh_tokens _ chained (table.token_id_lem s.refresh_tokens) refl,
    created table draw email s chained u,
    opens s.refresh_tokens _ u.id _ unused,
    refl,
    refl,
  )

  rotated-IsOpen :
      (t : RefreshToken) (s : Store)
      → IsChained s.refresh_tokens
      → find (is_token t.id) s.refresh_tokens ≡ some t
      → find (has_hash (table.sha256 draw.raw)) s.refresh_tokens ≡ none
      → IsOpen table draw.raw (draw.now + refresh_token_ttl_ms) (rotated table draw t s)
  rotated-IsOpen t s chained own unused =
      let f = fresh table draw t s in
      (
        rotated-IsChained table draw t s chained (λ lost. ground arith),
        f,
        ap (find (has_hash (table.sha256 draw.raw)))
              (change-append (is_token t.id) (replaced draw.now f.id) s.refresh_tokens f t own)
            ∙ opens (change (is_token t.id) (replaced draw.now f.id) s.refresh_tokens) f.id
                t.user_id _ (find_hash-change _ t.id draw.now f.id s.refresh_tokens unused),
        refl,
        refl,
      )

  -- Of the outcomes of a rotation, an open session in time leaves one.
  pub Rotates-IsOpen :
      (raw until : ℕ) (s s' : Store) (r : Result Session)
      → Rotates table draw raw s (r, s')
      → IsOpen table raw until s
      → draw.now ≤ until
      → draw.abort ≡ none
      → find (has_hash (table.sha256 draw.raw)) s.refresh_tokens ≡ none
      → (session : Session) × (r ≡ ok session)
        × (session.refresh_token ≡ draw.raw)
        × IsOpen table draw.raw (draw.now + refresh_token_ttl_ms) s'
  Rotates-IsOpen raw until s s' (ok session) (t, there, live, _, is_raw, _, after)
        (chained, _, _, _, _) soon calm unused =
      (
        session,
        refl,
        is_raw,
        subst (IsOpen table draw.raw (draw.now + refresh_token_ttl_ms)) (sym after)
            (rotated-IsOpen t s chained (found_by_id _ s.refresh_tokens t chained there) unused),
      )
  Rotates-IsOpen raw until s s' (err e) (inl (_, inl (gone, _))) (_, t, there, live, ends) soon calm
        unused =
      ground arith
  Rotates-IsOpen raw until s s' (err e) (inl (_, inr (u, found, inl revoked)))
        (_, t, there, live, ends) soon calm unused =
      let is_t : u ≡ t = ground arith in absurd (revoked (ap (λ v. v.revoked_at) is_t ∙ live))
  Rotates-IsOpen raw until s s' (err e) (inl (_, inr (u, found, inr (_, late, _))))
        (_, t, there, live, ends) soon calm unused =
      let is_t : u ≡ t = ground arith in
      let same : u.expires_at ≡ until = ap (λ v. v.expires_at) is_t ∙ ends in ground arith
  Rotates-IsOpen raw until s s' (err e) (inr (f, _, aborted, _)) opened soon calm unused =
      ground arith
