-- ===== src/Auth/Reuse.antt =====
-- A refresh token that is presented again, and two rotations of one token that overlap.
use eventify_backend_course.Common.{
  ◌+◌, ◌≤◌, ◌≡◌, ◌≢◌, inl, inr, refl, ap, ◌∙◌, none, some, [], ◌∷◌, ◌++◌, arith, find,
  find-append_some,
}
use eventify_backend_course.Errors.{ok, >>=_ok}
use eventify_backend_course.Store.{RefreshToken, Store}
use eventify_backend_course.Prisma.{Prisma, commit}
use eventify_backend_course.Auth.Table.{TokenTable, is_token, has_hash, replaced}
use eventify_backend_course.Auth.Service.{
  Draw, Session, replace_token, rotate_live, rotate_stored, refresh_token_ttl_ms,
}
use eventify_backend_course.Auth.Family.{Descends, Descends-first, not-Descends}
use eventify_backend_course.Auth.Rotation.{
  find_token-append_new, find_token-replaced, find_token-replaced_self, fresh, rotated,
  replace_token_lem,
}

-- Another rotation takes none of the tokens away.
find-rotated :
    (table : TokenTable) (draw : Draw) (t u : RefreshToken) (s : Store)
    → t.id ≢ u.id
    → find (is_token u.id) s.refresh_tokens ≡ some u
    → find (is_token u.id) (rotated table draw t s).refresh_tokens ≡ some u
find-rotated table draw t u s ne e =
    find_token-replaced t.id u.id draw.now (fresh table draw t s).id
      (s.refresh_tokens ++ fresh table draw t s ∷ []) u ne
      (find-append_some (is_token u.id) s.refresh_tokens (fresh table draw t s ∷ []) u e)

find-rotated-fresh :
    (table : TokenTable) (draw : Draw) (t : RefreshToken) (s : Store)
    → find (is_token t.id) s.refresh_tokens ≢ none
    → let f = fresh table draw t s in
      (t.id ≢ f.id) × (find (is_token f.id) (rotated table draw t s).refresh_tokens ≡ some f)
find-rotated-fresh table draw t s there =
    let f = fresh table draw t s in
    let apart : t.id ≢ f.id = λ same.
      there
        (ap (λ i. find (is_token i) s.refresh_tokens) same ∙ table.token_id_lem s.refresh_tokens) in
    (
      apart,
      find_token-replaced t.id f.id draw.now f.id (s.refresh_tokens ++ f ∷ []) f apart
          (find_token-append_new s.refresh_tokens f (table.token_id_lem s.refresh_tokens)),
    )

module _ (prisma : Prisma) (table : TokenTable) (first second : Draw) (t : RefreshToken)
    (s : Store) where
  orphaned :
      (row : RefreshToken)
      → find (is_token t.id) s.refresh_tokens ≡ some row
      → let s1 = rotated table first t s in
        let f = fresh table first t s in
        let ts = (rotated table second t s1).refresh_tokens in
        (find (is_token f.id) ts ≡ some f) × (¬ Descends ts t.id f.id)
  orphaned row own =
      let s1 = rotated table first t s in
      let f = fresh table first t s in
      let g = fresh table second t s1 in
      let (apart, made) = find-rotated-fresh table first t s (λ gone. cc) in
      let relinked =
        find_token-replaced_self t.id first.now f.id (s.refresh_tokens ++ f ∷ []) row
          (find-append_some (is_token t.id) s.refresh_tokens (f ∷ []) row own) in
      let (apart', made') = find-rotated-fresh table second t s1 (λ gone. cc) in
      let kept = find-rotated table second t f s1 apart made in
      let linked =
        find_token-replaced_self t.id second.now g.id (s1.refresh_tokens ++ g ∷ [])
          (replaced first.now f.id row)
          (find-append_some (is_token t.id) s1.refresh_tokens (g ∷ []) (replaced first.now f.id row)
            relinked) in
      (
        kept,
        λ d.
            elim (Descends-first (replaced second.now g.id (replaced first.now f.id row)) g.id
              linked refl d) [
                | inl same ↦ clash same made
                | inr rest ↦ not-Descends g made' refl rest
              ],
      )
    where
      clash :
          let s1 = rotated table first t s in
          let f = fresh table first t s in
          f.id ≡ (fresh table second t s1).id → find (is_token f.id) s1.refresh_tokens ≡ some f → ⊥
      clash same made = cc (
        table.token_id_lem (rotated table first t s).refresh_tokens,
        ap (λ i. find (is_token i) (rotated table first t s).refresh_tokens) same,
      )

abbrev pub session : TokenTable → Draw → RefreshToken → Store → Session
session table draw t s = record {
  access_token = table.sign draw.now t.user_id (table.role_of t s.users);
  refresh_token = draw.raw;
  expires_at = draw.now + refresh_token_ttl_ms;
}

-- What a call can be counted on to do after it read the live token `t`, whatever the row is now.
abbrev IsReady : TokenTable → Draw → RefreshToken → Store → Type 0
IsReady table draw t s =
    (draw.now ≤ t.expires_at)
    × (draw.abort ≡ none)
    × (find (has_hash (table.sha256 draw.raw)) s.refresh_tokens ≡ none)

live_lem :
    (prisma : Prisma) (table : TokenTable) (draw : Draw) (t : RefreshToken) (s : Store)
    → t.revoked_at ≡ none
    → draw.now ≤ t.expires_at
    → rotate_stored prisma table draw (some t) s ≡ rotate_live prisma table draw t s
unfolding rotate_stored
live_lem prisma table draw t s live soon = ground arith

rotate_stored_lem :
    (prisma : Prisma) (table : TokenTable) (draw : Draw) (t row : RefreshToken) (s : Store)
    → t.revoked_at ≡ none
    → IsReady table draw t s
    → find (is_token t.id) s.refresh_tokens ≡ some row
    → rotate_stored prisma table draw (some t) s
      ≡ (ok (session table draw t s), rotated table draw t s)
unfolding rotate_live
rotate_stored_lem prisma table draw t row s live (soon, calm, unused) own =
    live_lem prisma table draw t s live soon
    ∙ >>=_ok (prisma.transaction draw.abort RefreshToken (replace_token table draw t))
        (λ _ u. (ok (session table draw t u), u)) s
        (ap (λ a. prisma.transaction a RefreshToken (replace_token table draw t) s) calm
          ∙ prisma.transaction_commits RefreshToken (replace_token table draw t) s
          ∙ ap (commit s) (replace_token_lem table draw t s row unused own))

-- Two calls of `rotateRefresh` that read the same live token before either wrote, where the token has
-- not expired at either time, the server aborts neither transaction and the hash of each random
-- token is new: both succeed, and the new token of the first is in the table afterwards, not revoked,
-- and does not descend from the presented token.
pub overlapping_rotations :
    (prisma : Prisma) (table : TokenTable) (first second : Draw) (t : RefreshToken) (s : Store)
    → t.revoked_at ≡ none
    → find (is_token t.id) s.refresh_tokens ≡ some t
    → IsReady table first t s
    → IsReady table second t (rotated table first t s)
    → let (r1, s1) = rotate_stored prisma table first (some t) s in
      let (r2, s2) = rotate_stored prisma table second (some t) s1 in
      let f = fresh table first t s in
      (r1 ≡ ok (session table first t s))
      × (r2 ≡ ok (session table second t s))
      × (find (is_token f.id) s2.refresh_tokens ≡ some f)
      × (f.revoked_at ≡ none)
      × (¬ Descends s2.refresh_tokens t.id f.id)
overlapping_rotations prisma table first second t s live own ready ready' =
    let s1 = rotated table first t s in
    let f = fresh table first t s in
    let row = replaced first.now f.id t in
    let own' =
      find_token-replaced_self t.id first.now f.id (s.refresh_tokens ++ f ∷ []) t
        (find-append_some (is_token t.id) s.refresh_tokens (f ∷ []) t own) in
    let (kept, apart) = orphaned prisma table first second t s t own in
    rw
      (
        rotate_stored_lem prisma table first t t s live ready own,
        rotate_stored_lem prisma table second t row s1 live ready' own',
      )
      (refl, refl, kept, refl, apart)
