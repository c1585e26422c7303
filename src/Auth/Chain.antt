-- ===== src/Auth/Chain.antt =====
-- The order of the rows that logins and rotations add: unique ids, and successors after what they
-- replace.
use eventify_backend_course.Common.{
  ℕ, ◌+◌, ◌≡◌, ◌≢◌, inl, inr, refl, ap, ◌∙◌, none, some, List, [], ◌∷◌, ◌++◌, arith, find, change,
  Option-cases, str_eq, find-append_some, Bool-cases, ◌==◌, String,
}
use eventify_backend_course.Errors.{Result, ok, err, pure, ◌>>◌, >>=_ok, >>=_err, known_error}
use eventify_backend_course.Store.{RefreshToken, Store, User}
use eventify_backend_course.Auth.Table.{TokenTable, is_token, has_hash, new_token, replaced}
use eventify_backend_course.Auth.Service.{
  Draw, Session, generic_auth_error, refresh_token_ttl_ms, replace_token, issue, login, on_tokens,
  hash_token,
}
use eventify_backend_course.Auth.Family.{IsChained}
use eventify_backend_course.Auth.Rotation.{
  find_token-append_new, find_token-replaced, find_token-replaced_self, replace_token_lem, fresh,
  rotated,
}

find-none-append :
    (ts : List RefreshToken) (t : RefreshToken) (i : ℕ)
    → find (is_token i) ts ≡ none
    → i ≢ t.id
    → find (is_token i) (ts ++ t ∷ []) ≡ none
find-none-append [] t i e ne = ground arith
find-none-append (u ∷ ts) t i e ne = ground (arith, find-none-append ts t i)

pub append-IsChained :
    (ts : List RefreshToken) (t : RefreshToken)
    → IsChained ts
    → find (is_token t.id) ts ≡ none
    → t.replaced_by_id ≡ none
    → IsChained (ts ++ t ∷ [])
append-IsChained [] t h e last = (refl, (λ j r. cc), tt)
append-IsChained (u ∷ ts) t (own, linked, rest) e last = (
  find-none-append ts t u.id own (ground arith),
  (λ j r. let (v, f) = linked j r in (v, find-append_some (is_token j) ts (t ∷ []) v f)),
  append-IsChained ts t rest (ground arith) last,
)

find-none-replaced :
    (i k now successor : ℕ) (ts : List RefreshToken)
    → find (is_token k) ts ≡ none
    → find (is_token k) (change (is_token i) (replaced now successor) ts) ≡ none
find-none-replaced i k now successor [] e = refl
find-none-replaced i k now successor (u ∷ ts) e =
    ground (arith, find-none-replaced i k now successor ts)

find-some-replaced :
    (i k now successor : ℕ) (ts : List RefreshToken) (t : RefreshToken)
    → find (is_token k) ts ≡ some t
    → (u : RefreshToken) × (find (is_token k) (change (is_token i) (replaced now successor) ts)
        ≡ some u)
find-some-replaced i k now successor [] t e = cc
find-some-replaced i k now successor (u ∷ ts) t e = elim (Bool-cases (u.id == k)) [
  | inl here ↦ elim (Bool-cases (u.id == i)) [
    | inl both ↦ (replaced now successor u, ground arith)
    | inr other ↦ (u, ground arith)
  ]
  | inr past ↦ elim (Bool-cases (u.id == i)) [
    | inl changed ↦ (t, ground arith)
    | inr other ↦
        let (v, f) = find-some-replaced i k now successor ts t (ground arith) in (v, ground arith)
  ]
]

-- `i` is replaced by the last token, which is another.
replaced-IsChained :
    (i now : ℕ) (ts : List RefreshToken) (t : RefreshToken)
    → IsChained (ts ++ t ∷ [])
    → find (is_token t.id) ts ≡ none
    → i ≢ t.id
    → IsChained (change (is_token i) (replaced now t.id) (ts ++ t ∷ []))
replaced-IsChained i now [] t h e ne = ground arith
replaced-IsChained i now (u ∷ ts) t (own, linked, rest) e ne = elim (Bool-cases (u.id == i)) [
  | inl here ↦ rw here (
    own,
    (λ j r.
        let same : t.id ≡ j = ground arith in
        (t, rw (← same) (find_token-append_new ts t (ground arith)))),
    rest,
  )
  | inr past ↦ rw past (
    find-none-replaced i u.id now t.id (ts ++ t ∷ []) own,
    (λ j r. let (v, f) = linked j r in find-some-replaced i j now t.id (ts ++ t ∷ []) v f),
    replaced-IsChained i now ts t rest (ground arith) ne,
  )
]

pub rotated-IsChained :
    (table : TokenTable) (draw : Draw) (t : RefreshToken) (s : Store)
    → IsChained s.refresh_tokens
    → find (is_token t.id) s.refresh_tokens ≢ none
    → IsChained (rotated table draw t s).refresh_tokens
rotated-IsChained table draw t s h there =
    let f = fresh table draw t s in
    let new = table.token_id_lem s.refresh_tokens in
    replaced-IsChained t.id draw.now s.refresh_tokens f
      (append-IsChained s.refresh_tokens f h new refl) new
      (λ same. there (ap (λ i. find (is_token i) s.refresh_tokens) same ∙ new))

-- What the callback of a rotation leaves: a new live token for the same user, to which the old one,
-- now revoked, points; or, where it throws, the tokens as they were.
abbrev pub Links : TokenTable → Draw → RefreshToken → Store → Result RefreshToken × Store → Type 0
Links table draw t s (err e, s') =
    (s' ≡ s)
    × (v : RefreshToken) × (e ≡ known_error "P2002")
    × (find (has_hash (table.sha256 draw.raw)) s.refresh_tokens ≡ some v)
Links table draw t s (ok f, s') =
    (row : RefreshToken) × (find (is_token t.id) s'.refresh_tokens ≡ some row)
    × (row.revoked_at ≡ some draw.now)
    × (row.replaced_by_id ≡ some f.id)
    × (find (is_token f.id) s'.refresh_tokens ≡ some f)
    × (f.user_id ≡ t.user_id)
    × (f.revoked_at ≡ none)
    × (f.replaced_by_id ≡ none)

module _ (table : TokenTable) (draw : Draw) (t : RefreshToken) (s : Store) where
  replace_token-taken :
      (v : RefreshToken)
      → find (has_hash (table.sha256 draw.raw)) s.refresh_tokens ≡ some v
      → replace_token table draw t s ≡ (err (known_error "P2002"), s)
  unfolding replace_token hash_token
  replace_token-taken v taken =
      >>=_err
        (on_tokens
          (table.token_create (table.sha256 draw.raw) t.user_id (draw.now + refresh_token_ttl_ms)))
        (λ x. on_tokens (table.token_replace t.id draw.now x.id) >> pure x) s
        (rw
          (table.token_create_taken (table.sha256 draw.raw) t.user_id
            (draw.now + refresh_token_ttl_ms) s.refresh_tokens v taken)
          refl)

  -- The callback of a rotation, of a token that is in the table and on a table where ids are unique
  -- and successors come later, also where another call rotated that token since it was read. Ids
  -- stay unique and successors later. Where the hash of the random token is taken, it fails with the
  -- database's P2002 and changes nothing; otherwise it adds a live token for the same user, and the
  -- old one is revoked at the time of the call and points to it.
  pub replace_token-IsChained :
      (row : RefreshToken)
      → IsChained s.refresh_tokens
      → find (is_token t.id) s.refresh_tokens ≡ some row
      → let (r, s') = replace_token table draw t s in
        IsChained s'.refresh_tokens × Links table draw t s (r, s')
  replace_token-IsChained row h own =
      elim (Option-cases (find (has_hash (table.sha256 draw.raw)) s.refresh_tokens)) [
        | inr (v, taken) ↦ rw (replace_token-taken v taken) (h, (refl, v, refl, taken))
        | inl unused ↦
            let f = fresh table draw t s in
            let new = table.token_id_lem s.refresh_tokens in
            rw (replace_token_lem table draw t s row unused own) (
              rotated-IsChained table draw t s h (λ gone. ground arith),
              (
                replaced draw.now f.id row,
                find_token-replaced_self t.id draw.now f.id (s.refresh_tokens ++ f ∷ []) row
                    (find-append_some (is_token t.id) s.refresh_tokens (f ∷ []) row own),
                refl,
                refl,
                find_token-replaced t.id f.id draw.now f.id (s.refresh_tokens ++ f ∷ []) f
                    (λ same. let both = ap (λ i. find (is_token i) s.refresh_tokens) same in cc)
                    (find_token-append_new s.refresh_tokens f new),
                refl,
                refl,
                refl,
              ),
            )
      ]

-- The outcome of a login with `email` at the store `s`.
abbrev pub LogsIn : TokenTable → Draw → String → Store → Result Session × Store → Type 0
LogsIn table draw email s (err e, s') =
    (s' ≡ s) × ((find (λ u. str_eq u.email email) s.users ≡ none → e ≡ generic_auth_error))
LogsIn table draw email s (ok session, s') =
    (u : User) × (find (λ v. str_eq v.email email) s.users ≡ some u)
    × (session.refresh_token ≡ draw.raw)
    × (session.access_token ≡ table.sign draw.now u.id u.role)
    × (session.expires_at ≡ draw.now + refresh_token_ttl_ms)
    × (s' ≡ record s {
      refresh_tokens =
          s.refresh_tokens
          ++ new_token (table.token_id s.refresh_tokens) (table.sha256 draw.raw) u.id
              (draw.now + refresh_token_ttl_ms)
            ∷ [];
    })
    × IsChained s'.refresh_tokens

module _ (table : TokenTable) (draw : Draw) (email : String) (s : Store)
    (chained : IsChained s.refresh_tokens) where
  open table use {
    user_find_lem, token_create_new, token_create_taken, token_id, token_id_lem, sha256,
  }

  abbrev pub created : User → RefreshToken
  created u =
      new_token (token_id s.refresh_tokens) (sha256 draw.raw) u.id (draw.now + refresh_token_ttl_ms)

  create_lem :
      (u : User)
      → find (has_hash (sha256 draw.raw)) s.refresh_tokens ≡ none
      → on_tokens (table.token_create (sha256 draw.raw) u.id (draw.now + refresh_token_ttl_ms)) s
        ≡ (ok (created u), record s { refresh_tokens = s.refresh_tokens ++ created u ∷ [] })
  create_lem u unused = rw (
      token_create_new (sha256 draw.raw) u.id (draw.now + refresh_token_ttl_ms) s.refresh_tokens
        unused)

  taken_lem :
      (u : User) (t : RefreshToken)
      → find (has_hash (sha256 draw.raw)) s.refresh_tokens ≡ some t
      → on_tokens (table.token_create (sha256 draw.raw) u.id (draw.now + refresh_token_ttl_ms)) s
        ≡ (err (known_error "P2002"), s)
  taken_lem u t taken = rw (
      token_create_taken (sha256 draw.raw) u.id (draw.now + refresh_token_ttl_ms) s.refresh_tokens t
        taken)

  issue-LogsIn :
      (u : User)
      → find (λ v. str_eq v.email email) s.users ≡ some u
      → LogsIn table draw email s (issue table draw u s)
  unfolding issue hash_token
  issue-LogsIn u e =
      let expiry : ℕ = draw.now + refresh_token_ttl_ms in
      let create = on_tokens (table.token_create (sha256 draw.raw) u.id expiry) in
      elim (Option-cases (find (has_hash (sha256 draw.raw)) s.refresh_tokens)) [
        | inl unused ↦ rw (>>=_ok create _ s (create_lem u unused)) (
          u,
          e,
          refl,
          refl,
          refl,
          refl,
          append-IsChained s.refresh_tokens _ chained (token_id_lem s.refresh_tokens) refl,
        )
        | inr (t, taken) ↦ rw (>>=_err create _ s (taken_lem u t taken)) (refl, λ unknown. cc)
      ]

  -- `login` on every branch: an unknown email fails with the generic error, every failure leaves
  -- the store as it was, and a success adds exactly one live token, with the hash of the random
  -- one, for the user with that email, for seven days; ids stay unique and successors later.
  pub login-LogsIn : LogsIn table draw email s (login table draw email s)
  unfolding login
  login-LogsIn = elim (Option-cases (find (λ u. str_eq u.email email) s.users)) [
    | inl e ↦ rw (user_find_lem email s.users, e) (refl, λ _. refl)
    | inr (u, e) ↦ rw (user_find_lem email s.users, e) (issue-LogsIn u e)
  ]

  -- Where the email is known and the random token is new, nothing fails.
  pub login_ok :
      (u : User)
      → find (λ v. str_eq v.email email) s.users ≡ some u
      → find (has_hash (sha256 draw.raw)) s.refresh_tokens ≡ none
      → login table draw email s ≡ (
        ok (record {
          access_token = table.sign draw.now u.id u.role;
          refresh_token = draw.raw;
          expires_at = draw.now + refresh_token_ttl_ms;
        }),
        record s { refresh_tokens = s.refresh_tokens ++ created u ∷ [] },
      )
  unfolding login issue hash_token
  login_ok u e unused =
      let expiry : ℕ = draw.now + refresh_token_ttl_ms in
      let create = on_tokens (table.token_create (sha256 draw.raw) u.id expiry) in
      rw (user_find_lem email s.users, e, >>=_ok create _ s (create_lem u unused)) refl
