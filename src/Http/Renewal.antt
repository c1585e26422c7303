-- ===== src/Http/Renewal.antt =====
-- A login, and the refresh with the cookie that it set.
use eventify_backend_course.Common.{
  ℕ, ◌+◌, ◌≤◌, ◌≡◌, refl, ap, subst, String, Option, none, some, List, ◌∷◌, All, find, str_eq,
}
use eventify_backend_course.Errors.{ok}
use eventify_backend_course.Store.{User, Store}
use eventify_backend_course.Prisma.{Prisma}
use eventify_backend_course.Auth.Table.{TokenTable, has_hash}
use eventify_backend_course.Auth.Service.{
  Draw, Session, refresh_token_ttl_ms, login, rotate_refresh,
}
use eventify_backend_course.Auth.Family.{IsChained}
use eventify_backend_course.Auth.Rotation.{rotate_refresh-Rotates}
use eventify_backend_course.Auth.Chain.{login_ok}
use eventify_backend_course.Http.Respond.{Response, success, send}
use eventify_backend_course.Http.Cookies.{refresh_cookie_name, get_refresh_cookie}
use eventify_backend_course.Http.Jar.{Cookie, IsCookie, cookie_header, get_refresh_cookie-header}
use eventify_backend_course.Http.Sessions.{Texts, Issued, issued, login_handler, refresh_handler}
use eventify_backend_course.Auth.Open.{IsOpen, login-IsOpen, Rotates-IsOpen}

module _ (prisma : Prisma) (table : TokenTable) (texts : Texts) (hostname : String → Option String)
    (web_origin : String) where
  open texts use {text, number, IsRaw, number_text, text_Avoids, text_given}

  abbrev pub Answer : Type 0
  Answer = Response Issued × Store

  -- The cookie of the answer, as the browser sends it back, before its others.
  abbrev pub cookie_of : Issued → Cookie
  cookie_of answer = record { key = answer.cookie_name; value = answer.cookie_value }

  login_handler_ok :
      (draw : Draw) (email : String) (s s' : Store) (session : Session)
      → login table draw email s ≡ (ok session, s')
      → login_handler texts hostname web_origin table draw email s
        ≡ (success 200 (issued texts hostname web_origin session), s')
  unfolding login_handler send
  login_handler_ok draw email s s' session done = rw done refl

  raw_cookie :
      (raw : ℕ) (others : List Cookie)
      → IsRaw raw
      → All IsCookie others
      → get_refresh_cookie
          (some (cookie_header (record { key = refresh_cookie_name; value = text raw } ∷ others)))
        ≡ some (text raw)
  raw_cookie raw others is_raw valid = get_refresh_cookie-header _ (
    (
      (
        refl,
        (refl, (refl, (refl, (refl, (refl, (refl, (refl, (refl, (refl, (refl, (refl, tt))))))))))),
      ),
      text_Avoids raw is_raw,
    ),
    valid,
  )

  refresh_handler_ok :
      (draw : Draw) (raw : ℕ) (header : Option String) (s s' : Store) (session : Session)
      → IsRaw raw
      → get_refresh_cookie header ≡ some (text raw)
      → rotate_refresh prisma table draw raw s ≡ (ok session, s')
      → refresh_handler texts hostname web_origin prisma table draw header s
        ≡ (success 200 (issued texts hostname web_origin session), s')
  unfolding refresh_handler send
  refresh_handler_ok draw raw header s s' session is_raw sent done =
      rw (sent, refresh_handler, text_given raw is_raw, number_text raw is_raw, done) refl

  pub refresh_handler-Renews :
      (draw : Draw) (raw until : ℕ) (others : List Cookie) (s : Store)
      → IsRaw raw
      → IsOpen table raw until s
      → All IsCookie others
      → draw.now ≤ until
      → draw.abort ≡ none
      → find (has_hash (table.sha256 draw.raw)) s.refresh_tokens ≡ none
      → (session : Session) × (s' : Store) × (refresh_handler texts hostname web_origin prisma table
            draw
            (some (cookie_header (record { key = refresh_cookie_name; value = text raw } ∷ others)))
            s
          ≡ (success 200 (issued texts hostname web_origin session), s'))
        × (session.refresh_token ≡ draw.raw)
        × IsOpen table draw.raw (draw.now + refresh_token_ttl_ms) s'
  refresh_handler-Renews draw raw until others s is_raw opened valid soon calm unused =
      let (r, s') = rotate_refresh prisma table draw raw s in
      let (session, is_ok, is_new, again) =
        Rotates-IsOpen table draw raw until s s' r
          (rotate_refresh-Rotates prisma table draw raw s opened.0 unused) opened soon calm
          unused in
      (
        session,
        s',
        refresh_handler_ok draw raw _ s s' session is_raw (raw_cookie raw others is_raw valid)
            (ap (λ x. (x, s')) is_ok),
        is_new,
        again,
      )

  -- A login with one draw, and then a refresh with another and the cookie that the login set.
  abbrev pub Renews : Draw → Draw → String → List Cookie → Store → User → Type 0
  Renews first second email others s u =
      let (answer, s1) = login_handler texts hostname web_origin table first email s in
      (issued1 : Issued) × (issued2 : Issued) × (s2 : Store) × (answer ≡ success 200 issued1)
      × (issued1.access_token ≡ table.sign first.now u.id u.role)
      × (refresh_handler texts hostname web_origin prisma table second
            (some (cookie_header (cookie_of issued1 ∷ others))) s1
          ≡ (success 200 issued2, s2))
      × (issued2.cookie_value ≡ text second.raw)
      × IsOpen table second.raw (second.now + refresh_token_ttl_ms) s2

  -- A login keeps a session going. With an email that is known, a table where ids are unique and
  -- successors come later, and a random token that is new, the login answers 200 with an access
  -- token for the user. The browser sends the cookie back before its others; within seven days,
  -- with a second token that is new then and no abort by the server, the refresh answers 200 with
  -- the cookie of the second token, which is live in the table for the next seven days.
  pub login_then_refresh :
      (first second : Draw) (email : String) (others : List Cookie) (s : Store) (u : User)
      → IsChained s.refresh_tokens
      → find (λ v. str_eq v.email email) s.users ≡ some u
      → IsRaw first.raw
      → find (has_hash (table.sha256 first.raw)) s.refresh_tokens ≡ none
      → All IsCookie others
      → second.abort ≡ none
      → second.now ≤ first.now + refresh_token_ttl_ms
      → find
          (has_hash (table.sha256 second.raw))
          (login_handler texts hostname web_origin table first email s).1.refresh_tokens
        ≡ none
      → Renews first second email others s u
  login_then_refresh first second email others s u chained known is_raw unused valid calm soon new =
      let logged_in =
        login_handler_ok first email s _ _ (login_ok table first email s chained u known unused) in
      let (session, s2, done, is_new, again) =
        refresh_handler-Renews second first.raw (first.now + refresh_token_ttl_ms) others _ is_raw
          (login-IsOpen table first s u email chained unused) valid soon calm
          (subst (λ p. find (has_hash (table.sha256 second.raw)) p.1.refresh_tokens ≡ none)
            logged_in new) in
      rw logged_in
        (_, issued texts hostname web_origin session, s2, refl, refl, done, ap text is_new, again)
