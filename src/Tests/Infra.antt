-- ===== src/Tests/Infra.antt =====
-- The rate limiter with counters in memory, none of which expires.
use eventify_backend_course.Common.{
  ℕ, ◌+◌, ◌-◌, ◌≤◌, ◌≡◌, ◌≢◌, refl, Bool, true, false, ◌&&◌, if◌then◌else◌, some, List, [], ◌∷◌,
  arith, ==_refl, str_eq, str_eq_iff, ◌==◌, ==→eq, Bool-cases, inl, inr, ◌∙◌, ap,
}
use eventify_backend_course.Errors.{err}
use eventify_backend_course.Infra.Counters.{Key, Counters, IsUp}
use eventify_backend_course.Infra.RateLimit.{
  RateLimitOptions, Request, counted, rate_limit, too_many,
}
use eventify_backend_course.Infra.Window.{passed, passed-bound, Rejects, rate_limit-Rejects}

pub same_key : Key → Key → Bool
same_key j k = str_eq j.identity k.identity && str_eq j.label k.label && (j.window == k.window)

same_key_refl : (k : Key) → same_key k k ≡ true
unfolding same_key
same_key_refl k =
    rw
      (
        (str_eq_iff k.identity k.identity).1 refl,
        (str_eq_iff k.label k.label).1 refl,
        ==_refl k.window,
      )
      refl

and-true : (a b : Bool) → (a && b) ≡ true → (a ≡ true) × (b ≡ true)
and-true true true e = (refl, refl)
and-true true false e = cc
and-true false b e = cc

same_key-true : (j k : Key) → same_key j k ≡ true → j ≡ k
unfolding same_key
same_key-true j k e =
    let (ab, c) = and-true (str_eq j.identity k.identity && str_eq j.label k.label) _ e in
    let (a, b) = and-true (str_eq j.identity k.identity) _ ab in
    let p = (str_eq_iff j.identity k.identity).0 a in
    let q = (str_eq_iff j.label k.label).0 b in
    let r = ==→eq j.window k.window c in
    ap (λ i. record { identity = i; label = j.label; window = j.window }) p
    ∙ ap (λ l. record { identity = k.identity; label = l; window = j.window }) q
    ∙ ap (λ w. record { identity = k.identity; label = k.label; window = w }) r

abbrev pub raise : Key → (Key → ℕ) → Key → ℕ
raise k counts j = if same_key j k then counts k + 1 else counts j

pub raise_self : (k : Key) (counts : Key → ℕ) → raise k counts k ≡ counts k + 1
raise_self k counts = rw (same_key_refl k) refl

pub raise_other : (k j : Key) (counts : Key → ℕ) → j ≢ k → raise k counts j ≡ counts j
raise_other k j counts ne = elim (Bool-cases (same_key j k)) [
  | inl same ↦ absurd (ne (same_key-true j k same))
  | inr other ↦ rw other refl
]

abbrev pub counters : Counters
counters = record {
  State = Key → ℕ;
  is_ready = λ s. true;
  value = λ k s. s k;
  incr = λ k s. (some (s k + 1), raise k s);
  incr_lem = λ k s n e. (ground arith, raise_self k s);
  incr_other = λ k j s ne. raise_other k j s ne;
  expire = λ k seconds s. (true, s);
  expire_lem = λ k j seconds s. refl;
}

pub counters-IsUp : IsUp counters
counters-IsUp = record { ready = λ s. refl; counts = λ k s e. cc }

-- Five logins a minute.
abbrev logins : RateLimitOptions
logins = record { max = 5; window_ms = 60000; label = "login" }

abbrev login_at : ℕ → Request
login_at now = record { identity = "10.0.0.1"; now = now; later = now }

abbrev burst : List Request
burst = login_at 61000 ∷ login_at 62000 ∷ []

passed-bound_example : passed counters logins (login_at 60000) burst (λ k. 4) ≤ 5 - 4
passed-bound_example =
    passed-bound counters logins counters-IsUp (omega arith) (login_at 60000) refl burst (λ k. 4)

sixth_refused :
    (rate_limit counters logins (login_at 61000) (λ k. 5)).0
    ≡ err (too_many logins (login_at 61000))
unfolding rate_limit counted
sixth_refused = refl

rate_limit-Rejects_example :
    Rejects counters logins (login_at 61000) (λ k. 5) (too_many logins (login_at 61000))
rate_limit-Rejects_example =
    rate_limit-Rejects counters logins (omega arith) (login_at 61000) (λ k. 5)
      (too_many logins (login_at 61000)) sixth_refused
