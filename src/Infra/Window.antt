-- ===== src/Infra/Window.antt =====
-- What the limiter lets pass in one window.
use eventify_backend_course.Common.{
  ℕ, ◌+◌, ◌-◌, ◌%◌, ◌/◌, max, ◌≤◌, ◌<◌, ◌≡◌, ◌≢◌, inl, inr, refl, ◌∙◌, sym, ap, Bool, true, false,
  ◌&&◌, none, some, List, [], ◌∷◌, arith, one, str_eq, str_eq_iff, ◌==◌, ==→eq, ==_refl, Bool-cases,
  Option-cases, ltb,
}
use eventify_backend_course.Errors.{Thrown, http, retry_after_sec, Result, ok, err}
use eventify_backend_course.Infra.Counters.{Key, Counters, IsUp}
use eventify_backend_course.Infra.RateLimit.{
  RateLimitOptions, Request, window_sec, key_of, too_many, decide, counted, rate_limit,
}

abbrev pub is_ok : Result (Unit {0}) → Bool
is_ok (ok a) = true
is_ok (err e) = false

-- Two requests that count under one key.
abbrev pub is_same : RateLimitOptions → Request → Request → Bool
is_same options r0 r =
    str_eq r.identity r0.identity && (r.now / options.window_ms == r0.now / options.window_ms)

and-true : (a b : Bool) → (a && b) ≡ true → (a ≡ true) × (b ≡ true)
and-true true true e = (refl, refl)
and-true true false e = cc
and-true false b e = cc

key_of-is_same :
    (options : RateLimitOptions) (r0 r : Request)
    → is_same options r0 r ≡ true
    → key_of options r ≡ key_of options r0
unfolding key_of
key_of-is_same options r0 r e =
    let (a, b) = and-true _ _ e in
    let p = (str_eq_iff r.identity r0.identity).0 a in
    let q = ==→eq (r.now / options.window_ms) (r0.now / options.window_ms) b in
    ap (λ i. record { identity = i; label = options.label; window = r.now / options.window_ms }) p
    ∙ ap (λ w. record { identity = r0.identity; label = options.label; window = w }) q

is_same-key_of :
    (options : RateLimitOptions) (r0 r : Request)
    → key_of options r0 ≡ key_of options r
    → is_same options r0 r ≡ true
unfolding key_of
is_same-key_of options r0 r p =
    let a = (str_eq_iff r.identity r0.identity).1 (sym (ap (λ k. k.identity) p)) in
    let b : r.now / options.window_ms ≡ r0.now / options.window_ms = sym (ap (λ k. k.window) p) in
    rw (a, b, ==_refl (r0.now / options.window_ms)) refl

module _ (counters : Counters) (options : RateLimitOptions) where
  open counters use {State, value, incr, is_ready, expire}

  -- How many of the requests that count under the key of `r0` pass.
  abbrev pub passed : Request → List Request → State → ℕ
  passed r0 [] s = 0
  passed r0 (r ∷ rs) s =
      let (x, s') = rate_limit counters options r s in
      one (is_ok x && is_same options r0 r) + passed r0 rs s'

  -- What counting a request does, with the maximum at least one.
  counted_lem :
      1 ≤ options.max
      → (r : Request) (n : ℕ) (s : State)
      → let (x, s') = counted counters options r (some n) s in
        ((j : Key) → value j s' ≡ value j s) × (is_ok x ≡ true → n ≤ options.max)
  unfolding counted
  counted_lem positive r n s = elim (Bool-cases (n == 1)) [
    | inl first ↦ rw first (
      (λ j. counters.expire_lem (key_of options r) j (window_sec options) s),
      (λ _. let is_one : n ≡ 1 = ground arith in omega arith),
    )
    | inr later ↦ rw later ((λ j. refl), (λ passes. ground arith))
  ]

  rate_limit-blank :
      (r : Request) (s : State)
      → str_eq r.identity "" ≡ true
      → is_ready s ≡ true
      → rate_limit counters options r s ≡ (ok tt, s)
  unfolding rate_limit
  rate_limit-blank r s blank ready = rw (ready, blank) refl

  rate_limit-counted :
      (r : Request) (s : State) (n : ℕ)
      → str_eq r.identity "" ≡ false
      → is_ready s ≡ true
      → (incr (key_of options r) s).0 ≡ some n
      → rate_limit counters options r s
        ≡ counted counters options r (some n) (incr (key_of options r) s).1
  unfolding rate_limit
  rate_limit-counted r s n named ready count = rw (ready, named, count) refl

  module _ (up : IsUp counters) (positive : 1 ≤ options.max) (r0 : Request)
      (named : str_eq r0.identity "" ≡ false) where
    -- What is left of the maximum under the key of `r0`.
    abbrev left : State → ℕ
    left s = options.max - value (key_of options r0) s

    blank-not-is_same : (r : Request) → str_eq r.identity "" ≡ true → is_same options r0 r ≡ false
    blank-not-is_same r blank = elim (Bool-cases (is_same options r0 r)) [
      | inr other ↦ other
      | inl same ↦
          let q = (str_eq_iff r.identity r0.identity).0 (and-true _ _ same).0 in
          let clash : true ≡ false = sym blank ∙ ap (λ i. str_eq i "") q ∙ named in cc
    ]

    step_same :
        (r : Request) (s : State) (n : ℕ)
        → str_eq r.identity "" ≡ false
        → (incr (key_of options r) s).0 ≡ some n
        → is_same options r0 r ≡ true
        → let (x, s') = counted counters options r (some n) (incr (key_of options r) s).1 in
          one (is_ok x && is_same options r0 r) + left s' ≤ left s
    step_same r s n given count same =
        let key = key_of-is_same options r0 r same in
        let (is_next, next) = counters.incr_lem (key_of options r) s n count in
        let (kept, bound) = counted_lem positive r n (incr (key_of options r) s).1 in
        let x = (counted counters options r (some n) (incr (key_of options r) s).1).0 in
        let s' = (counted counters options r (some n) (incr (key_of options r) s).1).1 in
        let before : value (key_of options r) s ≡ value (key_of options r0) s =
          ap (λ k. value k s) key in
        let after : value (key_of options r0) s' ≡ value (key_of options r) s + 1 =
          ap (λ k. value k s') (sym key) ∙ kept (key_of options r) ∙ next in
        elim (Bool-cases (is_ok x)) [
          | inl passes ↦ rw (passes, same) (let le = bound passes in omega arith)
          | inr stopped ↦ rw stopped (omega arith)
        ]

    step_other :
        (r : Request) (s : State) (n : ℕ)
        → is_same options r0 r ≡ false
        → let (x, s') = counted counters options r (some n) (incr (key_of options r) s).1 in
          one (is_ok x && is_same options r0 r) + left s' ≤ left s
    step_other r s n other =
        let apart : key_of options r0 ≢ key_of options r = λ same.
          (let clash : true ≡ false = sym (is_same-key_of options r0 r same) ∙ other in cc) in
        let (kept, bound) = counted_lem positive r n (incr (key_of options r) s).1 in
        let x = (counted counters options r (some n) (incr (key_of options r) s).1).0 in
        let s' = (counted counters options r (some n) (incr (key_of options r) s).1).1 in
        let after : value (key_of options r0) s' ≡ value (key_of options r0) s =
          kept (key_of options r0)
          ∙ counters.incr_other (key_of options r) (key_of options r0) s apart in
        elim (Bool-cases (is_ok x)) [
          | inl passes ↦ rw (passes, other) (omega arith)
          | inr stopped ↦ rw stopped (omega arith)
        ]

    step_lem :
        (r : Request) (s : State)
        → let (x, s') = rate_limit counters options r s in
          one (is_ok x && is_same options r0 r) + left s' ≤ left s
    step_lem r s = elim (Bool-cases (str_eq r.identity "")) [
      | inl blank ↦
          rw (rate_limit-blank r s blank (up.ready s), blank-not-is_same r blank) (omega arith)
      | inr given ↦ elim (Option-cases (incr (key_of options r) s).0) [
        | inl lost ↦ absurd (up.counts (key_of options r) s lost)
        | inr (n, count) ↦
            rw (rate_limit-counted r s n given (up.ready s) count)
              elim (Bool-cases (is_same options r0 r)) [
                | inl same ↦ step_same r s n given count same
                | inr other ↦ step_other r s n other
              ]
      ]
    ]

    -- However many requests come, in whatever order and between requests under other keys, as long
    -- as Redis carries out every command, those under one key that pass are at most what its count
    -- leaves of the maximum, which is all of it at the start of a window.
    pub passed-bound :
        (rs : List Request) (s : State) → passed r0 rs s ≤ options.max - value (key_of options r0) s
    passed-bound [] s = omega arith
    passed-bound (r ∷ rs) s =
        let step = step_lem r s in
        let rest = passed-bound rs (rate_limit counters options r s).1 in omega arith

  -- More requests than the maximum were counted, and the hint lies in the window.
  abbrev pub Exceeds : Request → State → Thrown → Type 0
  Exceeds r s e =
      (n : ℕ) × (retry : ℕ) × ((incr (key_of options r) s).0 ≡ some n)
      × (options.max < n)
      × (e
          ≡ http (record {
            status_code = 429;
            message = "Too many requests, please slow down";
            details = retry_after_sec retry;
          }))
      × (1 ≤ retry)
      × (retry ≤ window_sec options)

  too_many-Rejects :
      1 ≤ options.window_ms
      → (r : Request) (s : State) (n : ℕ) (e : Thrown) → (incr (key_of options r) s).0 ≡ some n
      → decide counters options r n ≡ err e
      → Exceeds r s e
  unfolding too_many window_sec
  too_many-Rejects wide r s n e count refused = elim (Bool-cases (ltb options.max n)) [
    | inr fits ↦ absurd (ground arith)
    | inl over ↦
        let seconds = (options.window_ms + 999) / 1000 in
        let retry = max (seconds - (r.later / 1000) % seconds) 1 in
        let at_least : 1 ≤ seconds = omega arith in
        (n, retry, count, (ground arith), (ground arith), (omega arith), (omega arith))
  ]

  counted-Rejects :
      1 ≤ options.window_ms
      → (r : Request) (s : State) (n : ℕ) (e : Thrown) → (incr (key_of options r) s).0 ≡ some n
      → (counted counters options r (some n) (incr (key_of options r) s).1).0 ≡ err e
      → Exceeds r s e
  unfolding counted
  counted-Rejects wide r s n e count refused =
      too_many-Rejects wide r s n e count
        (elim (Bool-cases (n == 1)) [ inr later ↦ ground arith | inl first ↦ ground arith ])

  counted-none : (r : Request) (s : State) → (counted counters options r none s).0 ≡ ok tt
  unfolding counted
  counted-none r s = refl

  -- A rejection: Redis was ready, the request had an identity, and the counter exceeded.
  abbrev pub Rejects : Request → State → Thrown → Type 0
  Rejects r s e = (is_ready s ≡ true) × (str_eq r.identity "" ≡ false) × Exceeds r s e

  -- Whatever Redis does, a request is rejected only if Redis was ready, the request had an identity
  -- that is not empty, and the counter answered with more than the
  -- maximum, and then with status 429 and a hint between one second and the window's length: an
  -- unreachable Redis, a rejected command and an empty identity let it pass.
  pub rate_limit-Rejects :
      1 ≤ options.window_ms
      → (r : Request) (s : State) (e : Thrown) → (rate_limit counters options r s).0 ≡ err e
      → Rejects r s e
  unfolding rate_limit
  rate_limit-Rejects wide r s e refused = elim (Bool-cases (is_ready s)) [
    | inr down ↦ absurd (ground arith)
    | inl ready ↦ elim (Bool-cases (str_eq r.identity "")) [
      | inl nobody ↦ absurd (ground arith)
      | inr someone ↦ elim (Option-cases (incr (key_of options r) s).0) [
        | inl lost ↦ absurd (ground (arith, counted-none r (incr (key_of options r) s).1))
        | inr (n, count) ↦ (ready, someone, counted-Rejects wide r s n e count (ground arith))
      ]
    ]
  ]
