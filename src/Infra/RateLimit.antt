-- ===== src/Infra/RateLimit.antt =====
-- src/infra/rate-limit.ts: the fixed-window limiter. A request passes (`next()`), or gets an error.
use eventify_backend_course.Common.{
  ℕ, ◌+◌, ◌-◌, ◌/◌, ◌%◌, max, String, Option, none, some, str_eq, ltb, ◌==◌, if◌then◌else◌,
}
use eventify_backend_course.Errors.{Thrown, http, retry_after_sec, Result, ok, err, Action}
use eventify_backend_course.Infra.Counters.{Key, Counters}

pub record RateLimitOptions : Type 0 where
  pub max : ℕ
  pub window_ms : ℕ
  pub label : String

-- A request, by what the limiter reads: `keyOf(req)`, and the clock at its two readings.
pub record Request : Type 0 where
  pub identity : String
  pub now : ℕ
  pub later : ℕ

-- Math.ceil(windowMs / 1000)
unfoldable pub window_sec : RateLimitOptions → ℕ
window_sec options = (options.window_ms + 999) / 1000

unfoldable pub key_of : RateLimitOptions → Request → Key
key_of options req = record {
  identity = req.identity;
  label = options.label;
  window = req.now / options.window_ms;
}

unfoldable pub too_many : RateLimitOptions → Request → Thrown
unfolding window_sec
too_many options req =
    let retry_after = window_sec options - (req.later / 1000) % window_sec options in
    http (record {
      status_code = 429;
      message = "Too many requests, please slow down";
      details = retry_after_sec (max retry_after 1);
    })

module _ (counters : Counters) where
  open counters use {State, is_ready, incr, expire}

  -- `if (count > max)`
  abbrev pub decide : RateLimitOptions → Request → ℕ → Result (Unit {0})
  decide options req count = if ltb options.max count then err (too_many options req) else ok tt

  -- The body of the `try`, after INCR; the `catch` lets the request pass.
  unfoldable pub counted : RateLimitOptions → Request → Option ℕ → Action State (Unit {0})
  counted options req none s = (ok tt, s)
  counted options req (some count) s =
      if count == 1
      then (let (fulfilled, s') = expire (key_of options req) (window_sec options) s in
          (if fulfilled then decide options req count else ok tt, s'))
      else (decide options req count, s)

  unfoldable pub rate_limit : RateLimitOptions → Request → Action State (Unit {0})
  rate_limit options req s =
      if is_ready s
      then (if str_eq req.identity ""
          then (ok tt, s)
          else (let (count, s') = incr (key_of options req) s in counted options req count s'))
      else (ok tt, s)
