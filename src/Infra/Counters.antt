-- ===== src/Infra/Counters.antt =====
-- What src/infra/rate-limit.ts uses of the Redis client: counters under keys.
use eventify_backend_course.Common.{ℕ, ◌+◌, ◌≡◌, ◌≢◌, String, Bool, true, Option, none, some}

-- `rl:{identity}:{label}:{window}`
pub record Key : Type 0 where
  pub identity : String
  pub label : String
  pub window : ℕ

pub record Counters : Type 1 where
  pub State : Type 0
  pub is_ready : State → Bool
  -- the count under a key, 0 where there is none
  pub value : Key → State → ℕ
  -- INCR: `none` where the promise is rejected
  pub incr : Key → State → Option ℕ × State
  pub incr_lem :
      (k : Key) (s : State) (n : ℕ)
      → (incr k s).0 ≡ some n
      → (n ≡ value k s + 1) × (value k (incr k s).1 ≡ value k s + 1)
  pub incr_other : (k j : Key) (s : State) → j ≢ k → value j (incr k s).1 ≡ value j s
  -- EXPIRE key seconds NX: whether the promise is fulfilled
  pub expire : Key → ℕ → State → Bool × State
  pub expire_lem :
      (k j : Key) (seconds : ℕ) (s : State) → value j (expire k seconds s).1 ≡ value j s

-- Every command is carried out.
pub record IsUp (counters : Counters) : Type 0 where
  pub ready : (s : counters.State) → counters.is_ready s ≡ true
  pub counts : (k : Key) (s : counters.State) → (counters.incr k s).0 ≢ none
