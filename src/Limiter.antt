-- ===== src/Limiter.antt =====
-- internal/diagnostics/rate_limiter.go: the rate limiter's settings and metrics. The token bucket of
-- golang.org/x/time/rate is a parameter: its state and what `Wait` and `Allow` answer. Each method is
-- one step; `now` is a reading of the clock and `waited` the time.Since of a wait, which reads the
-- monotonic clock and is not negative. Counters are unbounded numbers.
pub mod Accounts
mod Tests
use docker_net_doctor.Prelude.{
  ℕ, ◌+◌, ◌*◌, ◌/◌, Bool, true, false, not, ◌||◌, Option, none, some, ◌==◌, ltb, if◌then◌else◌,
}
use docker_net_doctor.Prelude.Int.{ℤ, pos, ltb_ℤ}
use docker_net_doctor.Prelude.Clock.{seconds}
use docker_net_doctor.Prelude.Float.{Float64}

-- An error of the bucket's Wait: context.DeadlineExceeded, or another.
pub data WaitError (E : Type 0) : Type 0 where
  deadline_exceeded : WaitError E
  other : E → WaitError E

-- context.Context and rate.Limiter. A wait is given the time-out that is added to its context, if any.
pub record Bucket (F : Type 0) : Type 1 where
  pub Context : Type 0
  pub Limiter : Type 0
  pub Error : Type 0
  pub new_limiter : F → ℤ → Limiter
  pub wait_token : Limiter → Context → Option ℤ → Limiter × Option (WaitError Error)
  pub allow : Limiter → Limiter × Bool
  pub Reservation : Type 0
  pub reserve_token : Limiter → Limiter × Reservation

pub record RateLimiterMetrics : Type 0 where
  pub total_requests : ℕ
  pub allowed_requests : ℕ
  pub throttled_requests : ℕ
  pub timeout_requests : ℕ
  pub total_wait_time : ℕ
  pub max_wait_time : ℕ
  pub last_request : ℕ

abbrev pub no_metrics : RateLimiterMetrics
no_metrics = record {
  total_requests = 0;
  allowed_requests = 0;
  throttled_requests = 0;
  timeout_requests = 0;
  total_wait_time = 0;
  max_wait_time = 0;
  last_request = 0;
}

-- The error that Wait returns.
pub data LimitError (E : Type 0) : Type 0 where
  timed_out_after : ℕ → LimitError E
  limiter_error : E → LimitError E

module _ (fl : Float64) (b : Bucket fl.Float) where
  pub record RateLimiterConfig : Type 0 where
    pub requests_per_second : fl.Float
    pub burst_size : ℤ
    pub wait_timeout : ℤ
    pub enabled : Bool

  -- A nil limiter is `none`.
  pub record RateLimiter : Type 0 where
    pub config : RateLimiterConfig
    pub limiter : Option b.Limiter
    pub metrics : RateLimiterMetrics

  abbrev pub default_rate_limiter_config : RateLimiterConfig
  default_rate_limiter_config = record {
    requests_per_second = fl.of_int (pos 5);
    burst_size = pos 10;
    wait_timeout = pos (seconds 5);
    enabled = true;
  }

  abbrev limiter_for : RateLimiterConfig → Option b.Limiter
  limiter_for c =
      if c.enabled then some (b.new_limiter c.requests_per_second c.burst_size) else none

  abbrev given : Option RateLimiterConfig → RateLimiterConfig
  given none = default_rate_limiter_config
  given (some c) = c

  unfoldable pub new_rate_limiter : Option RateLimiterConfig → RateLimiter
  new_rate_limiter config = record {
    config = given config;
    limiter = limiter_for (given config);
    metrics = no_metrics;
  }

  abbrev counted : RateLimiterMetrics → RateLimiterMetrics
  counted m = record m { total_requests = m.total_requests + 1 }

  abbrev allowed_at : ℕ → RateLimiterMetrics → RateLimiterMetrics
  allowed_at now m = record m { allowed_requests = m.allowed_requests + 1; last_request = now }

  -- The limiter that is asked: none when limiting is disabled.
  abbrev pub active : RateLimiter → Option b.Limiter
  active rl = if rl.config.enabled then rl.limiter else none

  unfoldable pub update_metrics :
      Option (WaitError b.Error) → ℕ → ℕ → RateLimiterMetrics → RateLimiterMetrics
  update_metrics (some deadline_exceeded) waited now m = record m {
    timeout_requests = m.timeout_requests + 1;
  }
  update_metrics (some (other e)) waited now m = record m {
    throttled_requests = m.throttled_requests + 1;
  }
  update_metrics none waited now m = record m {
    allowed_requests = m.allowed_requests + 1;
    last_request = now;
    total_wait_time = m.total_wait_time + waited;
    max_wait_time = if ltb m.max_wait_time waited then waited else m.max_wait_time;
  }

  abbrev wait_error : ℕ → Option (WaitError b.Error) → Option (LimitError b.Error)
  wait_error waited none = none
  wait_error waited (some deadline_exceeded) = some (timed_out_after waited)
  wait_error waited (some (other e)) = some (limiter_error e)

  unfoldable pub wait : b.Context → ℕ → ℕ → RateLimiter → RateLimiter × Option (LimitError b.Error)
  unfolding update_metrics
  wait ctx waited now rl =
      let m = counted rl.metrics in
      elim (active rl) [
        | none ↦ (record rl { metrics = allowed_at now m }, none)
        | some l ↦
            let timeout =
              if ltb_ℤ (pos 0) rl.config.wait_timeout then some rl.config.wait_timeout else none in
            let (l', e) = b.wait_token l ctx timeout in
            (
              record rl { limiter = some l'; metrics = update_metrics e waited now m },
              wait_error waited e,
            )
      ]

  unfoldable pub try_acquire : ℕ → RateLimiter → RateLimiter × Bool
  try_acquire now rl =
      let m = counted rl.metrics in
      elim (active rl) [
        | none ↦ (record rl { metrics = allowed_at now m }, true)
        | some l ↦
            let (l', ok) = b.allow l in
            (
              record rl {
                limiter = some l';
                metrics =
                    if ok
                    then allowed_at now m
                    else record m { throttled_requests = m.throttled_requests + 1 };
              },
              ok,
            )
      ]

  -- A nil reservation is `none`.
  unfoldable pub reserve : RateLimiter → RateLimiter × Option b.Reservation
  reserve rl = elim (active rl) [
    | none ↦ (rl, none)
    | some l ↦ let (l', r) = b.reserve_token l in (record rl { limiter = some l' }, some r)
  ]

  unfoldable pub reset_metrics : RateLimiter → RateLimiter
  reset_metrics rl = record rl { metrics = no_metrics }

  unfoldable pub update_config : RateLimiterConfig → RateLimiter → RateLimiter
  update_config c rl = record rl { config = c; limiter = limiter_for c }

  unfoldable pub get_effective_rate : RateLimiter → fl.Float
  get_effective_rate rl = elim (active rl) [
    | none ↦ fl.of_int (pos 0)
    | some l ↦ rl.config.requests_per_second
  ]

  unfoldable pub get_burst_size : RateLimiter → ℤ
  get_burst_size rl = if rl.config.enabled then rl.config.burst_size else pos 0

  unfoldable pub get_average_wait_time : RateLimiter → ℕ
  get_average_wait_time rl =
      if rl.metrics.allowed_requests == 0
      then 0
      else rl.metrics.total_wait_time / rl.metrics.allowed_requests

  unfoldable pub get_throttle_rate : RateLimiter → fl.Float
  get_throttle_rate rl =
      let m = rl.metrics in
      if m.total_requests == 0
      then fl.of_int (pos 0)
      else fl.mul
          (fl.div (fl.of_int (pos (m.throttled_requests + m.timeout_requests)))
            (fl.of_int (pos m.total_requests)))
          (fl.of_int (pos 100))
