-- ===== src/Limiter/Accounts.antt =====
-- The metrics of internal/diagnostics/rate_limiter.go over any calls.
use native.Mathlib.Nat.{mul-le-mul_left, div-le_of_le-mul}
use docker_net_doctor.Prelude.{
  ℕ, suc, ◌+◌, ◌*◌, ◌≤◌, ◌≡◌, Bool, true, false, Option, none, some, List, [], ◌∷◌, arith, ◌==◌,
  ltb, all, Bool-cases, inl, inr, Option-cases,
}
use docker_net_doctor.Prelude.Float.{Float64}
use docker_net_doctor.Limiter.{
  Bucket, WaitError, deadline_exceeded, other, RateLimiterMetrics, RateLimiterConfig, RateLimiter,
  new_rate_limiter, update_metrics, wait, try_acquire, reserve, reset_metrics, update_config,
  get_average_wait_time, counted, allowed_at, active,
}

-- What the metrics tell: each request was allowed, throttled or timed out; the longest wait is part of
-- the total, and the total is no more than a longest wait for each request that was allowed.
pub record Balanced (m : RateLimiterMetrics) : Type 0 where
  pub outcomes : m.total_requests ≡ m.allowed_requests + m.throttled_requests + m.timeout_requests
  pub longest : m.max_wait_time ≤ m.total_wait_time
  pub total : m.total_wait_time ≤ m.allowed_requests * m.max_wait_time

-- The metrics while one request has been counted, but not yet its outcome.
record Pending (m : RateLimiterMetrics) : Type 0 where
  outcomes : m.total_requests ≡ suc (m.allowed_requests + m.throttled_requests + m.timeout_requests)
  longest : m.max_wait_time ≤ m.total_wait_time
  total : m.total_wait_time ≤ m.allowed_requests * m.max_wait_time

module _ (fl : Float64) (b : Bucket fl.Float) where
  counted-Pending : (m : RateLimiterMetrics) → Balanced m → Pending (counted fl b m)
  counted-Pending m v = record {
    outcomes = omega (arith, v.outcomes);
    longest = v.longest;
    total = v.total;
  }

  allowed_at-Balanced :
      (now : ℕ) (m : RateLimiterMetrics) → Pending m → Balanced (allowed_at fl b now m)
  allowed_at-Balanced now m v = record {
    outcomes = omega (arith, v.outcomes);
    longest = v.longest;
    total = omega (arith, v.total);
  }

  update_metrics-Balanced :
      (e : Option (WaitError b.Error)) (waited now : ℕ) (m : RateLimiterMetrics)
      → Pending m
      → Balanced (update_metrics fl b e waited now m)
  unfolding update_metrics
  update_metrics-Balanced (some deadline_exceeded) waited now m v = record {
    outcomes = omega (arith, v.outcomes);
    longest = v.longest;
    total = v.total;
  }
  update_metrics-Balanced (some (other e)) waited now m v = record {
    outcomes = omega (arith, v.outcomes);
    longest = v.longest;
    total = v.total;
  }
  update_metrics-Balanced none waited now m v = elim (Bool-cases (ltb m.max_wait_time waited)) [
    | inl longer ↦
        let grown : m.max_wait_time ≤ waited = ground arith in
        let more = mul-le-mul_left m.allowed_requests grown in
        record {
          outcomes = omega (arith, v.outcomes);
          longest = rw longer (omega arith);
          total = rw longer (omega (arith, v.total, more));
        }
    | inr within ↦
        let bounded : waited ≤ m.max_wait_time = ground arith in
        record {
          outcomes = omega (arith, v.outcomes);
          longest = rw within (omega (arith, v.longest));
          total = rw within (omega (arith, v.total, bounded));
        }
  ]

  -- A call, with the readings of the clock that it makes.
  pub data Call : Type 0 where
    waiting : b.Context → ℕ → ℕ → Call
    trying : ℕ → Call
    reserving resetting : Call
    updating : RateLimiterConfig fl b → Call

  unfoldable pub step : Call → RateLimiter fl b → RateLimiter fl b
  step (waiting ctx waited now) rl = (wait fl b ctx waited now rl).0
  step (trying now) rl = (try_acquire fl b now rl).0
  step reserving rl = (reserve fl b rl).0
  step resetting rl = reset_metrics fl b rl
  step (updating c) rl = update_config fl b c rl

  unfoldable pub run : List Call → RateLimiter fl b → RateLimiter fl b
  run [] rl = rl
  run (x ∷ xs) rl = run xs (step x rl)

  wait-Balanced :
      (ctx : b.Context) (waited now : ℕ) (rl : RateLimiter fl b)
      → Balanced rl.metrics
      → Balanced (wait fl b ctx waited now rl).0.metrics
  unfolding wait
  wait-Balanced ctx waited now rl v =
      let p = counted-Pending rl.metrics v in
      elim (Option-cases (active fl b rl)) [
        | inl off ↦ rw (wait, off) (allowed_at-Balanced now (counted fl b rl.metrics) p)
        | inr (l, on) ↦
            rw (wait, on) (update_metrics-Balanced _ waited now (counted fl b rl.metrics) p)
      ]

  try_acquire-Balanced :
      (now : ℕ) (rl : RateLimiter fl b)
      → Balanced rl.metrics
      → Balanced (try_acquire fl b now rl).0.metrics
  unfolding try_acquire
  try_acquire-Balanced now rl v =
      let m = counted fl b rl.metrics in
      let p = counted-Pending rl.metrics v in
      elim (Option-cases (active fl b rl)) [
        | inl off ↦ rw (try_acquire, off) (allowed_at-Balanced now m p)
        | inr (l, on) ↦ elim (Bool-cases (b.allow l).1) [
          | inl ok ↦ rw (try_acquire, on, ok) (allowed_at-Balanced now m p)
          | inr refused ↦
              rw (try_acquire, on, refused)
                (record {
                  outcomes = omega (arith, p.outcomes);
                  longest = p.longest;
                  total = p.total;
                })
        ]
      ]

  step-Balanced :
      (x : Call) (rl : RateLimiter fl b) → Balanced rl.metrics → Balanced (step x rl).metrics
  unfolding step reserve reset_metrics update_config
  step-Balanced (waiting ctx waited now) rl v = wait-Balanced ctx waited now rl v
  step-Balanced (trying now) rl v = try_acquire-Balanced now rl v
  step-Balanced reserving rl v = elim (Option-cases (active fl b rl)) [
    | inl off ↦ rw (step, off) v
    | inr (l, on) ↦ rw (step, on) v
  ]
  step-Balanced resetting rl v = record {
    outcomes = omega arith;
    longest = omega arith;
    total = omega arith;
  }
  step-Balanced (updating c) rl v = v

  run_from-Balanced :
      (xs : List Call) (rl : RateLimiter fl b) → Balanced rl.metrics → Balanced (run xs rl).metrics
  unfolding run
  run_from-Balanced [] rl v = v
  run_from-Balanced (x ∷ xs) rl v = run_from-Balanced xs (step x rl) (step-Balanced x rl v)

  -- After any calls on a new limiter, whatever its bucket answers: the requests are those allowed,
  -- throttled and timed out together, the longest wait is at most the total wait, and the total wait is
  -- at most the longest wait for each request that was allowed.
  pub run-Balanced :
      (config : Option (RateLimiterConfig fl b)) (xs : List Call)
      → Balanced (run xs (new_rate_limiter fl b config)).metrics
  unfolding new_rate_limiter
  run-Balanced config xs =
      run_from-Balanced xs (new_rate_limiter fl b config)
        (record { outcomes = omega arith; longest = omega arith; total = omega arith })

  -- The average wait that is reported is never above the longest one.
  pub average_le_longest :
      (config : Option (RateLimiterConfig fl b)) (xs : List Call)
      → let rl = run xs (new_rate_limiter fl b config) in
        get_average_wait_time fl b rl ≤ rl.metrics.max_wait_time
  unfolding get_average_wait_time
  average_le_longest config xs =
      let m = (run xs (new_rate_limiter fl b config)).metrics in
      let v = run-Balanced config xs in
      elim (Bool-cases (m.allowed_requests == 0)) [
        | inl never ↦ rw never (omega arith)
        | inr some_allowed ↦ rw some_allowed (div-le_of_le-mul m.allowed_requests v.total)
      ]

  -- The calls that may follow a configuration that disables limiting: all but another configuration.
  abbrev pub keeps_config : Call → Bool
  keeps_config (updating c) = false
  keeps_config x = true

  step-disabled :
      (x : Call) (rl : RateLimiter fl b)
      → keeps_config x ≡ true
      → rl.config.enabled ≡ false
      → (step x rl).config.enabled ≡ false
  unfolding step wait try_acquire reserve reset_metrics
  step-disabled (waiting ctx waited now) rl k off = ground (arith, off)
  step-disabled (trying now) rl k off = ground (arith, off)
  step-disabled reserving rl k off = ground (arith, off)
  step-disabled resetting rl k off = off
  step-disabled (updating c) rl k off = absurd (ground arith)

  run-disabled :
      (xs : List Call) (rl : RateLimiter fl b)
      → all keeps_config xs ≡ true
      → rl.config.enabled ≡ false
      → (run xs rl).config.enabled ≡ false
  unfolding run
  run-disabled [] rl k off = off
  run-disabled (x ∷ xs) rl k off =
      run-disabled xs (step x rl) (ground arith) (step-disabled x rl (ground arith) off)

  -- Once limiting has been disabled, every later request is allowed at once until the next
  -- UpdateConfig, by TryAcquire and by Wait, and the bucket is not asked.
  pub disabled_allows :
      (c : RateLimiterConfig fl b) (xs : List Call) (rl : RateLimiter fl b) (ctx : b.Context)
      (waited now : ℕ)
      → c.enabled ≡ false
      → all keeps_config xs ≡ true
      → let t = run xs (update_config fl b c rl) in
        ((try_acquire fl b now t).1 ≡ true)
        × ((try_acquire fl b now t).0.limiter ≡ t.limiter)
        × ((wait fl b ctx waited now t).1 ≡ none)
        × ((wait fl b ctx waited now t).0.limiter ≡ t.limiter)
  unfolding update_config wait try_acquire
  disabled_allows c xs rl ctx waited now off k =
      let still = run-disabled xs (update_config fl b c rl) k off in ground (arith, still)
