-- ===== src/Limiter/Tests.antt =====
-- Runs of internal/diagnostics/rate_limiter.go over a bucket that counts down its tokens.
use docker_net_doctor.Prelude.{
  ℕ, zero, suc, ◌≡◌, refl, Bool, true, false, none, some, List, [], ◌∷◌,
}
use docker_net_doctor.Prelude.Int.{pos, pos_part}
use docker_net_doctor.Prelude.Fraction.{Fraction, fractions}
use docker_net_doctor.Limiter.{
  Bucket, deadline_exceeded, RateLimiterConfig, new_rate_limiter, default_rate_limiter_config, wait,
  try_acquire, update_config,
}
use docker_net_doctor.Limiter.Accounts.{
  Call, waiting, trying, updating, run, step, Balanced, run-Balanced,
}

abbrev take_token : ℕ → ℕ × Bool
take_token zero = (0, false)
take_token (suc n) = (n, true)

abbrev tokens : Bucket Fraction
tokens = record {
  Context = Unit {0};
  Limiter = ℕ;
  Error = Unit {0};
  new_limiter = λ rate burst. pos_part burst;
  wait_token = λ n ctx timeout. elim n [ zero ↦ (0, some deadline_exceeded) | suc k ↦ (k, none) ];
  allow = take_token;
  Reservation = ℕ;
  reserve_token = λ n. (n, n);
}

abbrev one_token : RateLimiterConfig fractions tokens
one_token = record (default_rate_limiter_config fractions tokens) { burst_size = pos 1 }

abbrev unlimited : RateLimiterConfig fractions tokens
unlimited = record (default_rate_limiter_config fractions tokens) { enabled = false }

abbrev calls : List (Call fractions tokens)
calls = waiting tt 30 5 ∷ waiting tt 40 6 ∷ trying 7 ∷ updating unlimited ∷ waiting tt 0 8 ∷ []

-- One request is allowed by the token, one times out, one is throttled, and one is not limited.
outcomes :
    let m =
      (run fractions tokens calls (new_rate_limiter fractions tokens (some one_token))).metrics in
    (m.total_requests ≡ 4)
    × (m.allowed_requests ≡ 2)
    × (m.throttled_requests ≡ 1)
    × (m.timeout_requests ≡ 1)
    × (m.total_wait_time ≡ 30)
unfolding run step wait try_acquire update_config new_rate_limiter
outcomes = (refl, refl, refl, refl, refl)

run-Balanced_example :
    Balanced
      (run fractions tokens calls (new_rate_limiter fractions tokens (some one_token))).metrics
run-Balanced_example = run-Balanced fractions tokens (some one_token) calls

abbrev later_calls : List (Call fractions tokens)
later_calls = trying 3 ∷ waiting tt 2 4 ∷ []
