-- ===== src/Backoff/Delays.antt =====
-- The delays and the decisions of internal/diagnostics/retry_policy.go.
use docker_net_doctor.Prelude.{ℕ, ◌≡◌, ◌↔◌, true, false, arith, ltb, length, if◌then◌else◌}
use docker_net_doctor.Prelude.Int.{ℤ, pos, ltb_ℤ, ◌≤ℤ◌}
use docker_net_doctor.Prelude.Float.{Float64}
use docker_net_doctor.Errors.{DiagnosticError, is_one_of}
use docker_net_doctor.Backoff.{
  RetryPolicyConfig, raw_delay, calculate_backoff_delay, is_retryable_diagnostic_error,
}

module _ (fl : Float64) where
  clamp :
      (max base raw : ℤ)
      → pos 0 ≤ℤ base
      → base ≤ℤ max
      → let capped = if ltb_ℤ max raw then max else raw in
        let d = if ltb_ℤ capped (pos 0) then base else capped in (pos 0 ≤ℤ d) × (d ≤ℤ max)
  clamp max base raw b m = ground arith

  -- With a base delay that is not negative and at most the maximum, every delay is not negative and at
  -- most the maximum: under every strategy, at every attempt, for all values of the floating-point
  -- operations and of the random number, also where the product of a linear delay has wrapped around.
  pub backoff_delay_bounded :
      (c : RetryPolicyConfig fl) (random : fl.Float) (attempt : ℕ)
      → pos 0 ≤ℤ c.base_delay
      → c.base_delay ≤ℤ c.max_delay
      → let d = calculate_backoff_delay fl c random attempt in (pos 0 ≤ℤ d) × (d ≤ℤ c.max_delay)
  unfolding calculate_backoff_delay
  backoff_delay_bounded c random attempt b m =
      clamp c.max_delay c.base_delay (raw_delay fl c.backoff_strategy c random attempt) b m

  -- A configuration that lists codes to retry and codes not to retry decides by the lists alone: an
  -- error is retried exactly when its code is on the first list and not on the second.
  pub listed_codes_decide :
      (c : RetryPolicyConfig fl) (d : DiagnosticError)
      → ltb 0 (length c.retryable_errors) ≡ true
      → (is_retryable_diagnostic_error fl c d ≡ true) ↔ (
          (is_one_of c.retryable_errors d.code ≡ true)
          × (is_one_of c.non_retryable_errors d.code ≡ false))
  unfolding is_retryable_diagnostic_error
  listed_codes_decide c d h = ground arith
