-- ===== src/Backoff/Tests.antt =====
-- The theorems on internal/diagnostics/retry_policy.go at concrete settings, errors and operations.
use docker_net_doctor.Prelude.{ℕ, zero, suc, ◌≡◌, refl, false, Option, none, some, [], ◌∷◌, arith}
use docker_net_doctor.Prelude.Int.{ℤ, pos, ◌≤ℤ◌}
use docker_net_doctor.Prelude.Text.{Text, codes, contains_text}
use docker_net_doctor.Prelude.Fraction.{fractions}
use docker_net_doctor.Errors.{DiagnosticError, Error, plain, error_text, resource, warning}
use docker_net_doctor.Errors.Codes.{code_resource_exhaustion}
use docker_net_doctor.Backoff.{
  RetryPolicyConfig, jittered, default_config, calculate_backoff_delay, is_retryable,
  is_retryable_text,
}
use docker_net_doctor.Backoff.Delays.{backoff_delay_bounded}
use docker_net_doctor.Backoff.Execute.{no_metrics, Environment, execute_run, ok}
use docker_net_doctor.Backoff.Runs.{Executes, execute_run-Executes}

abbrev settings : RetryPolicyConfig fractions
settings = record (default_config fractions) {
  backoff_strategy = jittered;
  max_retries = pos 2;
  retryable_errors = code_resource_exhaustion ∷ [];
}

abbrev busy : DiagnosticError
busy = record {
  code = code_resource_exhaustion;
  type = resource;
  message = codes "busy";
  severity = warning;
  recovery = none;
  recovery_attempted = false;
  recovery_error = [];
}

abbrev no_text : ℤ → Text
no_text n = []

abbrev calm : Environment fractions
calm = record {
  random = λ n. record { top = 1; bottom = 2 };
  elapsed = λ n. pos n;
  done = λ n. none;
  duration = λ n. pos 10;
  total = pos 30;
}

-- An operation that fails once, with an error to retry, and then succeeds.
abbrev second_time : ℕ → ℕ × Option Error
second_time zero = (0, some (plain (codes "connection refused")))
second_time (suc n) = (7, none)

second_time_succeeds :
    (execute_run fractions no_text no_text settings calm second_time (no_metrics fractions)).result
    ≡ ok 7
unfolding execute_run is_retryable is_retryable_text contains_text error_text
second_time_succeeds = refl

backoff_delay_bounded_example :
    let d = calculate_backoff_delay fractions settings (record { top = 1; bottom = 2 }) 3 in
    (pos 0 ≤ℤ d) × (d ≤ℤ settings.max_delay)
backoff_delay_bounded_example =
    backoff_delay_bounded fractions settings (record { top = 1; bottom = 2 }) 3 (omega arith)
      (omega arith)

execute_run-Executes_example :
    Executes fractions no_text no_text settings calm second_time
      (no_metrics fractions)
      (execute_run fractions no_text no_text settings calm second_time (no_metrics fractions))
execute_run-Executes_example =
    execute_run-Executes fractions no_text no_text settings calm second_time (no_metrics fractions)
