-- ===== src/Backoff.antt =====
-- internal/diagnostics/retry_policy.go: the delays and the decisions of the diagnostics' retry policy.
-- Its loop and its metrics stand in Backoff/Execute. The policy is used by one goroutine at a time; it
-- has no lock.
pub mod Delays
pub mod Execute
pub mod Counts
pub mod Runs
mod Tests
use docker_net_doctor.Prelude.{
  ℕ, ◌+◌, ◌-◌, ◌*◌, Bool, true, false, not, ◌&&◌, ◌||◌, Option, none, some, List, [], ◌∷◌, any, ltb,
  length, if◌then◌else◌,
}
use docker_net_doctor.Prelude.Int.{ℤ, pos, ltb_ℤ, eqb_ℤ, ◌+ℤ◌, mul_ℤ, wrap64}
use docker_net_doctor.Prelude.Clock.{seconds}
use docker_net_doctor.Prelude.Text.{Text, codes, contains_text}
use docker_net_doctor.Prelude.Float.{Float64}
use docker_net_doctor.Errors.{
  ErrorType, generic, connection, resource, network, system, context, circuit_breaker,
  DiagnosticError, Error, canceled, deadline_exceeded, plain, diagnostic, diagnosed, wrapped,
  is_critical, is_one_of, error_text,
}
use docker_net_doctor.Errors.Codes.{
  code_docker_permission_denied, code_out_of_memory, code_out_of_disk_space,
  code_too_many_open_files, code_network_not_found, code_subnet_overlap, code_timeout,
  code_permission_error, code_configuration_missing,
}

-- `unlisted` is an integer that names none of the three.
pub data BackoffStrategy : Type 0 where
  linear exponential jittered unlisted : BackoffStrategy

module _ (fl : Float64) where
  pub record RetryPolicyConfig : Type 0 where
    pub max_retries : ℤ
    pub max_delay : ℤ
    pub base_delay : ℤ
    pub backoff_strategy : BackoffStrategy
    pub backoff_multiplier : fl.Float
    pub jitter_factor : fl.Float
    pub retryable_errors : List ℤ
    pub non_retryable_errors : List ℤ
    pub max_retry_budget : ℤ
    pub respect_context : Bool

  abbrev pub default_config : RetryPolicyConfig
  default_config = record {
    max_retries = pos 3;
    max_delay = pos (seconds 10);
    base_delay = pos 100000000;
    backoff_strategy = exponential;
    backoff_multiplier = fl.decimal 2 0;
    jitter_factor = fl.decimal 1 1;
    retryable_errors = [];
    non_retryable_errors = [];
    max_retry_budget = pos (seconds 30);
    respect_context = true;
  }

  -- x == 0, false on a NaN.
  abbrev pub is_zero : fl.Float → Bool
  is_zero x = fl.le x (fl.decimal 0 0) && fl.le (fl.decimal 0 0) x

  unfoldable pub with_defaults : RetryPolicyConfig → RetryPolicyConfig
  with_defaults c = record c {
    backoff_multiplier =
        if is_zero c.backoff_multiplier then fl.decimal 2 0 else c.backoff_multiplier;
    jitter_factor = if is_zero c.jitter_factor then fl.decimal 1 1 else c.jitter_factor;
  }

  -- float64(BaseDelay) * math.Pow(by, float64(attempt-1)), as a duration.
  abbrev grown : RetryPolicyConfig → fl.Float → ℕ → ℤ
  grown c by attempt =
      fl.to_int (fl.mul (fl.of_int c.base_delay) (fl.pow by (fl.of_int (pos (attempt - 1)))))

  -- The switch of calculateBackoffDelay at an attempt from 1 on; `random` is rand.Float64().
  raw_delay : BackoffStrategy → RetryPolicyConfig → fl.Float → ℕ → ℤ
  raw_delay linear c random attempt = wrap64 (mul_ℤ c.base_delay (pos attempt))
  raw_delay exponential c random attempt = grown c c.backoff_multiplier attempt
  raw_delay jittered c random attempt =
      let base = grown c c.backoff_multiplier attempt in
      let range = fl.mul (fl.of_int base) c.jitter_factor in
      let centred = fl.mul (fl.sub random (fl.decimal 5 1)) (fl.decimal 2 0) in
      wrap64 (base +ℤ fl.to_int (fl.mul centred range))
  raw_delay unlisted c random attempt = grown c (fl.decimal 2 0) attempt

  unfoldable pub calculate_backoff_delay : RetryPolicyConfig → fl.Float → ℕ → ℤ
  unfolding raw_delay
  calculate_backoff_delay c random attempt =
      let raw = raw_delay c.backoff_strategy c random attempt in
      let capped = if ltb_ℤ c.max_delay raw then c.max_delay else raw in
      if ltb_ℤ capped (pos 0) then c.base_delay else capped

  -- The switch over the type, when no list of codes decides.
  retryable_type : ErrorType → DiagnosticError → Bool
  unfolding is_one_of
  retryable_type connection d = not (eqb_ℤ d.code code_docker_permission_denied)
  retryable_type resource d = not (
      is_one_of (code_out_of_memory ∷ code_out_of_disk_space ∷ code_too_many_open_files ∷ [])
        d.code)
  retryable_type network d =
      not (is_one_of (code_network_not_found ∷ code_subnet_overlap ∷ []) d.code)
  retryable_type context d = eqb_ℤ d.code code_timeout
  retryable_type system d =
      not (is_one_of (code_permission_error ∷ code_configuration_missing ∷ []) d.code)
  retryable_type circuit_breaker d = false
  retryable_type generic d = not (is_critical d.severity)

  unfoldable pub is_retryable_diagnostic_error : RetryPolicyConfig → DiagnosticError → Bool
  unfolding retryable_type
  is_retryable_diagnostic_error c d =
      if is_one_of c.non_retryable_errors d.code
      then false
      else if ltb 0 (length c.retryable_errors)
      then is_one_of c.retryable_errors d.code
      else retryable_type d.type d

abbrev retryable_patterns : List Text
retryable_patterns =
    codes "connection refused"
    ∷ codes "timeout"
    ∷ codes "temporary failure"
    ∷ codes "service unavailable"
    ∷ codes "try again"
    ∷ []

abbrev non_retryable_patterns : List Text
non_retryable_patterns =
    codes "permission denied"
    ∷ codes "not found"
    ∷ codes "invalid"
    ∷ codes "malformed"
    ∷ codes "unauthorized"
    ∷ codes "forbidden"
    ∷ []

-- isRetryableGenericError, of an error's text.
unfoldable pub is_retryable_text : Text → Bool
is_retryable_text t =
    if any (contains_text t) retryable_patterns
    then true
    else if any (contains_text t) non_retryable_patterns
    then false
    else true

module _ (fl : Float64) (show_int : ℤ → Text) where
  -- isRetryable of an error that is not nil.
  unfoldable pub is_retryable : RetryPolicyConfig fl → Error → Bool
  is_retryable c (diagnostic d) = is_retryable_diagnostic_error fl c d
  is_retryable c (diagnosed d e) = is_retryable_diagnostic_error fl c d
  is_retryable c canceled = is_retryable_text (error_text show_int canceled)
  is_retryable c deadline_exceeded = is_retryable_text (error_text show_int deadline_exceeded)
  is_retryable c (plain m) = is_retryable_text (error_text show_int (plain m))
  is_retryable c (wrapped before e after) =
      is_retryable_text (error_text show_int (wrapped before e after))
