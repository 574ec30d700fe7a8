-- ===== src/Recovery.antt =====
-- internal/diagnostics/error_recovery.go: the classification of errors and the choice of a strategy.
-- What runs the strategies stands in Recovery/Operations.
pub mod Operations
pub mod Outcomes
pub mod Accounts
pub mod Calls
pub mod Wrapping
pub mod Calm
pub mod Managed
mod Tests
use docker_net_doctor.Prelude.{
  ℕ, zero, suc, ◌+◌, ◌-◌, Bool, true, false, not, ◌&&◌, ◌||◌, Option, none, some, List, [], ◌∷◌,
  any, ltb, leb, length, take, drop, if◌then◌else◌,
}
use docker_net_doctor.Prelude.Int.{ℤ, pos}
use docker_net_doctor.Prelude.Text.{Text, codes, text_eq}
use docker_net_doctor.Errors.{
  ErrorType, generic, connection, resource, network, system, context, circuit_breaker, Severity,
  warning, critical, RecoveryStrategy, DiagnosticError, Error, diagnostic, diagnosed, canceled,
  deadline_exceeded, plain, wrapped, is_context_error, error_text,
}
use docker_net_doctor.Errors.Codes.{
  code_docker_daemon_unreachable, code_timeout, code_resource_exhaustion,
  code_network_configuration, code_generic, code_circuit_breaker_open,
}

-- The loop of indexSubstring from index `i` on, with the rounds that are left; `none` is -1.
index_from : ℕ → ℕ → Text → Text → Option ℕ
index_from zero i s sub = none
index_from (suc rounds) i s sub =
    let rest = index_from rounds (i + 1) s sub in
    if text_eq (take (length sub) (drop i s)) sub then some i else rest

unfoldable pub index_substring : Text → Text → Option ℕ
unfolding index_from
index_substring s sub = index_from (length s + 1 - length sub) 0 s sub

unfoldable pub contains_string : Text → Text → Bool
unfolding index_substring
contains_string s sub =
    leb (length sub) (length s)
    && (text_eq s sub
        || (ltb (length sub) (length s)
            && (text_eq (take (length sub) s) sub
                || text_eq (take (length sub) (drop (length s - length sub) s)) sub
                || (elim (index_substring s sub) [ none ↦ false | some i ↦ true ]))))

abbrev connection_patterns : List Text
connection_patterns =
    codes "cannot connect to Docker daemon"
    ∷ codes "connection refused"
    ∷ codes "dial unix"
    ∷ codes "daemon not running"
    ∷ codes "permission denied"
    ∷ []

abbrev resource_patterns : List Text
resource_patterns =
    codes "out of memory"
    ∷ codes "no space left"
    ∷ codes "resource temporarily unavailable"
    ∷ codes "too many open files"
    ∷ codes "cannot allocate memory"
    ∷ []

abbrev network_patterns : List Text
network_patterns =
    codes "network not found"
    ∷ codes "no route to host"
    ∷ codes "connection timed out"
    ∷ codes "network unreachable"
    ∷ codes "dns resolution failed"
    ∷ []

unfoldable pub is_docker_connection_error : Text → Bool
unfolding contains_string
is_docker_connection_error m = any (contains_string m) connection_patterns

unfoldable pub is_resource_exhaustion_error : Text → Bool
unfolding contains_string
is_resource_exhaustion_error m = any (contains_string m) resource_patterns

unfoldable pub is_network_error : Text → Bool
unfolding contains_string
is_network_error m = any (contains_string m) network_patterns

-- A strategy that only advises: every action is off.
abbrev pub advise : List Text → List Text → RecoveryStrategy
advise now later = record {
  retry_with_backoff = false;
  max_retries = pos 0;
  cleanup_resources = false;
  graceful_degrade = false;
  network_recovery = false;
  immediate = now;
  long_term = later;
}

abbrev pub new_error : ℤ → ErrorType → Text → Severity → RecoveryStrategy → DiagnosticError
new_error code type message severity strategy = record {
  code = code;
  type = type;
  message = message;
  severity = severity;
  recovery = some strategy;
  recovery_attempted = false;
  recovery_error = [];
}

-- The error of ExecuteWithRecovery while the circuit is open.
abbrev pub circuit_open_error : DiagnosticError
circuit_open_error =
    new_error code_circuit_breaker_open system (codes "Circuit breaker is open, operation blocked")
      critical
      (advise
        (codes "Wait for circuit breaker to reset" ∷ codes "Check Docker daemon connectivity" ∷ [])
        (codes "Investigate root cause of repeated failures"
          ∷ codes "Consider increasing circuit breaker thresholds"
          ∷ []))

abbrev unreachable_error : DiagnosticError
unreachable_error =
    new_error code_docker_daemon_unreachable connection (codes "Docker daemon is unreachable")
      critical
      (advise
        (codes "Check if Docker daemon is running"
          ∷ codes "Verify Docker socket permissions"
          ∷ codes "Test Docker connectivity with 'docker version'"
          ∷ [])
        (codes "Monitor Docker daemon health"
          ∷ codes "Configure automatic Docker service restart"
          ∷ []))

abbrev timeout_error : DiagnosticError
timeout_error = new_error code_timeout context (codes "Operation cancelled or timed out") warning (
    advise (codes "Retry with increased timeout" ∷ codes "Check system performance" ∷ []) (
      codes "Optimize diagnostic operations"
      ∷ codes "Consider running diagnostics during low load"
      ∷ []))

abbrev exhaustion_error : DiagnosticError
exhaustion_error =
    new_error code_resource_exhaustion resource (codes "System resources exhausted") critical (
      advise
        (codes "Free up system resources"
          ∷ codes "Stop unnecessary containers"
          ∷ codes "Check disk space and memory usage"
          ∷ [])
        (codes "Monitor resource usage patterns"
          ∷ codes "Implement resource limits"
          ∷ codes "Scale system resources if needed"
          ∷ []))

abbrev network_configuration_error : DiagnosticError
network_configuration_error =
    new_error code_network_configuration network (codes "Network configuration error") warning (
      advise
        (codes "Check network connectivity"
          ∷ codes "Verify network configuration"
          ∷ codes "Test DNS resolution"
          ∷ [])
        (codes "Review network architecture" ∷ codes "Monitor network performance" ∷ []))

abbrev unexpected_error : DiagnosticError
unexpected_error = new_error code_generic system (codes "Unexpected error occurred") warning (
    advise (codes "Retry the operation" ∷ codes "Check system health" ∷ [])
      (codes "Review logs for patterns" ∷ codes "Consider system maintenance" ∷ []))

module _ (show_int : ℤ → Text) where
  -- The classification of an error that is no *DiagnosticError, which becomes its Original.
  unfoldable pub classify_text : Error → DiagnosticError
  unfolding is_docker_connection_error is_resource_exhaustion_error is_network_error
  classify_text e =
      let m = error_text show_int e in
      if is_docker_connection_error m
      then unreachable_error
      else if is_context_error e
      then timeout_error
      else if is_resource_exhaustion_error m
      then exhaustion_error
      else if is_network_error m
      then network_configuration_error
      else unexpected_error

  unfoldable pub classify_error : Error → DiagnosticError
  unfolding classify_text
  classify_error (diagnostic d) = d
  classify_error (diagnosed d e) = d
  classify_error canceled = classify_text canceled
  classify_error deadline_exceeded = classify_text deadline_exceeded
  classify_error (plain m) = classify_text (plain m)
  classify_error (wrapped before e after) = classify_text (wrapped before e after)

-- The strategies by type, given two of the settings.
unfoldable pub default_strategy : ErrorType → ℤ → Bool → RecoveryStrategy
default_strategy connection max_retries degrade =
    record (advise
      (codes "Attempt to reconnect to Docker daemon"
        ∷ codes "Wait for daemon to become available"
        ∷ [])
      []) { retry_with_backoff = true; max_retries = max_retries }
default_strategy resource max_retries degrade =
    record (advise (codes "Clean up unused resources" ∷ codes "Run minimal diagnostic checks" ∷ [])
      []) { cleanup_resources = true; graceful_degrade = degrade }
default_strategy network max_retries degrade =
    record (advise (codes "Reset network connections" ∷ codes "Verify network configuration" ∷ [])
      []) { retry_with_backoff = true; network_recovery = true }
default_strategy _ max_retries degrade = record (advise [] []) {
  retry_with_backoff = true;
  max_retries = pos 1;
}

unfoldable pub select_recovery_strategy : DiagnosticError → ℤ → Bool → RecoveryStrategy
select_recovery_strategy d max_retries degrade = elim d.recovery [
  | some r ↦ r
  | none ↦ default_strategy d.type max_retries degrade
]
