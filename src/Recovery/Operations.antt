-- ===== src/Recovery/Operations.antt =====
-- The operations of internal/diagnostics/error_recovery.go, over the circuit breaker and the retry
-- policy. The cleanup manager is an interface, and what the Docker client answers to a ping is given.
-- The metrics are behind a lock that no step holds while it calls another part.
use docker_net_doctor.Prelude.{
  ℕ, ◌+◌, Bool, true, false, not, ◌&&◌, Option, none, some, List, [], ◌∷◌, ◌++◌, ltb, if◌then◌else◌,
}
use docker_net_doctor.Prelude.Int.{ℤ, pos, eqb_ℤ, ◌+ℤ◌}
use docker_net_doctor.Prelude.Clock.{seconds}
use docker_net_doctor.Prelude.Text.{Text, codes}
use docker_net_doctor.Prelude.Float.{Float64}
use docker_net_doctor.Errors.{
  ErrorType, ErrorType-eq, RecoveryStrategy, DiagnosticError, Error, diagnostic, diagnosed, plain,
  wrapped, error_text,
}
use docker_net_doctor.Errors.Codes.{code_docker_daemon_unreachable, code_resource_exhaustion}
use docker_net_doctor.Breaker.{opened, state_eq, Breaker, new_circuit_breaker}
use docker_net_doctor.Breaker.Operations.{can_execute, record_success, record_failure}
use docker_net_doctor.Backoff.{BackoffStrategy, exponential}
use docker_net_doctor.Backoff.Execute.{
  Result, ok, err, Environment, RetryPolicy, new_retry_policy, execute, increment, max_ℤ,
}
use docker_net_doctor.Recovery.{circuit_open_error, classify_error, select_recovery_strategy}

-- ResourceCleanupManager, each operation with the error that it returns (`none` is nil).
pub record Cleaner : Type 1 where
  pub Manager : Type 0
  pub cleanup_after_error : DiagnosticError → Manager → Manager × Option Error
  pub perform_cleanup : Manager → Manager × Option Error
  pub perform_aggressive_cleanup : Manager → Manager × Option Error
  pub perform_final_cleanup : Manager → Manager × Option Error
  pub shutdown_manager : Manager → Manager × Option Error

pub record RecoveryConfig : Type 0 where
  pub max_retries : ℤ
  pub base_delay : ℤ
  pub max_delay : ℤ
  pub backoff_strategy : BackoffStrategy
  pub failure_threshold : ℤ
  pub recovery_timeout : ℤ
  pub consecutive_successes : ℤ
  pub cleanup_timeout : ℤ
  pub auto_cleanup : Bool
  pub preserve_debug_data : Bool
  pub enable_degradation : Bool
  pub minimal_checks_only : Bool
  pub partial_results_ok : Bool

abbrev pub default_recovery_config : RecoveryConfig
default_recovery_config = record {
  max_retries = pos 3;
  base_delay = pos 500000000;
  max_delay = pos (seconds 30);
  backoff_strategy = exponential;
  failure_threshold = pos 5;
  recovery_timeout = pos (seconds 30);
  consecutive_successes = pos 3;
  cleanup_timeout = pos (seconds 10);
  auto_cleanup = true;
  preserve_debug_data = false;
  enable_degradation = true;
  minimal_checks_only = false;
  partial_results_ok = true;
}

-- The metrics that the code changes; CircuitBreakerBlocks is `blocks`.
pub record RecoveryMetrics : Type 0 where
  pub total_operations : ℕ
  pub total_successes : ℕ
  pub total_failures : ℕ
  pub successful_recoveries : ℕ
  pub failed_recoveries : ℕ
  pub total_execution_time : ℤ
  pub max_execution_time : ℤ
  pub errors_by_type : List (ErrorType × ℕ)
  pub blocks : ℕ
  pub degradation_enabled : Bool

abbrev pub no_recovery_metrics : RecoveryMetrics
no_recovery_metrics = record {
  total_operations = 0;
  total_successes = 0;
  total_failures = 0;
  successful_recoveries = 0;
  failed_recoveries = 0;
  total_execution_time = pos 0;
  max_execution_time = pos 0;
  errors_by_type = [];
  blocks = 0;
  degradation_enabled = false;
}

-- What recoverDockerConnection meets: a client that answers two pings, or none, and between them two
-- seconds that pass or a context that is done.
pub record Daemon : Type 0 where
  pub has_client : Bool
  pub first_ping : Option Error
  pub interrupted : Option Error
  pub second_ping : Option Error

unfoldable pub recover_docker_connection : Daemon → Option Error
recover_docker_connection d =
    let lost : Option Error = some (plain (codes "docker connection recovery failed")) in
    let later : Option Error = elim d.interrupted [
      | some e ↦ some e
      | none ↦ if d.has_client then d.second_ping else lost
    ] in
    if d.has_client then (elim d.first_ping [ none ↦ none | some e ↦ later ]) else later

module _ (fl : Float64) where
  -- The surroundings of one call: the readings of the clock by the breaker, the time that the
  -- operation and its retries take, what the policy meets, and the daemon.
  pub record Call : Type 0 where
    pub start : ℕ
    pub start_later : ℕ
    pub stop : ℕ
    pub stop_later : ℕ
    pub duration : ℤ
    pub environment : Environment fl
    pub daemon : Daemon

module _ (fl : Float64) (k : Cleaner) where
  pub record ErrorRecovery : Type 0 where
    pub config : RecoveryConfig
    pub breaker : Breaker fl
    pub policy : RetryPolicy fl
    pub manager : k.Manager
    pub metrics : RecoveryMetrics

  abbrev pub given : Option RecoveryConfig → RecoveryConfig
  given none = default_recovery_config
  given (some c) = c

  -- `manager` is what NewResourceCleanupManager returns, and `now` the clock of the new breaker. What
  -- the two configurations do not set is zero.
  unfoldable pub new_error_recovery : k.Manager → ℕ → Option RecoveryConfig → ErrorRecovery
  new_error_recovery manager now config =
      let c = given config in
      record {
        config = c;
        breaker =
            new_circuit_breaker fl
              (some (record {
                failure_threshold = c.failure_threshold;
                failure_rate = fl.decimal 0 0;
                min_requests_threshold = pos 0;
                recovery_timeout = c.recovery_timeout;
                consecutive_successes = c.consecutive_successes;
                half_open_max_requests = pos 0;
                reset_timeout = pos 0;
                adaptive_thresholds = false;
                request_volume_threshold = pos 0;
              }))
              now;
        policy = new_retry_policy fl (
            some (record {
              max_retries = c.max_retries;
              max_delay = c.max_delay;
              base_delay = c.base_delay;
              backoff_strategy = c.backoff_strategy;
              backoff_multiplier = fl.decimal 0 0;
              jitter_factor = fl.decimal 0 0;
              retryable_errors = [];
              non_retryable_errors = [];
              max_retry_budget = pos 0;
              respect_context = false;
            }));
        manager = manager;
        metrics = no_recovery_metrics;
      }

  -- The step of a strategy that cleans up: an error of the manager ends the strategy.
  abbrev pub cleaned : RecoveryStrategy → ErrorRecovery → ErrorRecovery × Option Error
  cleaned s er =
      if s.cleanup_resources
      then (let (m, e) = k.perform_cleanup er.manager in (record er { manager = m }, e))
      else (er, none)

  abbrev pub degraded : RecoveryStrategy → ErrorRecovery → ErrorRecovery
  degraded s er =
      if s.graceful_degrade && er.config.enable_degradation
      then record er { metrics = record (er.metrics) { degradation_enabled = true } }
      else er

  -- The switch over the code; performNetworkRecovery does nothing and returns nil.
  unfoldable pub by_code : Daemon → ℤ → ErrorRecovery → ErrorRecovery × Option Error
  unfolding recover_docker_connection
  by_code daemon code er =
      if eqb_ℤ code code_docker_daemon_unreachable
      then (er, recover_docker_connection daemon)
      else if eqb_ℤ code code_resource_exhaustion
      then (let (m, e) = k.perform_aggressive_cleanup er.manager in (record er { manager = m }, e))
      else (er, none)

  unfoldable pub execute_recovery_strategy :
      Daemon → RecoveryStrategy → DiagnosticError → ErrorRecovery → ErrorRecovery × Option Error
  unfolding by_code
  execute_recovery_strategy daemon s d er =
      let (t, failed) = cleaned s er in
      elim failed [
        | some e ↦ (t, some (wrapped (codes "resource cleanup failed: ") e []))
        | none ↦ by_code daemon d.code (degraded s t)
      ]

  module _ (show_int : ℤ → Text) where
    abbrev pub strategy_for : Error → ErrorRecovery → RecoveryStrategy
    strategy_for e er =
        select_recovery_strategy (classify_error show_int e) er.config.max_retries
          er.config.enable_degradation

    abbrev pub counted_by_type : ErrorType → ErrorRecovery → ErrorRecovery
    counted_by_type t er = record er {
      metrics = record (er.metrics) { errors_by_type = increment t (er.metrics).errors_by_type };
    }

    -- HandleError of an error that is not nil. A cleanup after it may fail without effect on it.
    unfoldable pub handle_error : Daemon → Error → ErrorRecovery → ErrorRecovery × Option Error
    unfolding execute_recovery_strategy
    handle_error daemon e er =
        let d = classify_error show_int e in
        let (t, failed) =
          execute_recovery_strategy daemon (strategy_for e er) d (counted_by_type d.type er) in
        elim failed [
          | some f ↦ (
            record t {
              metrics = record (t.metrics) {
                failed_recoveries = (t.metrics).failed_recoveries + 1;
              };
            },
            some (wrapped (codes "recovery strategy failed: ") f []),
          )
          | none ↦ (
            if t.config.auto_cleanup
                then record t { manager = (k.cleanup_after_error d t.manager).0 }
                else t,
            none,
          )
        ]

    abbrev pub one_more_operation : ErrorRecovery → ErrorRecovery
    one_more_operation er = record er {
      metrics = record (er.metrics) { total_operations = (er.metrics).total_operations + 1 };
    }

    abbrev pub timed : ℤ → ErrorRecovery → ErrorRecovery
    timed duration er = record er {
      metrics = record (er.metrics) {
        total_execution_time = (er.metrics).total_execution_time +ℤ duration;
        max_execution_time = max_ℤ fl duration (er.metrics).max_execution_time;
      };
    }

    -- What is returned for an error whose recovery has failed with another.
    unfoldable pub unrecovered : Error → Error → Error
    unrecovered (diagnostic d) f =
        diagnostic (record d { recovery_attempted = true; recovery_error = error_text show_int f })
    unrecovered (diagnosed d o) f =
        diagnosed (record d { recovery_attempted = true; recovery_error = error_text show_int f }) o
    unrecovered e f =
        wrapped (codes "operation failed and recovery unsuccessful: ") e
          (codes " (recovery: " ++ error_text show_int f ++ codes ")")

    abbrev pub failure_recorded : Call fl → ErrorRecovery → ErrorRecovery
    failure_recorded c er = record er {
      breaker = record_failure fl er.breaker c.stop c.stop_later;
      metrics = record (er.metrics) { total_failures = (er.metrics).total_failures + 1 };
    }

    -- The branch of ExecuteWithRecovery for an operation that has failed.
    unfoldable pub after_failure : Call fl → Error → ErrorRecovery → ErrorRecovery × Error
    unfolding handle_error unrecovered
    after_failure c e er =
        let (t, failed) = handle_error c.daemon e (failure_recorded c er) in
        elim failed [
          | some f ↦ (t, unrecovered e f)
          | none ↦ (
            record t {
              metrics = record (t.metrics) {
                successful_recoveries = (t.metrics).successful_recoveries + 1;
              };
            },
            e,
          )
        ]

    -- The branch for an operation that has succeeded.
    abbrev pub after_success : Call fl → ErrorRecovery → ErrorRecovery
    after_success c er = record er {
      breaker = record_success fl er.breaker c.stop_later;
      metrics = record (er.metrics) { total_successes = (er.metrics).total_successes + 1 };
    }

    module _ {ℓ} {A : Type ℓ} (show_duration : ℤ → Text) where
      -- The end of an operation that the breaker has admitted.
      unfoldable pub finish : Call fl → ErrorRecovery → Result A → ErrorRecovery × Result A
      unfolding after_failure
      finish c er (ok a) = (after_success c er, ok a)
      finish c er (err e) = let (t, f) = after_failure c e er in (t, err f)

      unfoldable pub execute_with_recovery :
          Call fl → (ℕ → A × Option Error) → ErrorRecovery → ErrorRecovery × Result A
      unfolding finish
      execute_with_recovery c operation er =
          let (b, admitted) = can_execute fl er.breaker c.start c.start_later in
          let t = one_more_operation (record er { breaker = b }) in
          if admitted
          then (let (p, r) = execute fl show_int show_duration er.policy c.environment operation in
              finish c (timed c.duration (record t { policy = p })) r)
          else (
            record t { metrics = record (t.metrics) { blocks = (t.metrics).blocks + 1 } },
            err (diagnostic circuit_open_error),
          )

  -- The two halves of Shutdown, with the errors of each.
  unfoldable pub shutdown : ErrorRecovery → ErrorRecovery × List Error
  shutdown er =
      let (m, e) = k.shutdown_manager er.manager in
      let (n, f) = if er.config.auto_cleanup then k.perform_final_cleanup m else (m, none) in
      let part : Text → Option Error → List Error =
        λ text o. elim o [ none ↦ [] | some x ↦ wrapped text x [] ∷ [] ] in
      (
        record er { manager = n },
        part (codes "cleanup manager shutdown failed: ") e
            ++ part (codes "final cleanup failed: ") f,
      )

  unfoldable pub is_healthy : ErrorRecovery → Bool
  is_healthy er =
      if state_eq (er.breaker).state opened
      then false
      else not (
          ltb 10 (er.metrics).total_operations
          && fl.lt (fl.decimal 5 1) (
              fl.div (fl.of_int (pos (er.metrics).total_failures))
                (fl.of_int (pos (er.metrics).total_operations))))
