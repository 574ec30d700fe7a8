-- ===== src/Recovery/Tests.antt =====
-- The theorems on internal/diagnostics/error_recovery.go at a manager that counts its cleanups, with
-- operations that fail or succeed.
use docker_net_doctor.Prelude.{
  ℕ, ◌+◌, ◌≡◌, ◌≢◌, refl, false, not, ◌&&◌, Option, none, some, List, [], ◌∷◌, arith, ap,
}
use docker_net_doctor.Prelude.Int.{ℤ, pos}
use docker_net_doctor.Prelude.Clock.{seconds, time_sub}
use docker_net_doctor.Prelude.Text.{Text, codes}
use docker_net_doctor.Prelude.Fraction.{fractions}
use docker_net_doctor.Errors.{Error, plain, diagnostic, circuit_breaker}
use docker_net_doctor.Backoff.{is_retryable, is_retryable_diagnostic_error, with_defaults}
use docker_net_doctor.Backoff.Execute.{execute, execute_run, new_retry_policy}
use docker_net_doctor.Recovery.{circuit_open_error}
use docker_net_doctor.Breaker.{opened, closed, new_circuit_breaker, should_open_circuit}
use docker_net_doctor.Breaker.Operations.{can_execute, record_failure, guarded_attempt}
use docker_net_doctor.Recovery.Operations.{
  Cleaner, RecoveryConfig, default_recovery_config, ErrorRecovery, Call, new_error_recovery,
  execute_with_recovery,
}
use docker_net_doctor.Recovery.Outcomes.{
  is_ok, retried_well, attempt_of, execute_with_recovery-guarded_attempt,
}
use docker_net_doctor.Recovery.Calls
use docker_net_doctor.Recovery.Calls.{
  executes, handles, shuts_down, run, all_unhandled, calls_balance,
}
use docker_net_doctor.Recovery.Accounts.{Work, IsBalanced, run_calls, never_closes_again}
use docker_net_doctor.Cleanup.Operations.{Surroundings}
use docker_net_doctor.Recovery.Wrapping.{diagnosed_result, never_degrades}

abbrev cleaner : Cleaner
cleaner = record {
  Manager = ℕ;
  cleanup_after_error = λ d m. (m + 1, none);
  perform_cleanup = λ m. (m + 1, none);
  perform_aggressive_cleanup = λ m. (m + 1, some (plain (codes "docker system prune failed")));
  perform_final_cleanup = λ m. (m + 1, none);
  shutdown_manager = λ m. (m, none);
}

abbrev no_text : ℤ → Text
no_text n = []

abbrev new : ErrorRecovery fractions cleaner
new = new_error_recovery fractions cleaner 0 100 none

-- A call at a second after the zero time, with a daemon that does not answer.
abbrev at_second : ℕ → Call fractions
at_second n = record {
  start = seconds n;
  start_later = seconds n + 1;
  stop = seconds n + 2;
  stop_later = seconds n + 3;
  duration = pos 50;
  environment = record {
    random = λ i. record { top = 1; bottom = 2 };
    elapsed = λ i. pos i;
    done = λ i. none;
    duration = λ i. pos 10;
    total = pos 30;
  };
  daemon = record { has_client = false; first_ping = none; interrupted = none; second_ping = none };
}

abbrev succeed : ℕ → ℕ × Option Error
succeed n = (7, none)

abbrev refuse : ℕ → ℕ × Option Error
refuse n = (0, some (diagnostic (record circuit_open_error { type = circuit_breaker })))

-- Settings under which one failure opens the circuit.
abbrev touchy : Option RecoveryConfig
touchy = some (record default_recovery_config { failure_threshold = pos 1 })

abbrev touchy_new : ErrorRecovery fractions cleaner
touchy_new = new_error_recovery fractions cleaner 0 100 touchy

abbrev outage : List (Work fractions ℕ)
outage = (at_second 1, refuse) ∷ []

abbrev recovered : List (Work fractions ℕ)
recovered = (at_second 60, succeed) ∷ (at_second 61, succeed) ∷ (at_second 62, succeed) ∷ []

outage_opens :
    (run_calls fractions cleaner no_text no_text touchy_new outage).breaker.state ≡ opened
unfolding run_calls guarded_attempt new_error_recovery new_circuit_breaker can_execute
    record_failure execute execute_run is_retryable is_retryable_diagnostic_error new_retry_policy
    with_defaults should_open_circuit time_sub
outage_opens =
    ap (λ b. b.state)
      (execute_with_recovery-guarded_attempt fractions cleaner no_text no_text (at_second 1) refuse
        touchy_new).0

execute_with_recovery-guarded_attempt_example :
    let (t, result) =
      execute_with_recovery fractions cleaner no_text no_text (at_second 1) refuse new in
    let (b, admitted) =
      guarded_attempt fractions new.breaker
        (attempt_of fractions cleaner no_text no_text (at_second 1) refuse new) in
    (t.breaker ≡ b)
    × (is_ok result
        ≡ (admitted && retried_well fractions cleaner no_text no_text (at_second 1) refuse new))
execute_with_recovery-guarded_attempt_example =
    execute_with_recovery-guarded_attempt fractions cleaner no_text no_text (at_second 1) refuse new

-- The outage, an error that is handled directly, and the end.
abbrev busy : List (Calls.Call fractions ℕ)
busy =
    executes (at_second 1, refuse)
    ∷ handles (at_second 0).daemon (plain (codes "no space left"))
    ∷ shuts_down
    ∷ []

calls_balance_example :
    IsBalanced fractions cleaner
      (all_unhandled fractions cleaner no_text no_text busy new)
      (run fractions cleaner no_text no_text busy new)
calls_balance_example = calls_balance fractions cleaner no_text no_text 0 100 none busy

never_closes_again_example :
    (run_calls fractions cleaner no_text no_text
      (run_calls fractions cleaner no_text no_text touchy_new outage)
      recovered).breaker.state
    ≢ closed
never_closes_again_example =
    never_closes_again fractions cleaner no_text no_text 0 100 touchy outage recovered (omega arith)
      outage_opens

never_degrades_example :
    let er = run fractions cleaner no_text no_text busy new in
    (er.metrics.degradation_enabled ≡ false)
    × (diagnosed_result
          (execute_with_recovery fractions cleaner no_text no_text (at_second 6) refuse er).1
        ≡ not (can_execute fractions er.breaker (at_second 6).start (at_second 6).start_later).1)
never_degrades_example =
    never_degrades fractions cleaner no_text no_text 0 100 none busy (at_second 6) refuse
      (tt, (refl, (tt, tt)))

abbrev quiet : ℕ → Surroundings
quiet i = record {
  started = 0;
  clocks = record { chosen = 0; looked = λ r. 0 };
  ended = 0;
  now = 0;
  done = λ n. none;
  results_order = λ n. [];
  errors_order = λ n. [];
}

abbrev disk_full : Error
disk_full = plain (codes "write /var/lib: no space left on device")
