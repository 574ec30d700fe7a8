-- ===== src/Recovery/Accounts.antt =====
-- Sequences of calls of ExecuteWithRecovery (internal/diagnostics/error_recovery.go) by one caller: the
-- counters, the circuit breaker behind them and the degradation.
use docker_net_doctor.Prelude.{
  ℕ, ◌+◌, ◌≡◌, refl, ◌≢◌, inl, inr, Option, List, [], ◌∷◌, arith, Bool-cases, ap, ◌∙◌,
}
use docker_net_doctor.Prelude.Int.{ℤ, pos, ◌<ℤ◌}
use docker_net_doctor.Prelude.Text.{Text}
use docker_net_doctor.Prelude.Float.{Float64}
use docker_net_doctor.Errors.{Error}
use docker_net_doctor.Backoff.Execute.{execute}
use docker_net_doctor.Breaker.{opened, closed, Breaker, new_circuit_breaker}
use docker_net_doctor.Breaker.Operations.{
  Attempt, can_execute, record_success, record_failure, guarded_attempt, run_attempts,
}
use docker_net_doctor.Breaker.Recovery.{open_never_closes}
use docker_net_doctor.Recovery.Operations.{
  Cleaner, RecoveryConfig, ErrorRecovery, Call, given, new_error_recovery, one_more_operation,
  timed, execute_with_recovery,
}
use docker_net_doctor.Recovery.Outcomes.{
  finish-Ends, attempt_of, execute_with_recovery-guarded_attempt,
}

-- A call of ExecuteWithRecovery: its surroundings and its operation.
abbrev pub Work {ℓ} : Float64 → Type ℓ → Type ℓ
Work fl A = Call fl × (ℕ → A × Option Error)

module _ (fl : Float64) (k : Cleaner) where
  -- Every operation is counted once, as blocked, successful or failed. The recoveries, successful or
  -- failed, are one for each operation that has failed, and so many more failed ones as `direct` says.
  abbrev pub IsBalanced : ℕ → ErrorRecovery fl k → Type 0
  IsBalanced direct er =
      let m = er.metrics in
      (m.total_operations ≡ m.blocks + m.total_successes + m.total_failures)
      × (m.successful_recoveries + m.failed_recoveries ≡ m.total_failures + direct)

  attempts-config :
      (b : Breaker fl) (tries : List (Attempt fl)) → (run_attempts fl b tries).config ≡ b.config
  unfolding run_attempts guarded_attempt can_execute record_success record_failure
  attempts-config b [] = refl
  attempts-config b (a ∷ rest) = attempts-config (guarded_attempt fl b a).0 rest ∙ ground arith

  new_wants :
      (manager : k.Manager) (now : ℕ) (config : Option RecoveryConfig)
      → pos 2 <ℤ (given fl k config).consecutive_successes
      → let c = (new_error_recovery fl k manager now config).breaker.config in
        (c.half_open_max_requests ≡ pos 2) × (pos 2 <ℤ c.consecutive_successes)
  unfolding new_error_recovery new_circuit_breaker
  new_wants manager now config h = ground arith

  module _ {ℓ} {A : Type ℓ} (show_int show_duration : ℤ → Text) where
    unfoldable pub run_calls : ErrorRecovery fl k → List (Work fl A) → ErrorRecovery fl k
    run_calls er [] = er
    run_calls er ((c, operation) ∷ rest) =
        run_calls (execute_with_recovery fl k show_int show_duration c operation er).0 rest

    pub execute_with_recovery-IsBalanced :
        (n : ℕ) (w : Work fl A) (er : ErrorRecovery fl k)
        → IsBalanced n er
        → IsBalanced n (execute_with_recovery fl k show_int show_duration w.0 w.1 er).0
    unfolding execute_with_recovery
    execute_with_recovery-IsBalanced n (c, operation) er h =
        let (p, r) = execute fl show_int show_duration er.policy c.environment operation in
        let b = (can_execute fl er.breaker c.start c.start_later).0 in
        let u =
          timed fl k show_int c.duration
            (record (one_more_operation fl k show_int (record er { breaker = b })) {
              policy = p;
            }) in
        let ends = (finish-Ends fl k show_int show_duration c u r).0 in
        elim (Bool-cases (can_execute fl er.breaker c.start c.start_later).1) [
          | inl y ↦ rw (execute_with_recovery, y) (ground arith)
          | inr n ↦ rw (execute_with_recovery, n) (ground arith)
        ]

    -- The attempts on the breaker that a list of calls amounts to.
    attempts : ErrorRecovery fl k → List (Work fl A) → List (Attempt fl)
    attempts er [] = []
    attempts er ((c, operation) ∷ rest) =
        attempt_of fl k show_int show_duration c operation er
        ∷ attempts (execute_with_recovery fl k show_int show_duration c operation er).0 rest

    -- The breaker after any calls is the bare breaker after the attempts that they amount to.
    run_calls-run_attempts :
        (er : ErrorRecovery fl k) (calls : List (Work fl A))
        → (run_calls er calls).breaker ≡ run_attempts fl er.breaker (attempts er calls)
    unfolding run_calls run_attempts attempts
    run_calls-run_attempts er [] = refl
    run_calls-run_attempts er ((c, operation) ∷ rest) =
        run_calls-run_attempts (execute_with_recovery fl k show_int show_duration c operation er).0
          rest
        ∙ ap
            (λ b.
              run_attempts fl b (
                attempts (execute_with_recovery fl k show_int show_duration c operation er).0 rest))
            (execute_with_recovery-guarded_attempt fl k show_int show_duration c operation er).0

    -- A new ErrorRecovery whose settings, as its defaults do, want more than two successes in a row
    -- before the circuit closes: once the circuit has opened, no later calls by one caller ever close
    -- it, whatever the daemon, the operations and the retries do.
    pub never_closes_again :
        (manager : k.Manager) (now : ℕ) (config : Option RecoveryConfig)
        (before after : List (Work fl A))
        → pos 2 <ℤ (given fl k config).consecutive_successes
        → let er = run_calls (new_error_recovery fl k manager now config) before in
          er.breaker.state ≡ opened → (run_calls er after).breaker.state ≢ closed
    never_closes_again manager now config before after h o =
        let new = new_error_recovery fl k manager now config in
        let er = run_calls new before in
        let (probes, successes) = new_wants manager now config h in
        let same : er.breaker.config ≡ new.breaker.config =
          ap (λ b. b.config) (run_calls-run_attempts new before)
          ∙ attempts-config new.breaker (attempts new before) in
        rw (run_calls-run_attempts er after) (
          open_never_closes fl er.breaker (attempts er after) o (rw (same, probes) (omega arith))
            (rw (same, probes) successes))
