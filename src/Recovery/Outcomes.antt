-- ===== src/Recovery/Outcomes.antt =====
-- What ExecuteWithRecovery of internal/diagnostics/error_recovery.go does to the circuit breaker, to the
-- counters and to the errors that it returns.
use docker_net_doctor.Prelude.{
  ℕ, ◌+◌, ◌≡◌, refl, inl, inr, Bool, true, false, ◌&&◌, Option, none, some, arith, Bool-cases,
  if◌then◌else◌,
}
use docker_net_doctor.Prelude.Int.{ℤ}
use docker_net_doctor.Prelude.Text.{Text}
use docker_net_doctor.Prelude.Float.{Float64}
use docker_net_doctor.Errors.{DiagnosticError, Error, RecoveryStrategy}
use docker_net_doctor.Backoff.Execute.{Result, ok, err, RetryPolicy, execute}
use docker_net_doctor.Breaker.{Breaker}
use docker_net_doctor.Breaker.Operations.{
  Attempt, guarded_attempt, can_execute, record_failure, record_success,
}
use docker_net_doctor.Recovery.{classify_error}
use docker_net_doctor.Recovery.Operations.{
  RecoveryConfig, Cleaner, ErrorRecovery, Daemon, Call, execute_recovery_strategy, handle_error,
  strategy_for, after_failure, finish, execute_with_recovery, counted_by_type, failure_recorded,
  timed, one_more_operation, by_code,
}

abbrev pub is_ok {ℓ} : {A : Type ℓ} → Result A → Bool
is_ok (ok a) = true
is_ok (err e) = false

abbrev pub one_if_some {ℓ} : {A : Type ℓ} → Option A → ℕ
one_if_some none = 0
one_if_some (some a) = 1

module _ (fl : Float64) (k : Cleaner) where
  -- The counters of the calls, in the order of their declaration, without the recoveries.
  abbrev pub Counters : Type 0
  Counters = ℕ × ℕ × ℕ × ℕ

  -- What the handling of an error leaves as it is.
  abbrev pub kept : ErrorRecovery fl k → RecoveryConfig × Breaker fl × RetryPolicy fl × Counters × ℕ
  kept er =
      let m = er.metrics in
      (
        er.config,
        er.breaker,
        er.policy,
        (m.total_operations, m.total_successes, m.total_failures, m.blocks),
        m.successful_recoveries,
      )

  abbrev Keeps : ErrorRecovery fl k → ErrorRecovery fl k → Type 0
  Keeps er t = (kept t ≡ kept er) × (t.metrics.failed_recoveries ≡ er.metrics.failed_recoveries)

  by_code-Keeps :
      (daemon : Daemon) (code : ℤ) (er : ErrorRecovery fl k)
      → Keeps er (by_code fl k daemon code er).0
  unfolding by_code
  by_code-Keeps daemon code er = ground arith

  strategy-Keeps :
      (daemon : Daemon) (s : RecoveryStrategy) (d : DiagnosticError) (er : ErrorRecovery fl k)
      → Keeps er (execute_recovery_strategy fl k daemon s d er).0
  unfolding execute_recovery_strategy
  strategy-Keeps daemon s d er = ground arith

  -- How a call ends that the breaker has admitted, by whether it succeeds.
  pub record EndsAs (good : Bool) (c : Call fl) (er t : ErrorRecovery fl k) : Type 0 where
    pub breaker_recorded : t.breaker ≡ (
        if good
        then record_success fl er.breaker c.stop_later
        else record_failure fl er.breaker c.stop c.stop_later)
    pub policy_kept : t.policy ≡ er.policy
    pub operations_kept : t.metrics.total_operations ≡ er.metrics.total_operations
    pub blocks_kept : t.metrics.blocks ≡ er.metrics.blocks
    pub successes_counted :
        t.metrics.total_successes ≡ er.metrics.total_successes + (if good then 1 else 0)
    pub failures_counted :
        t.metrics.total_failures ≡ er.metrics.total_failures + (if good then 0 else 1)
    pub recoveries_counted :
        t.metrics.successful_recoveries + t.metrics.failed_recoveries
        ≡ er.metrics.successful_recoveries + er.metrics.failed_recoveries + (if good then 0 else 1)

  module _ (show_int : ℤ → Text) where
    pub handle_error-Keeps :
        (daemon : Daemon) (e : Error) (er : ErrorRecovery fl k)
        → let (t, failed) = handle_error fl k show_int daemon e er in
          (kept t ≡ kept er)
          × (t.metrics.failed_recoveries ≡ er.metrics.failed_recoveries + one_if_some failed)
    unfolding handle_error
    handle_error-Keeps daemon e er =
        let d = classify_error show_int e in
        let u = counted_by_type fl k show_int d.type er in
        let h = strategy-Keeps daemon (strategy_for fl k show_int e er) d u in ground arith

    after_failure-EndsAs :
        (c : Call fl) (e : Error) (er : ErrorRecovery fl k)
        → EndsAs false c er (after_failure fl k show_int c e er).0
    unfolding after_failure
    after_failure-EndsAs c e er =
        let u = failure_recorded fl k show_int c er in
        let h = handle_error-Keeps c.daemon e u in ground arith

    module _ {ℓ} {A : Type ℓ} (show_duration : ℤ → Text) where
      -- Whether the operation, run under the retry policy, returns no error.
      abbrev pub retried_well : Call fl → (ℕ → A × Option Error) → ErrorRecovery fl k → Bool
      retried_well c operation er =
          is_ok (execute fl show_int show_duration er.policy c.environment operation).1

      abbrev pub attempt_of : Call fl → (ℕ → A × Option Error) → ErrorRecovery fl k → Attempt fl
      attempt_of c operation er = record {
        start = c.start;
        start_later = c.start_later;
        stop = c.stop;
        stop_later = c.stop_later;
        succeeds = retried_well c operation er;
      }

      pub finish-Ends :
          (c : Call fl) (er : ErrorRecovery fl k) (r : Result A)
          → let (t, result) = finish fl k show_int show_duration c er r in
            EndsAs (is_ok r) c er t × (is_ok result ≡ is_ok r)
      unfolding finish
      finish-Ends c er (ok a) = (ground arith, refl)
      finish-Ends c er (err e) = (after_failure-EndsAs c e er, refl)

      -- ExecuteWithRecovery does to the breaker what a bare attempt does to it whose outcome is that of
      -- the operation under the retry policy, whatever retries, classification, recovery and cleanup do
      -- besides. It returns no error exactly if the breaker has admitted the operation and the retry
      -- policy has returned none.
      pub execute_with_recovery-guarded_attempt :
          (c : Call fl) (operation : ℕ → A × Option Error) (er : ErrorRecovery fl k)
          → let (t, result) = execute_with_recovery fl k show_int show_duration c operation er in
            let (b, admitted) = guarded_attempt fl er.breaker (attempt_of c operation er) in
            (t.breaker ≡ b) × (is_ok result ≡ (admitted && retried_well c operation er))
      unfolding execute_with_recovery guarded_attempt finish
      execute_with_recovery-guarded_attempt c operation er =
          let (p, r) = execute fl show_int show_duration er.policy c.environment operation in
          let b = (can_execute fl er.breaker c.start c.start_later).0 in
          let u =
            timed fl k show_int c.duration
              (record (one_more_operation fl k show_int (record er { breaker = b })) {
                policy = p;
              }) in
          let h = finish-Ends c u r in
          elim (Bool-cases (can_execute fl er.breaker c.start c.start_later).1) [
            | inl y ↦ rw (execute_with_recovery, y) (h.0.breaker_recorded, h.1)
            | inr n ↦ rw (execute_with_recovery, n) (refl, refl)
          ]
