-- ===== src/Recovery/Calm.antt =====
-- The error recovery (internal/diagnostics/error_recovery.go) over a cleanup manager whose cleanups find
-- nothing to do.
use docker_net_doctor.Prelude.{ℕ, ◌≡◌, refl, Bool, false, ◌&&◌, Option, none, elim-cases, if-cases}
use docker_net_doctor.Prelude.Int.{ℤ, eqb_ℤ}
use docker_net_doctor.Prelude.Text.{Text}
use docker_net_doctor.Prelude.Float.{Float64}
use docker_net_doctor.Errors.{RecoveryStrategy, DiagnosticError, Error}
use docker_net_doctor.Errors.Codes.{code_docker_daemon_unreachable, code_resource_exhaustion}
use docker_net_doctor.Breaker.Operations.{can_execute}
use docker_net_doctor.Backoff.Execute.{Result, ok, err, execute}
use docker_net_doctor.Recovery.{classify_error}
use docker_net_doctor.Recovery.Operations.{
  Cleaner, ErrorRecovery, Call, Daemon, cleaned, degraded, by_code, execute_recovery_strategy,
  strategy_for, counted_by_type, failure_recorded, handle_error, after_failure, finish,
  one_more_operation, timed, execute_with_recovery, shutdown,
}
use docker_net_doctor.Recovery.Calls
use docker_net_doctor.Recovery.Calls.{executes, handles, shuts_down, call}

-- A predicate that every cleanup keeps, and under which the two cleanups of a recovery succeed.
pub record IsCalm (k : Cleaner) (P : k.Manager → Type 0) : Type 0 where
  pub after_error : (d : DiagnosticError) (m : k.Manager) → P m → P (k.cleanup_after_error d m).0
  pub manual : (m : k.Manager) → P m → P (k.perform_cleanup m).0 × ((k.perform_cleanup m).1 ≡ none)
  pub aggressive :
      (m : k.Manager)
      → P m
      → P (k.perform_aggressive_cleanup m).0 × ((k.perform_aggressive_cleanup m).1 ≡ none)
  pub final : (m : k.Manager) → P m → P (k.perform_final_cleanup m).0
  pub shut : (m : k.Manager) → P m → P (k.shutdown_manager m).0

abbrev pub is_unreachable : ℤ → Bool
is_unreachable code = eqb_ℤ code code_docker_daemon_unreachable

module _ (fl : Float64) (k : Cleaner) (P : k.Manager → Type 0) (calm : IsCalm k P) where
  -- An outcome that keeps the predicate, without an error unless `b`.
  abbrev pub Recovers : Bool → ErrorRecovery fl k × Option Error → Type 0
  Recovers b (t, e) = P t.manager × (b ≡ false → e ≡ none)

  by_code-Recovers :
      (daemon : Daemon) (code : ℤ) (er : ErrorRecovery fl k)
      → P er.manager
      → Recovers (is_unreachable code) (by_code fl k daemon code er)
  unfolding by_code
  by_code-Recovers daemon code er h =
      if-cases (Recovers (is_unreachable code)) (is_unreachable code) (λ y. (h, λ n. cc))
        (λ n.
          if-cases (Recovers (is_unreachable code)) (eqb_ℤ code code_resource_exhaustion)
            (λ y. let (a, b) = calm.aggressive er.manager h in (a, λ z. b)) (λ z. (h, λ w. refl)))

  strategy-Recovers :
      (daemon : Daemon) (s : RecoveryStrategy) (d : DiagnosticError) (er : ErrorRecovery fl k)
      → P er.manager
      → Recovers (is_unreachable d.code) (execute_recovery_strategy fl k daemon s d er)
  unfolding execute_recovery_strategy
  strategy-Recovers daemon s d er h =
      let t = (cleaned fl k s er).0 in
      let (kept, quiet) : P t.manager × ((cleaned fl k s er).1 ≡ none) =
        if-cases (λ (x : ErrorRecovery fl k × Option Error). P x.0.manager × (x.1 ≡ none))
          s.cleanup_resources (λ y. calm.manual er.manager h) (λ n. (h, refl)) in
      let still : P (degraded fl k s t).manager =
        if-cases (λ (x : ErrorRecovery fl k). P x.manager)
          (s.graceful_degrade && t.config.enable_degradation) (λ y. kept) (λ n. kept) in
      rw (execute_recovery_strategy, quiet)
        (by_code-Recovers daemon d.code (degraded fl k s t) still)

  module _ (show_int : ℤ → Text) where
    pub handle_error-Recovers :
        (daemon : Daemon) (e : Error) (er : ErrorRecovery fl k)
        → P er.manager
        → Recovers
            (is_unreachable (classify_error show_int e).code)
            (handle_error fl k show_int daemon e er)
    unfolding handle_error
    handle_error-Recovers daemon e er h =
        let d = classify_error show_int e in
        let u = counted_by_type fl k show_int d.type er in
        let o = execute_recovery_strategy fl k daemon (strategy_for fl k show_int e er) d u in
        let (a, b) = strategy-Recovers daemon (strategy_for fl k show_int e er) d u h in
        elim-cases {B = ErrorRecovery fl k × Option Error} (Recovers (is_unreachable d.code)) o.1
          (λ n. (
            if-cases (λ (x : ErrorRecovery fl k). P x.manager) o.0.config.auto_cleanup
                (λ y. calm.after_error d o.0.manager a) (λ z. a),
            λ z. refl,
          ))
          (λ f s. (a, λ z. absurd (cc (b z, s))))

    after_failure-calm :
        (c : Call fl) (e : Error) (er : ErrorRecovery fl k)
        → P er.manager
        → P (after_failure fl k show_int c e er).0.manager
    unfolding after_failure
    after_failure-calm c e er h =
        let o = handle_error fl k show_int c.daemon e (failure_recorded fl k show_int c er) in
        let (a, b) = handle_error-Recovers c.daemon e (failure_recorded fl k show_int c er) h in
        elim-cases {B = ErrorRecovery fl k × Error} (λ t. P t.0.manager) o.1 (λ n. a) (λ f s. a)

    module _ {ℓ} {A : Type ℓ} (show_duration : ℤ → Text) where
      finish-calm :
          (c : Call fl) (er : ErrorRecovery fl k) (r : Result A)
          → P er.manager
          → P (finish fl k show_int show_duration c er r).0.manager
      unfolding finish
      finish-calm c er (ok a) h = h
      finish-calm c er (err e) h = after_failure-calm c e er h

      execute-calm :
          (c : Call fl) (operation : ℕ → A × Option Error) (er : ErrorRecovery fl k)
          → P er.manager
          → P (execute_with_recovery fl k show_int show_duration c operation er).0.manager
      unfolding execute_with_recovery
      execute-calm c operation er h =
          let (p, r) = execute fl show_int show_duration er.policy c.environment operation in
          let b = (can_execute fl er.breaker c.start c.start_later).0 in
          let u =
            timed fl k show_int c.duration
              (record (one_more_operation fl k show_int (record er { breaker = b })) {
                policy = p;
              }) in
          if-cases (λ (t : ErrorRecovery fl k × Result A). P t.0.manager)
            (can_execute fl er.breaker c.start c.start_later).1 (λ y. finish-calm c u r h) (λ n. h)

      pub call-calm :
          (a : Calls.Call fl A) (er : ErrorRecovery fl k)
          → P er.manager
          → P (call fl k show_int show_duration a er).manager
      unfolding call shutdown
      call-calm (executes w) er h = execute-calm w.0 w.1 er h
      call-calm (handles daemon e) er h = (handle_error-Recovers daemon e er h).0
      call-calm shuts_down er h =
          let m = (k.shutdown_manager er.manager).0 in
          let s = calm.shut er.manager h in
          if-cases (λ (x : k.Manager × Option Error). P x.0) er.config.auto_cleanup
            (λ y. calm.final m s) (λ n. s)
