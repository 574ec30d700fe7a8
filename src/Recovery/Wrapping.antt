-- ===== src/Recovery/Wrapping.antt =====
-- The errors that ExecuteWithRecovery (internal/diagnostics/error_recovery.go) meets and returns, and the
-- strategies that it takes for them.
use docker_net_doctor.Prelude.{
  ℕ, ◌≡◌, refl, inl, inr, Bool, true, false, not, Option, All, List, [], ◌∷◌, arith, Bool-cases,
  Option-cases,
}
use docker_net_doctor.Prelude.Int.{ℤ}
use docker_net_doctor.Prelude.Text.{Text}
use docker_net_doctor.Prelude.Float.{Float64}
use docker_net_doctor.Errors.{
  Error, diagnostic, diagnosed, canceled, deadline_exceeded, plain, wrapped, is_context_error,
  error_text,
}
use docker_net_doctor.Backoff.{RetryPolicyConfig, with_defaults}
use docker_net_doctor.Backoff.Execute.{
  Result, ok, err, RetryMetrics, Environment, execute, execute_run, new_retry_policy,
}
use docker_net_doctor.Backoff.Runs.{
  Ends, used_up, over, ended_by_context, succeeds, is_fatal, at_once, not_retryable, after_retries,
  execute_run-Executes,
}
use docker_net_doctor.Breaker.Operations.{can_execute}
use docker_net_doctor.Recovery.{
  classify_error, classify_text, select_recovery_strategy, is_docker_connection_error,
  is_resource_exhaustion_error, is_network_error,
}
use docker_net_doctor.Recovery.Operations.{
  Cleaner, RecoveryConfig, ErrorRecovery, Call, Daemon, new_error_recovery, one_more_operation,
  timed, execute_with_recovery, finish, after_failure, handle_error, failure_recorded, strategy_for,
  unrecovered, execute_recovery_strategy, by_code, shutdown,
}
use docker_net_doctor.Recovery.Accounts.{Work}
use docker_net_doctor.Recovery.Calls
use docker_net_doctor.Recovery.Calls.{executes, handles, shuts_down, call, run}

-- Whether a type assertion to *DiagnosticError succeeds.
abbrev pub is_diagnostic : Error → Bool
is_diagnostic (diagnostic d) = true
is_diagnostic (diagnosed d e) = true
is_diagnostic _ = false

abbrev pub diagnosed_result {ℓ} : {A : Type ℓ} → Result A → Bool
diagnosed_result (ok a) = false
diagnosed_result (err e) = is_diagnostic e

module _ {ℓ} {A : Type ℓ} (fl : Float64) (show_int show_duration : ℤ → Text)
    (c : RetryPolicyConfig fl) (env : Environment fl) (operation : ℕ → A × Option Error)
    (ignores_context : c.respect_context ≡ false) where
  Ends-undiagnosed :
      {a left n : ℕ} {last : Error} {r : Result A}
      → Ends fl show_int show_duration c env operation a left last r n
      → diagnosed_result r ≡ false
  Ends-undiagnosed (used_up e) = refl
  Ends-undiagnosed (over p o) = refl
  Ends-undiagnosed (ended_by_context p o i) = absurd (ground arith)
  Ends-undiagnosed (succeeds p t f) = refl
  Ends-undiagnosed (is_fatal p t f r) = refl

  run_undiagnosed :
      (m : RetryMetrics fl)
      → diagnosed_result (execute_run fl show_int show_duration c env operation m).result ≡ false
  run_undiagnosed m = elim (execute_run-Executes fl show_int show_duration c env operation m) [
    | at_once f r n k ↦ rw (r) refl
    | not_retryable f n r k m ↦ rw (r) refl
    | after_retries f n loop ↦ Ends-undiagnosed loop.ending
  ]

module _ (fl : Float64) (k : Cleaner) (show_int : ℤ → Text) where
  text_advises :
      (e : Error) (n : ℤ) (b : Bool)
      → let s = select_recovery_strategy (classify_text show_int e) n b in
        (s.cleanup_resources ≡ false) × (s.graceful_degrade ≡ false)
  unfolding classify_text select_recovery_strategy
  text_advises e n b =
      let m = error_text show_int e in
      elim (Bool-cases (is_docker_connection_error m)) [
        | inl y ↦ rw (classify_text, y) (refl, refl)
        | inr y ↦ elim (Bool-cases (is_context_error e)) [
          | inl x ↦ rw (classify_text, y, x) (refl, refl)
          | inr x ↦ elim (Bool-cases (is_resource_exhaustion_error m)) [
            | inl w ↦ rw (classify_text, y, x, w) (refl, refl)
            | inr w ↦ elim (Bool-cases (is_network_error m)) [
              | inl v ↦ rw (classify_text, y, x, w, v) (refl, refl)
              | inr v ↦ rw (classify_text, y, x, w, v) (refl, refl)
            ]
          ]
        ]
      ]

  -- For any error but a *DiagnosticError the strategy only advises.
  pub advises :
      (e : Error) (er : ErrorRecovery fl k)
      → is_diagnostic e ≡ false
      → let s = strategy_for fl k show_int e er in
        (s.cleanup_resources ≡ false) × (s.graceful_degrade ≡ false)
  unfolding classify_error
  advises canceled er h = text_advises canceled _ _
  advises deadline_exceeded er h = text_advises deadline_exceeded _ _
  advises (plain m) er h = text_advises (plain m) _ _
  advises (diagnostic d) er h = cc
  advises (diagnosed d e) er h = cc
  advises (wrapped b e a) er h = text_advises (wrapped b e a) _ _

  -- What no call changes: a policy that ignores the context, and the degradation.
  abbrev IsPlain : ErrorRecovery fl k → Type 0
  IsPlain er = (er.policy.config.respect_context ≡ false) × (er.metrics.degradation_enabled ≡ false)

  handle_error-IsPlain :
      (daemon : Daemon) (e : Error) (er : ErrorRecovery fl k)
      → is_diagnostic e ≡ false
      → IsPlain er
      → IsPlain (handle_error fl k show_int daemon e er).0
  unfolding handle_error execute_recovery_strategy by_code
  handle_error-IsPlain daemon e er h p = let a = advises e er h in ground arith

  unrecovered_undiagnosed :
      (e f : Error)
      → is_diagnostic e ≡ false
      → is_diagnostic (unrecovered fl k show_int e f) ≡ false
  unfolding unrecovered
  unrecovered_undiagnosed canceled f h = refl
  unrecovered_undiagnosed deadline_exceeded f h = refl
  unrecovered_undiagnosed (plain m) f h = refl
  unrecovered_undiagnosed (diagnostic d) f h = cc
  unrecovered_undiagnosed (diagnosed d e) f h = cc
  unrecovered_undiagnosed (wrapped b e a) f h = refl

  after_failure-IsPlain :
      (c : Call fl) (e : Error) (er : ErrorRecovery fl k)
      → is_diagnostic e ≡ false
      → IsPlain er
      → let (t, f) = after_failure fl k show_int c e er in IsPlain t × (is_diagnostic f ≡ false)
  unfolding after_failure
  after_failure-IsPlain c e er h p =
      let u = failure_recorded fl k show_int c er in
      let i = handle_error-IsPlain c.daemon e u h p in
      elim (Option-cases (handle_error fl k show_int c.daemon e u).1) [
        | inl n ↦ rw (after_failure, n) (i, h)
        | inr (f, s) ↦ rw (after_failure, s) (i, unrecovered_undiagnosed e f h)
      ]

  module _ {ℓ} {A : Type ℓ} (show_duration : ℤ → Text) where
    finish-IsPlain :
        (c : Call fl) (er : ErrorRecovery fl k) (r : Result A)
        → diagnosed_result r ≡ false
        → IsPlain er
        → let (t, result) = finish fl k show_int show_duration c er r in
          IsPlain t × (diagnosed_result result ≡ false)
    unfolding finish
    finish-IsPlain c er (ok a) h p = (p, refl)
    finish-IsPlain c er (err e) h p = after_failure-IsPlain c e er h p

    execute_with_recovery-IsPlain :
        (w : Work fl A) (er : ErrorRecovery fl k)
        → IsPlain er
        → let (t, result) = execute_with_recovery fl k show_int show_duration w.0 w.1 er in
          IsPlain t
          × (diagnosed_result result ≡ not (can_execute fl er.breaker w.0.start w.0.start_later).1)
    unfolding execute_with_recovery execute
    execute_with_recovery-IsPlain (c, operation) er h =
        let (p, r) = execute fl show_int show_duration er.policy c.environment operation in
        let b = (can_execute fl er.breaker c.start c.start_later).0 in
        let u =
          timed fl k show_int c.duration
            (record (one_more_operation fl k show_int (record er { breaker = b })) {
              policy = p;
            }) in
        let never =
          run_undiagnosed fl show_int show_duration er.policy.config c.environment operation h.0
            er.policy.metrics in
        let ends = finish-IsPlain c u r never h in
        elim (Bool-cases (can_execute fl er.breaker c.start c.start_later).1) [
          | inl y ↦ rw (execute_with_recovery, y) ends
          | inr n ↦ rw (execute_with_recovery, n) (h, refl)
        ]

    -- A call of HandleError is for an error that is no *DiagnosticError.
    abbrev pub HandlesPlainly : Calls.Call fl A → Type 0
    HandlesPlainly (handles daemon e) = is_diagnostic e ≡ false
    HandlesPlainly _ = Unit

    call-IsPlain :
        (a : Calls.Call fl A) (er : ErrorRecovery fl k)
        → HandlesPlainly a
        → IsPlain er
        → IsPlain (call fl k show_int show_duration a er)
    unfolding call shutdown
    call-IsPlain (executes w) er n h = (execute_with_recovery-IsPlain w er h).0
    call-IsPlain (handles daemon e) er n h = handle_error-IsPlain daemon e er n h
    call-IsPlain shuts_down er n h = h

    run-IsPlain :
        (cs : List (Calls.Call fl A)) (er : ErrorRecovery fl k)
        → All HandlesPlainly cs
        → IsPlain er
        → IsPlain (run fl k show_int show_duration cs er)
    unfolding run
    run-IsPlain [] er n h = h
    run-IsPlain (a ∷ cs) er n h =
        run-IsPlain cs (call fl k show_int show_duration a er) n.1 (call-IsPlain a er n.0 h)

    -- After any calls on a new ErrorRecovery, of which those of HandleError are for errors that are no
    -- *DiagnosticError, it has not degraded, and the next ExecuteWithRecovery returns a *DiagnosticError
    -- exactly if the breaker has blocked it: so what is recorded of a failed recovery in such an error is
    -- never recorded.
    pub never_degrades :
        (manager : k.Manager) (now : ℕ) (config : Option RecoveryConfig)
        (cs : List (Calls.Call fl A)) (c : Call fl) (operation : ℕ → A × Option Error)
        → All HandlesPlainly cs
        → let er =
            run fl k show_int show_duration cs (new_error_recovery fl k manager now config) in
          (er.metrics.degradation_enabled ≡ false)
          × (diagnosed_result (execute_with_recovery fl k show_int show_duration c operation er).1
              ≡ not (can_execute fl er.breaker c.start c.start_later).1)
    unfolding new_error_recovery new_retry_policy with_defaults
    never_degrades manager now config cs c operation plainly =
        let h = run-IsPlain cs (new_error_recovery fl k manager now config) plainly (refl, refl) in
        (h.1, (execute_with_recovery-IsPlain (c, operation) _ h).1)
