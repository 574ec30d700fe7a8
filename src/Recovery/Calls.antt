-- ===== src/Recovery/Calls.antt =====
-- Sequences of calls of all the methods of an ErrorRecovery (internal/diagnostics/error_recovery.go) that
-- change it.
use docker_net_doctor.Prelude.{ℕ, ◌+◌, refl, Option, List, [], ◌∷◌, arith}
use docker_net_doctor.Prelude.Int.{ℤ}
use docker_net_doctor.Prelude.Text.{Text}
use docker_net_doctor.Prelude.Float.{Float64}
use docker_net_doctor.Errors.{Error}
use docker_net_doctor.Recovery.Operations.{
  Cleaner, RecoveryConfig, ErrorRecovery, Daemon, new_error_recovery, execute_with_recovery,
  handle_error, shutdown,
}
use docker_net_doctor.Recovery.Outcomes.{one_if_some, handle_error-Keeps}
use docker_net_doctor.Recovery.Accounts.{Work, IsBalanced, execute_with_recovery-IsBalanced}

pub data Call {ℓ} (fl : Float64) (A : Type ℓ) : Type ℓ where
  executes : Work fl A → Call fl A
  handles : Daemon → Error → Call fl A
  shuts_down : Call fl A

module _ {ℓ} {A : Type ℓ} (fl : Float64) (k : Cleaner) (show_int show_duration : ℤ → Text) where
  unfoldable pub call : Call fl A → ErrorRecovery fl k → ErrorRecovery fl k
  call (executes w) er = (execute_with_recovery fl k show_int show_duration w.0 w.1 er).0
  call (handles daemon e) er = (handle_error fl k show_int daemon e er).0
  call shuts_down er = (shutdown fl k er).0

  unfoldable pub run : List (Call fl A) → ErrorRecovery fl k → ErrorRecovery fl k
  unfolding call
  run [] er = er
  run (c ∷ cs) er = run cs (call c er)

  -- An invariant of every call holds after all calls.
  pub run-keeps :
      (P : ErrorRecovery fl k → Type 0)
      → ((c : Call fl A) (er : ErrorRecovery fl k) → P er → P (call c er))
      → (cs : List (Call fl A)) (er : ErrorRecovery fl k) → P er
      → P (run cs er)
  unfolding run
  run-keeps P keeps [] er h = h
  run-keeps P keeps (c ∷ cs) er h = run-keeps P keeps cs (call c er) (keeps c er h)

  -- Whether a call is one of HandleError that returns an error.
  abbrev pub unhandled : Call fl A → ErrorRecovery fl k → ℕ
  unhandled (handles daemon e) er = one_if_some (handle_error fl k show_int daemon e er).1
  unhandled _ er = 0

  unfoldable pub all_unhandled : List (Call fl A) → ErrorRecovery fl k → ℕ
  unfolding call
  all_unhandled [] er = 0
  all_unhandled (c ∷ cs) er = unhandled c er + all_unhandled cs (call c er)

  call-IsBalanced :
      (n : ℕ) (c : Call fl A) (er : ErrorRecovery fl k)
      → IsBalanced fl k n er
      → IsBalanced fl k (n + unhandled c er) (call c er)
  unfolding call shutdown
  call-IsBalanced n (executes w) er h =
      let t = execute_with_recovery-IsBalanced fl k show_int show_duration n w er h in ground arith
  call-IsBalanced n (handles daemon e) er h =
      let t = handle_error-Keeps fl k show_int daemon e er in ground arith
  call-IsBalanced n shuts_down er h = ground (arith, h)

  run-IsBalanced :
      (n : ℕ) (cs : List (Call fl A)) (er : ErrorRecovery fl k)
      → IsBalanced fl k n er
      → IsBalanced fl k (n + all_unhandled cs er) (run cs er)
  unfolding run all_unhandled
  run-IsBalanced n [] er h = ground (arith, h)
  run-IsBalanced n (c ∷ cs) er h =
      let t = run-IsBalanced (n + unhandled c er) cs (call c er) (call-IsBalanced n c er h) in
      ground (arith, t)

  -- Over any calls of ExecuteWithRecovery, HandleError and Shutdown on a new ErrorRecovery, every operation
  -- is counted exactly once, as blocked, successful or failed; and the recoveries, successful or failed, are
  -- exactly as many as the operations that have failed and the direct calls of HandleError that have
  -- returned an error.
  pub calls_balance :
      (manager : k.Manager) (now : ℕ) (config : Option RecoveryConfig) (cs : List (Call fl A))
      → let new = new_error_recovery fl k manager now config in
        IsBalanced fl k (all_unhandled cs new) (run cs new)
  unfolding new_error_recovery
  calls_balance manager now config cs =
      let h = run-IsBalanced 0 cs (new_error_recovery fl k manager now config) (refl, refl) in
      ground (arith, h)
