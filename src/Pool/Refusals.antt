-- ===== src/Pool/Refusals.antt =====
-- The pool of internal/diagnostics/worker_pool.go once its error-rate circuit is open and no job is left.
use docker_net_doctor.Prelude.{ℕ, ◌≡◌, Bool, true, Option, [], if◌then◌else◌}
use docker_net_doctor.Prelude.Text.{Text}
use docker_net_doctor.Prelude.Float.{Float64}
use docker_net_doctor.Monitor.{is_open}
use docker_net_doctor.Pool.{Pool, SubmitError, not_running, circuit_open, accepts}

module _ (fl : Float64) (to_lower : Text → Text) (clock : ℕ → ℕ)
    (wait : Bool → ℕ → Option Text) where
  -- An open circuit, and no job anywhere, with so many jobs completed and failed.
  abbrev pub IsShut : ℕ → ℕ → Pool fl → Type 0
  IsShut completed failed p =
      (is_open fl p.error_rate ≡ true)
      × (p.jobs ≡ [])
      × (p.waiting ≡ [])
      × (p.running ≡ [])
      × (p.completed_jobs ≡ completed)
      × (p.failed_jobs ≡ failed)

  -- What Submit answers then.
  abbrev pub refusal : Pool fl → SubmitError
  refusal p = if accepts fl p then circuit_open else not_running
