-- ===== src/Monitor.antt =====
-- The ErrorRateMonitor of internal/diagnostics/worker_pool.go, and the two places where the pool uses
-- it: Submit asks it, and a worker tells it how a job ended. Each method holds the lock and is one
-- step; `now` and `later` are its readings of the clock.
pub mod Windows
mod Tests
use docker_net_doctor.Prelude.{ℕ, ◌+◌, Bool, true, false, List, [], ◌∷◌, ltb, if◌then◌else◌}
use docker_net_doctor.Prelude.Int.{ℤ, pos, ltb_ℤ}
use docker_net_doctor.Prelude.Clock.{time_sub, seconds}
use docker_net_doctor.Prelude.Float.{Float64}

module _ (fl : Float64) where
  pub record ErrorRateMonitor : Type 0 where
    pub error_count : ℕ
    pub success_count : ℕ
    pub window : ℤ
    pub threshold : fl.Float
    pub last_reset : ℕ
    pub circuit_open : Bool

  -- The monitor of a new pool.
  unfoldable pub new_error_rate : ℕ → ErrorRateMonitor
  new_error_rate now = record {
    error_count = 0;
    success_count = 0;
    window = pos (seconds 60);
    threshold = fl.decimal 5 1;
    last_reset = now;
    circuit_open = false;
  }

  unfoldable pub check_window : ℕ → ℕ → ErrorRateMonitor → ErrorRateMonitor
  check_window now later e =
      if ltb_ℤ e.window (time_sub now e.last_reset)
      then record e { error_count = 0; success_count = 0; last_reset = later; circuit_open = false }
      else e

  abbrev pub error_rate : ErrorRateMonitor → fl.Float
  error_rate e =
      fl.div (fl.of_int (pos e.error_count)) (fl.of_int (pos (e.error_count + e.success_count)))

  unfoldable pub update_circuit_state : ErrorRateMonitor → ErrorRateMonitor
  update_circuit_state e =
      if ltb (e.error_count + e.success_count) 10
      then e
      else if fl.le e.threshold (error_rate e)
      then record e { circuit_open = true }
      else if fl.lt (error_rate e) (fl.mul e.threshold (fl.decimal 5 1))
      then record e { circuit_open = false }
      else e

  unfoldable pub record_error : ℕ → ℕ → ErrorRateMonitor → ErrorRateMonitor
  record_error now later e =
      let t = check_window now later e in
      update_circuit_state (record t { error_count = t.error_count + 1 })

  unfoldable pub record_success : ℕ → ℕ → ErrorRateMonitor → ErrorRateMonitor
  record_success now later e =
      let t = check_window now later e in
      update_circuit_state (record t { success_count = t.success_count + 1 })

  unfoldable pub is_open : ErrorRateMonitor → Bool
  is_open e = e.circuit_open

  -- The end of a job, as a worker records it.
  pub record Ended : Type 0 where
    pub now : ℕ
    pub later : ℕ
    pub failed : Bool

  unfoldable pub record_end : Ended → ErrorRateMonitor → ErrorRateMonitor
  record_end j e = if j.failed then record_error j.now j.later e else record_success j.now j.later e
