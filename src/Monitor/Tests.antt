-- ===== src/Monitor/Tests.antt =====
-- Runs of the error-rate monitor of internal/diagnostics/worker_pool.go, over fractions.
use docker_net_doctor.Prelude.{ℕ, zero, suc, ◌+◌, ◌≡◌, refl, true, List, [], ◌∷◌}
use docker_net_doctor.Prelude.Int.{pos}
use docker_net_doctor.Prelude.Clock.{seconds, time_sub}
use docker_net_doctor.Prelude.Fraction.{fractions}
use docker_net_doctor.Monitor.{
  ErrorRateMonitor, Ended, new_error_rate, is_open, record_end, record_error, check_window,
  update_circuit_state,
}
use docker_net_doctor.Monitor.Windows.{record_ends}

abbrev failure : Ended fractions
failure = record { now = 5; later = 6; failed = true }

abbrev late : Ended fractions
late = record { now = 5 + seconds 61; later = 5 + seconds 62; failed = true }

abbrev failures : ℕ → List (Ended fractions)
failures zero = []
failures (suc n) = failure ∷ failures n

abbrev tripped : ErrorRateMonitor fractions
tripped = record {
  error_count = 10;
  success_count = 0;
  window = pos (seconds 60);
  threshold = record { top = 5; bottom = 10 };
  last_reset = 1;
  circuit_open = true;
}

-- The tenth failure opens a new monitor.
ten_trip :
    is_open fractions (record_ends fractions (failures 10) (new_error_rate fractions 1)) ≡ true
unfolding record_ends record_end record_error check_window update_circuit_state new_error_rate
    is_open time_sub
ten_trip = refl
