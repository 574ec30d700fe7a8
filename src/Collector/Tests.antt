-- ===== src/Collector/Tests.antt =====
-- The theorems on internal/diagnostics/metrics_collector.go at a collector that is stopped and restarted,
-- and at three samples.
use docker_net_doctor.Prelude.{
  ℕ, ◌≡◌, ◌-◌, refl, true, false, none, some, List, [], ◌∷◌, length, drop, min, map,
}
use docker_net_doctor.Prelude.Int.{pos}
use docker_net_doctor.Prelude.Fraction.{fractions}
use docker_net_doctor.Collector.{
  MetricsSample, MetricsCollector, Measured, collect_all, start, stop, new_metrics_collector,
  get_samples, find_max,
}
use docker_net_doctor.Collector.Lifecycle.{Turn, ticks, restart_fails}
use docker_net_doctor.Collector.Buffer.{store_all, granted, get_samples-store_all}

abbrev measured : Measured fractions
measured = record { now = 7; cpu_now = 7; allocated = pos 9; goroutines = 4; profile = none }

abbrev started : MetricsCollector fractions
started = start fractions (new_metrics_collector fractions (pos 5))

abbrev ended : MetricsCollector fractions
ended = record (new_metrics_collector fractions (pos 5)) { stop_closed = true }

started_running : started.running ≡ true
unfolding start new_metrics_collector
started_running = refl

started_stops : stop fractions [] started ≡ some ended
unfolding start stop collect_all new_metrics_collector
started_stops = refl

-- A tick that is taken, and one in whose place the closed channel is.
abbrev turns : List (Turn fractions)
turns = (false, measured) ∷ (true, measured) ∷ (false, measured) ∷ []

restart_fails_example :
    let u = ticks fractions turns (start fractions ended) in
    (u ≡ record (collect_all fractions (measured ∷ []) (start fractions ended)) {
      collecting = false;
    })
    × (u.running ≡ true)
    × (stop fractions [] u ≡ none)
restart_fails_example =
    restart_fails fractions started ended [] [] turns started_running started_stops

abbrev sample : ℕ → MetricsSample fractions
sample n = record {
  timestamp = n;
  cpu_percent = record { top = 0; bottom = 1 };
  memory_mb = record { top = n; bottom = 1 };
  goroutines = n;
  active_jobs = pos 0;
  completed_jobs = pos 0;
  error_rate = record { top = 0; bottom = 1 };
  avg_duration = pos n;
}

abbrev samples : List (MetricsSample fractions)
samples = sample 3 ∷ sample 8 ∷ sample 5 ∷ []

get_samples-store_all_example :
    get_samples fractions
      (pos 2)
      (store_all fractions samples (new_metrics_collector fractions (pos 5)))
    ≡ drop (length samples - granted fractions (pos 2) (min (length samples) 1000)) samples
get_samples-store_all_example = get_samples-store_all fractions (pos 5) samples (pos 2)

greatest :
    find_max fractions (map (λ (s : MetricsSample fractions). s.memory_mb) samples)
    ≡ record { top = 8; bottom = 1 }
unfolding find_max
greatest = refl
