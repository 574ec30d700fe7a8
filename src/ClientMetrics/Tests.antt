-- ===== src/ClientMetrics/Tests.antt =====
-- The theorems on internal/docker/client_metrics.go at a few durations and calls.
use docker_net_doctor.Prelude.{◌≡◌, refl, none, some, List, [], ◌∷◌, ◌++◌, arith}
use docker_net_doctor.Prelude.Int.{ℤ, pos}
use docker_net_doctor.Prelude.Latest.{push_latest}
use docker_net_doctor.Prelude.Text.{codes}
use docker_net_doctor.ClientMetrics.{
  new_duration_tracker, add_duration, record_duration_in, update_percentiles, sort,
  new_client_metrics,
}
use docker_net_doctor.ClientMetrics.Trackers.{
  Statistics, record_durations, record_durations-Statistics,
}
use docker_net_doctor.ClientMetrics.Accounts.{
  Call, api_call, retry, connections, IsCounted, run, run-IsCounted,
}

abbrev durations : List ℤ
durations = pos 30 ∷ pos 10 ∷ pos 20 ∷ []

sorted : sort durations ≡ pos 10 ∷ pos 20 ∷ pos 30 ∷ []
unfolding sort
sorted = refl

record_durations-Statistics_example :
    Statistics
      (durations ++ (pos 40 ∷ []))
      (record_duration_in (pos 40) (record_durations durations new_duration_tracker))
record_durations-Statistics_example =
    record_durations-Statistics durations (pos 40) (omega arith) (omega arith)

-- A duration of zero is forgotten by the minimum when another one follows.
forgotten_zero : (record_durations (pos 0 ∷ pos 7 ∷ []) new_duration_tracker).min_duration ≡ pos 7
unfolding record_durations record_duration_in add_duration update_percentiles push_latest
forgotten_zero = refl

abbrev calls : List Call
calls =
    api_call (codes "ping") (pos 5) none 3
    ∷ api_call (codes "network_inspect_all") (pos 6) (some (codes "EOF")) 4
    ∷ retry
    ∷ connections (pos 2)
    ∷ []

run-IsCounted_example : IsCounted (run calls (new_client_metrics 1))
run-IsCounted_example = run-IsCounted 1 calls
