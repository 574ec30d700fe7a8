-- ===== src/Engine/Tests.antt =====
-- The theorems on internal/diagnostics/engine.go at an engine with the default checks, over a bucket that
-- refuses no wait.
use docker_net_doctor.Prelude.{
  ℕ, zero, suc, ◌+◌, ◌≤◌, ◌<◌, ◌≡◌, refl, true, false, none, some, List, [], ◌∷◌, ◌++◌, arith,
  length, keep,
}
use docker_net_doctor.Prelude.Int.{pos}
use docker_net_doctor.Prelude.Clock.{seconds}
use docker_net_doctor.Prelude.Text.{Text, codes, text_eq}
use docker_net_doctor.Prelude.Fraction.{Fraction, fractions}
use docker_net_doctor.Limiter.{Bucket, LimitError}
use docker_net_doctor.Security.{Check}
use docker_net_doctor.Engine.{
  CheckResult, Outcome, panicked, returned, default_checks, calculate_summary, calculate_metrics,
  bounded_workers, should_stop_on_failure,
}
use docker_net_doctor.Engine.Summaries.{
  passed, messages, has_failed, calculate_summary_lem, calculate_metrics_lem,
}
use docker_net_doctor.Engine.Runs.{
  Visit, Event, received, closed, Config, DiagnosticEngine, PoolFigures, new_engine, run, crashed,
  reported, unfinished, started,
}
use docker_net_doctor.Engine.Sequence.{Reported, run-Reported, run-crashed}
use docker_net_doctor.Engine.Collecting.{added, run-unfinished, run-own_limiter}

abbrev bucket : Bucket Fraction
bucket = record {
  Context = Unit {0};
  Limiter = ℕ;
  Error = Unit {0};
  new_limiter = λ rate burst. 0;
  wait_token = λ n ctx timeout. (n + 1, none);
  allow = λ n. (n + 1, true);
  Reservation = ℕ;
  reserve_token = λ n. (n, n);
}

abbrev no_text : LimitError (Unit {0}) → Text
no_text e = []

abbrev settings : Config fractions bucket no_text
settings = record {
  parallel = false;
  timeout = pos (seconds 30);
  worker_count = pos 4;
  rate_limit = record { top = 5; bottom = 1 };
}

abbrev engine : DiagnosticEngine fractions bucket no_text
engine = new_engine fractions bucket no_text (pos 8) (some settings)

abbrev parallel_engine : DiagnosticEngine fractions bucket no_text
parallel_engine = new_engine fractions bucket no_text (pos 8) none

abbrev fine : CheckResult
fine = record { check_name = codes "iptables"; success = true; message = codes "OK"; duration = 0 }

abbrev bad : CheckResult
bad = record fine { success = false; message = codes "no chain"; duration = 7 }

abbrev visited : Outcome → ℕ → Visit fractions bucket no_text
visited o i = record { ctx = tt; waited = 0; now = i; outcome = o; inner = 3; outer = 4 }

-- The second check panics.
abbrev one_panic : ℕ → Visit fractions bucket no_text
one_panic zero = visited (returned fine) 0
one_panic (suc zero) = visited panicked 1
one_panic (suc (suc n)) = visited (returned fine) (n + 2)

abbrev figures : PoolFigures fractions bucket no_text
figures = record {
  total_api_calls = 11;
  rate_limit_hits = 2;
  peak_memory_mb = record { top = 1; bottom = 1 };
}

workers_bounded : bounded_workers (pos 8) (pos 64) ≡ pos 10
unfolding bounded_workers
workers_bounded = refl

calculate_summary_lem_example :
    let s = calculate_summary default_checks (fine ∷ bad ∷ []) in
    (s.total_checks ≡ s.passed_checks + s.failed_checks)
    × (s.passed_checks ≡ length (keep passed (fine ∷ bad ∷ [])))
    × (s.total_checks ≡ length (fine ∷ bad ∷ []))
    × (s.critical_issues ≡ messages default_checks (fine ∷ bad ∷ []))
    × (s.warning_checks ≡ 0)
calculate_summary_lem_example = calculate_summary_lem default_checks (fine ∷ bad ∷ [])

one_issue : messages default_checks (fine ∷ bad ∷ []) ≡ codes "no chain" ∷ []
unfolding text_eq
one_issue = refl

calculate_metrics_lem_example :
    let rs = fine ∷ bad ∷ [] in
    let t = calculate_metrics fractions rs 5 1 engine.metrics in
    (t.average_check_time ≤ t.max_check_time)
    × (0 < t.max_check_time → t.min_check_time ≤ t.max_check_time)
    × (t.max_check_time ≡ 0 → t.min_check_time ≡ 9223372036854775807)
    × (t.error_rate
        ≡ fractions.div
            (fractions.of_int (pos (length (keep has_failed rs))))
            (fractions.of_int (pos (length rs))))
calculate_metrics_lem_example =
    calculate_metrics_lem fractions (fine ∷ bad ∷ []) 5 1 engine.metrics (omega arith)

run-Reported_example :
    Reported fractions bucket no_text
      (visited (returned bad))
      engine
      (run fractions bucket no_text (visited (returned bad)) [] figures 50 engine)
unfolding new_engine
run-Reported_example =
    run-Reported fractions bucket no_text (visited (returned bad)) engine [] figures 50 refl
      (λ i e. cc)

abbrev first : Check
first = record {
  name = codes "bridge_network";
  description = codes "Checking Docker bridge network configuration and health";
  severity = pos 3;
}

abbrev two_checks : DiagnosticEngine fractions bucket no_text
two_checks = record engine { checks = first ∷ first ∷ default_checks }

run-crashed_example : run fractions bucket no_text one_panic [] figures 50 two_checks ≡ crashed
unfolding new_engine should_stop_on_failure text_eq
run-crashed_example =
    run-crashed fractions bucket no_text one_panic (λ l ctx t. refl) two_checks [] figures 50
      (first ∷ []) first default_checks refl refl ((λ e. cc), refl, tt) refl

run-unfinished_example :
    run fractions bucket no_text
      (visited (returned fine))
      (received (some fine) 3 ∷ closed ∷ [])
      figures
      50
      parallel_engine
    ≡ unfinished (record (started fractions bucket no_text parallel_engine) {
      results = parallel_engine.results ++ added (received (some fine) 3 ∷ closed ∷ []);
    })
unfolding new_engine
run-unfinished_example =
    run-unfinished fractions bucket no_text (visited (returned fine)) parallel_engine
      (received (some fine) 3 ∷ closed ∷ []) figures 50 refl refl (omega arith)

abbrev all_arrive : List Event
all_arrive =
    received (some fine) 3
    ∷ received none 3
    ∷ received none 3
    ∷ received none 3
    ∷ received none 3
    ∷ received none 3
    ∷ received none 3
    ∷ received none 3
    ∷ received none 3
    ∷ received none 3
    ∷ received (some bad) 5
    ∷ []

run-own_limiter_example :
    (t : DiagnosticEngine fractions bucket no_text) × (run fractions bucket no_text
        (visited (returned fine))
        all_arrive
        figures
        50
        parallel_engine
      ≡ reported t)
    × (0 < length t.results
        → (t.metrics.api_calls_count ≡ parallel_engine.rate_limiter.metrics.total_requests)
          × (t.metrics.rate_limit_hits ≡ parallel_engine.rate_limiter.metrics.throttled_requests))
unfolding new_engine
run-own_limiter_example =
    run-own_limiter fractions bucket no_text (visited (returned fine)) parallel_engine all_arrive
      figures 50 refl refl (omega arith)
