-- ===== src/Engine/Runs.antt =====
-- Run of internal/diagnostics/engine.go. A run is given what it meets: for each visit of a check the
-- wait for the rate limiter and what Run does, for a parallel run what arrives from the worker pool.
use docker_net_doctor.Prelude.{
  ℕ, zero, suc, ◌+◌, Bool, true, false, not, ◌&&◌, Option, none, some, List, [], ◌∷◌, ◌++◌,
  if◌then◌else◌, length,
}
use docker_net_doctor.Prelude.Int.{ℤ, pos}
use docker_net_doctor.Prelude.Clock.{seconds}
use docker_net_doctor.Prelude.Text.{Text, codes}
use docker_net_doctor.Prelude.Float.{Float64}
use docker_net_doctor.Security.{Check}
use docker_net_doctor.Limiter.{Bucket, LimitError, RateLimiter, new_rate_limiter, wait}
use docker_net_doctor.Engine.{
  CheckResult, Summary, Outcome, ExecutionMetrics, run_check_safely, should_stop_on_failure,
  no_summary, calculate_summary, calculate_metrics, bounded_workers, default_checks,
}

-- What the loop of runWithWorkerPool receives: a result with its duration (`none` is nil), the end of a
-- closed channel, the time-out, or a context that is done.
pub data Event : Type 0 where
  received : Option CheckResult → ℕ → Event
  closed timed_out context_done : Event

-- How the loop ends; `waiting` after the events so far.
pub data Collected : Type 0 where
  complete partial interrupted waiting : List CheckResult → Collected

abbrev pub kept : Option CheckResult → ℕ → List CheckResult
kept none duration = []
kept (some r) duration = record r { duration = duration } ∷ []

-- The loop with the number of results that are still expected. A closed channel only ends the `select`.
unfoldable pub collect : List Event → ℕ → List CheckResult → Collected
collect events zero results = complete results
collect [] (suc left) results = waiting results
collect (received r d ∷ rest) (suc left) results = collect rest left (results ++ kept r d)
collect (closed ∷ rest) (suc left) results = collect rest (suc left) results
collect (timed_out ∷ rest) (suc left) results = partial results
collect (context_done ∷ rest) (suc left) results = interrupted results

module _ (fl : Float64) (b : Bucket fl.Float) (show_limit : LimitError b.Error → Text) where
  pub record Config : Type 0 where
    pub parallel : Bool
    pub timeout : ℤ
    pub worker_count : ℤ
    pub rate_limit : fl.Float

  pub record DiagnosticEngine : Type 0 where
    pub config : Config
    pub checks : List Check
    pub results : List CheckResult
    pub summary : Summary
    pub duration : ℕ
    pub metrics : ExecutionMetrics fl
    pub rate_limiter : RateLimiter fl b

  abbrev no_metrics : ExecutionMetrics fl
  no_metrics = record {
    parallel_execution = false;
    worker_count = pos 0;
    total_duration = 0;
    average_check_time = 0;
    max_check_time = 0;
    min_check_time = 0;
    memory_usage_mb = fl.of_int (pos 0);
    api_calls_count = 0;
    rate_limit_hits = 0;
    error_rate = fl.of_int (pos 0);
  }

  abbrev given : ℤ → Option Config → Config
  given cpus none = record {
    parallel = true;
    timeout = pos (seconds 30);
    worker_count = cpus;
    rate_limit = fl.of_int (pos 5);
  }
  given cpus (some c) = c

  unfoldable pub new_engine : ℤ → Option Config → DiagnosticEngine
  unfolding bounded_workers
  new_engine cpus config =
      let c = given cpus config in
      record {
        config = record c { worker_count = bounded_workers cpus c.worker_count };
        checks = default_checks;
        results = [];
        summary = no_summary 0;
        duration = 0;
        metrics = no_metrics;
        rate_limiter = new_rate_limiter fl b (
            some (record {
              requests_per_second = c.rate_limit;
              burst_size = pos 10;
              wait_timeout = pos (seconds 5);
              enabled = true;
            }));
      }

  -- What the visit of a check meets: the context, how long the limiter waits and when, what Run does,
  -- and the two durations that are measured, inside runCheckSafely and around it.
  pub record Visit : Type 0 where
    pub ctx : b.Context
    pub waited : ℕ
    pub now : ℕ
    pub outcome : Outcome
    pub inner : ℕ
    pub outer : ℕ

  abbrev pub rate_limited : Check → LimitError b.Error → CheckResult
  rate_limited check e = record {
    check_name = check.name;
    success = false;
    message = codes "Rate limit error: " ++ show_limit e;
    duration = 0;
  }

  -- The loop of runSequential from a check on, with the results so far; `none` is the panic of a nil
  -- result.
  unfoldable pub sequential_from :
      (ℕ → Visit)
      → ℕ
      → List Check
      → RateLimiter fl b
      → List CheckResult
      → Option (RateLimiter fl b × List CheckResult)
  unfolding run_check_safely should_stop_on_failure
  sequential_from visit i [] rl results = some (rl, results)
  sequential_from visit i (check ∷ rest) rl results =
      let v = visit i in
      let (t, refused) = wait fl b v.ctx v.waited v.now rl in
      let next = sequential_from visit (i + 1) rest t in
      elim refused [
        | some e ↦ next (results ++ (rate_limited check e ∷ []))
        | none ↦ elim (run_check_safely check v.outcome v.inner) [
          | none ↦ none
          | some r ↦
              let timed = results ++ (record r { duration = v.outer } ∷ []) in
              if not r.success && should_stop_on_failure check then some (t, timed) else next timed
        ]
      ]

  unfoldable pub run_sequential : (ℕ → Visit) → DiagnosticEngine → Option DiagnosticEngine
  unfolding sequential_from
  run_sequential visit e = elim (sequential_from visit 0 e.checks e.rate_limiter e.results) [
    | none ↦ none
    | some t ↦ some (record e { rate_limiter = t.0; results = t.1 })
  ]

  -- What a parallel run takes over from the metrics of the pool.
  pub record PoolFigures : Type 0 where
    pub total_api_calls : ℕ
    pub rate_limit_hits : ℕ
    pub peak_memory_mb : fl.Float

  unfoldable pub pool_figures : PoolFigures → ExecutionMetrics fl → ExecutionMetrics fl
  pool_figures p m = record m {
    api_calls_count = p.total_api_calls;
    rate_limit_hits = p.rate_limit_hits;
    memory_usage_mb = p.peak_memory_mb;
  }

  -- The end of Run, given its duration.
  unfoldable pub conclude : ℕ → DiagnosticEngine → DiagnosticEngine
  conclude total e =
      let limits = e.rate_limiter.metrics in
      record e {
        duration = total;
        summary = calculate_summary e.checks e.results;
        metrics =
            calculate_metrics fl e.results limits.total_requests limits.throttled_requests
              (record (e.metrics) { total_duration = total });
      }

  abbrev pub started : DiagnosticEngine → DiagnosticEngine
  started e = record e {
    metrics = record (e.metrics) {
      parallel_execution = e.config.parallel;
      worker_count = e.config.worker_count;
    };
  }

  -- How Run ends: with the results, with the error of the context, in a panic, or not yet.
  pub data Ended : Type 0 where
    reported : DiagnosticEngine → Ended
    pool_failed : DiagnosticEngine → Ended
    crashed : Ended
    unfinished : DiagnosticEngine → Ended

  -- Run over the worker pool, of whose submissions only the results matter.
  unfoldable pub run_parallel : List Event → PoolFigures → ℕ → DiagnosticEngine → Ended
  unfolding collect conclude pool_figures
  run_parallel events figures total e = elim (collect events (length e.checks) e.results) [
    | complete rs ↦
        reported
          (conclude total (record e { results = rs; metrics = pool_figures figures e.metrics }))
    | partial rs ↦ reported (conclude total (record e { results = rs }))
    | interrupted rs ↦ pool_failed (record e { results = rs })
    | waiting rs ↦ unfinished (record e { results = rs })
  ]

  unfoldable pub run : (ℕ → Visit) → List Event → PoolFigures → ℕ → DiagnosticEngine → Ended
  unfolding run_sequential run_parallel
  run visit events figures total e =
      if e.config.parallel
      then run_parallel events figures total (started e)
      else (elim (run_sequential visit (started e)) [
        | none ↦ crashed
        | some t ↦ reported (conclude total t)
      ])
