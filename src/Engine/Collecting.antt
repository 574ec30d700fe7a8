-- ===== src/Engine/Collecting.antt =====
-- The parallel Run of internal/diagnostics/engine.go: the loop that collects the results of the pool.
use docker_net_doctor.Prelude.{
  ℕ, zero, suc, ◌≤◌, ◌<◌, ◌≡◌, refl, Bool, true, false, List, [], ◌∷◌, ◌++◌, arith, length, all,
  ◌==◌, ap, ◌∙◌, sym,
}
use mathlib.Core.List.{append-nil, append_assoc}
use docker_net_doctor.Prelude.Text.{Text}
use docker_net_doctor.Prelude.Float.{Float64}
use docker_net_doctor.Limiter.{Bucket, LimitError}
use docker_net_doctor.Engine.{CheckResult, ExecutionMetrics, calculate_metrics}
use docker_net_doctor.Engine.Runs.{
  Visit, Event, received, closed, timed_out, context_done, complete, waiting, collect, kept,
  DiagnosticEngine, PoolFigures, reported, unfinished, run, run_parallel, started, conclude,
}

-- The results that arrive.
abbrev pub arrivals : List Event → ℕ
arrivals [] = 0
arrivals (received r d ∷ rest) = suc (arrivals rest)
arrivals (_ ∷ rest) = arrivals rest

-- An event other than the time-out and the end of the context.
abbrev pub goes_on : Event → Bool
goes_on timed_out = false
goes_on context_done = false
goes_on _ = true

-- The results that the loop adds for what arrives.
abbrev pub added : List Event → List CheckResult
added [] = []
added (received r d ∷ rest) = kept r d ++ added rest
added (_ ∷ rest) = added rest

collect-waiting :
    (events : List Event) (left : ℕ) (results : List CheckResult)
    → all goes_on events ≡ true
    → arrivals events < left
    → collect events left results ≡ waiting (results ++ added events)
unfolding collect
collect-waiting events zero results g lt = absurd (omega (arith, lt))
collect-waiting [] (suc left) results g lt = ap waiting (sym (append-nil results))
collect-waiting (received r d ∷ rest) (suc left) results g lt =
    collect-waiting rest left (results ++ kept r d) g (omega (arith, lt))
    ∙ ap waiting (append_assoc results (kept r d) (added rest))
collect-waiting (closed ∷ rest) (suc left) results g lt =
    collect-waiting rest (suc left) results g lt
collect-waiting (timed_out ∷ rest) (suc left) results g lt = cc
collect-waiting (context_done ∷ rest) (suc left) results g lt = cc

collect-complete :
    (events : List Event) (left : ℕ) (results : List CheckResult)
    → all goes_on events ≡ true
    → left ≤ arrivals events
    → (rs : List CheckResult) × (collect events left results ≡ complete rs)
unfolding collect
collect-complete events zero results g le = (results, refl)
collect-complete [] (suc left) results g le = absurd (omega (arith, le))
collect-complete (received r d ∷ rest) (suc left) results g le =
    collect-complete rest left (results ++ kept r d) g (omega (arith, le))
collect-complete (closed ∷ rest) (suc left) results g le =
    collect-complete rest (suc left) results g le
collect-complete (timed_out ∷ rest) (suc left) results g le = cc
collect-complete (context_done ∷ rest) (suc left) results g le = cc

module _ (fl : Float64) (b : Bucket fl.Float) (show_limit : LimitError b.Error → Text)
    (visit : ℕ → Visit fl b show_limit) where
  calculate_metrics-figures :
      (rs : List CheckResult) (requests throttled : ℕ) (m : ExecutionMetrics fl)
      → 0 < length rs
      → let t = calculate_metrics fl rs requests throttled m in
        (t.api_calls_count ≡ requests) × (t.rate_limit_hits ≡ throttled)
  unfolding calculate_metrics
  calculate_metrics-figures rs requests throttled m h =
      let n : (length rs == 0) ≡ false = ground arith in rw (n) (refl, refl)

  pub run-parallel :
      (e : DiagnosticEngine fl b show_limit) (events : List Event)
      (figures : PoolFigures fl b show_limit) (total : ℕ)
      → e.config.parallel ≡ true
      → run fl b show_limit visit events figures total e
        ≡ run_parallel fl b show_limit events figures total (started fl b show_limit e)
  unfolding run
  run-parallel e events figures total p = ground arith

  -- A parallel Run that receives fewer results than the engine has checks, as when the pool has refused
  -- one, does not end before the time-out or the end of its context, also when the channel is closed.
  pub run-unfinished :
      (e : DiagnosticEngine fl b show_limit) (events : List Event)
      (figures : PoolFigures fl b show_limit) (total : ℕ)
      → e.config.parallel ≡ true
      → all goes_on events ≡ true
      → arrivals events < length e.checks
      → run fl b show_limit visit events figures total e
        ≡ unfinished (record (started fl b show_limit e) { results = e.results ++ added events })
  unfolding run_parallel
  run-unfinished e events figures total p g lt =
      run-parallel e events figures total p
      ∙ rw (run_parallel, collect-waiting events (length e.checks) e.results g lt) refl

  -- A parallel Run that receives as many results as the engine has checks, before the time-out and the
  -- end of its context, reports. If there is any result, the API calls and the rate limits that it
  -- reports are those of the engine's own limiter, whatever the pool has counted.
  pub run-own_limiter :
      (e : DiagnosticEngine fl b show_limit) (events : List Event)
      (figures : PoolFigures fl b show_limit) (total : ℕ)
      → e.config.parallel ≡ true
      → all goes_on events ≡ true
      → length e.checks ≤ arrivals events
      → (t : DiagnosticEngine fl b show_limit) × (run fl b show_limit visit events figures total e
          ≡ reported t)
        × (0 < length t.results
            → (t.metrics.api_calls_count ≡ e.rate_limiter.metrics.total_requests)
              × (t.metrics.rate_limit_hits ≡ e.rate_limiter.metrics.throttled_requests))
  unfolding run_parallel conclude calculate_metrics
  run-own_limiter e events figures total p g le =
      let (rs, c) = collect-complete events (length e.checks) e.results g le in
      rw (run-parallel e events figures total p, run_parallel, c)
        (_, refl, calculate_metrics-figures rs _ _ _)
