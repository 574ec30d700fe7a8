-- ===== src/Pool/Steps.antt =====
-- Runs of the pool of internal/diagnostics/worker_pool.go: sequences of the steps of its goroutines, in
-- any order.
use docker_net_doctor.Prelude.{ℕ, Bool, Option, List, [], ◌∷◌}
use docker_net_doctor.Prelude.Text.{Text}
use docker_net_doctor.Prelude.Float.{Float64}
use docker_net_doctor.Security.{Check}
use docker_net_doctor.Engine.Runs.{Event, received}
use docker_net_doctor.Pool.{
  Pool, JobEnd, start, submit_start, submit_end, take, wait_ends, job_ends, receive, stop,
  context_ends, sample_memory,
}

module _ (fl : Float64) where
  pub data Step : Type 0 where
    starts stops takes receives context_is_over : Step
    submits : ℕ → Bool → Check → Step
    submit_returns : ℕ → Step
    waits : ℕ → ℕ → Step
    ends : JobEnd fl → ℕ → Step
    samples : ℕ → Step

  -- strings.ToLower, the clock of the validator's log, and rateLimiter.Wait.
  module _ (to_lower : Text → Text) (clock : ℕ → ℕ) (wait : Bool → ℕ → Option Text) where
    unfoldable pub step : Step → Pool fl → Pool fl
    unfolding start submit_start submit_end take wait_ends job_ends receive stop context_ends
    step starts p = (start fl p).0
    step stops p = (stop fl p).0
    step takes p = take fl p
    step receives p = receive fl p
    step context_is_over p = context_ends fl p
    step (submits memory done_first check) p =
        (submit_start fl to_lower clock memory done_first check p).0
    step (submit_returns ticket) p = submit_end fl ticket p
    step (waits moment n) p = wait_ends fl wait moment n p
    step (ends e n) p = job_ends fl e n p
    step (samples memory) p = record p { memory_monitor = sample_memory memory p.memory_monitor }

    unfoldable pub run : List Step → Pool fl → Pool fl
    run [] p = p
    run (s ∷ rest) p = run rest (step s p)

    -- What the reader of the results receives.
    abbrev pub arriving : Step → Pool fl → List Event
    arriving receives p = elim p.results [ [] ↦ [] | r ∷ rest ↦ received r.result r.duration ∷ [] ]
    arriving _ p = []
