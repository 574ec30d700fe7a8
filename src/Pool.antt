-- ===== src/Pool.antt =====
-- internal/diagnostics/worker_pool.go: the pool of workers. A step is what happens between two points
-- where other goroutines can come in: the two halves of Submit, before and after the send to the queue;
-- and a worker that takes a job, ends its wait for the rate limiter, and ends the job. The cancel of a
-- job's context that Submit defers is part of its second half. A job carries a `ticket` that tells it
-- from all others, which the code's ID does not. That no other goroutine comes in between the conditions of
-- Submit and its send is an assumption of this model. Starting and stopping goroutines is the scheduler's.
pub mod Steps
pub mod Accounts
pub mod Endings
pub mod Runs
pub mod Cancelled
pub mod Refusals
mod Tests
use docker_net_doctor.Prelude.{
  ℕ, zero, suc, ◌+◌, ◌-◌, ◌*◌, ◌/◌, Bool, true, false, not, ◌&&◌, ◌||◌, Option, none, some, List,
  [], ◌∷◌, ◌++◌, ◌==◌, ltb, leb, if◌then◌else◌, length, map,
}
use docker_net_doctor.Prelude.Int.{ℤ, pos, negsuc, ltb_ℤ, leb_ℤ, eqb_ℤ, ◌+ℤ◌}
use docker_net_doctor.Prelude.Text.{Text, codes}
use docker_net_doctor.Prelude.Float.{Float64}
use docker_net_doctor.Security.{Check, Failure, SecurityValidator, new_security_validator}
use docker_net_doctor.Security.Operations.{validate_check, new_security_validator_test_mode}
use docker_net_doctor.Monitor.{
  ErrorRateMonitor, new_error_rate, is_open, record_error, record_success,
}
use docker_net_doctor.Engine.{
  CheckResult, Outcome, panicked, failed, no_result, returned, bounded_workers,
}

-- MAX_QUEUE_SIZE, and MAX_MEMORY_MB in bytes.
abbrev pub max_queue_size : ℕ
max_queue_size = 100

abbrev pub max_memory : ℕ
max_memory = 524288000

pub record Job : Type 0 where
  pub id : ℤ
  pub check : Check
  pub ticket : ℕ
  pub cancelled : Bool  -- job.Context is done

-- `none` is a nil result or a nil error.
pub record JobResult : Type 0 where
  pub id : ℤ
  pub result : Option CheckResult
  pub error : Option Text
  pub duration : ℕ

pub record PoolMetrics : Type 0 where
  pub average_job_time : ℕ
  pub max_job_time : ℕ
  pub min_job_time : ℕ
  pub total_api_calls : ℕ
  pub peak_workers : ℤ
  pub recovered_panics : ℕ

-- MemoryMonitor, in bytes.
pub record MemoryMonitor : Type 0 where
  pub baseline : ℕ
  pub peak_usage : ℕ

unfoldable pub sample_memory : ℕ → MemoryMonitor → MemoryMonitor
sample_memory current m = if ltb m.peak_usage current then record m { peak_usage = current } else m

unfoldable pub is_over_limit : ℕ → MemoryMonitor → Bool
is_over_limit current m =
    if leb current m.baseline then false else ltb max_memory (current - m.baseline)

unfoldable pub get_peak_usage : MemoryMonitor → ℕ
get_peak_usage m = if ltb m.baseline m.peak_usage then m.peak_usage - m.baseline else 0

pub data SubmitError : Type 0 where
  not_running circuit_open : SubmitError
  validation_failed : Failure → SubmitError
  memory_exceeded queue_full pool_cancelled : SubmitError

-- executeJob: the result, the error and whether the check has panicked. The text of a panic is given by
-- the runtime and left out.
unfoldable pub execute_job : Check → Outcome → Option CheckResult × Option Text × Bool
execute_job check panicked = (
  some (record {
    check_name = check.name;
    success = false;
    message = codes "Check panicked: ";
    duration = 0;
  }),
  some (codes "job panicked: "),
  true,
)
execute_job check (failed e) = (
  some (record {
    check_name = check.name;
    success = false;
    message = codes "Check failed: " ++ e;
    duration = 0;
  }),
  some e,
  false,
)
execute_job check no_result = (none, none, false)
execute_job check (returned r) = (some r, none, false)

abbrev pub is_some {ℓ} : {A : Type ℓ} → Option A → Bool
is_some none = false
is_some (some a) = true

-- The job at a position, and the others.
unfoldable pub pick : ℕ → List Job → Option (Job × List Job)
pick n [] = none
pick zero (j ∷ rest) = some (j, rest)
pick (suc n) (j ∷ rest) = elim (pick n rest) [ none ↦ none | some t ↦ some (t.0, j ∷ t.1) ]

module _ (fl : Float64) where
  -- `waiting` and `running` are the jobs of workers that wait for the rate limiter and that run a check;
  -- `submitting` counts the calls of Submit between their halves; `alive` the workers that have not
  -- returned. The numbers of jobs are int32 in the code and integers here.
  pub record Pool : Type 0 where
    pub workers : ℤ
    pub jobs : List Job
    pub results : List JobResult
    pub context_done : Bool
    pub validator : SecurityValidator
    pub started : Bool
    pub stopped : Bool
    pub active_jobs : ℤ
    pub completed_jobs : ℕ
    pub failed_jobs : ℕ
    pub memory_monitor : MemoryMonitor
    pub error_rate : ErrorRateMonitor fl
    pub metrics : PoolMetrics
    pub submitting : ℕ
    pub alive : ℤ
    pub waiting : List Job
    pub running : List Job
    pub next_ticket : ℕ

  -- Given isTestContext(), runtime.NumCPU(), the memory in use and the clock.
  unfoldable pub new_secure_worker_pool : Bool → ℤ → ℤ → ℕ → ℕ → Pool
  unfolding bounded_workers new_error_rate
  new_secure_worker_pool is_test cpus count memory now = record {
    workers = bounded_workers cpus count;
    jobs = [];
    results = [];
    context_done = false;
    validator = if is_test then new_security_validator_test_mode else new_security_validator;
    started = false;
    stopped = false;
    active_jobs = pos 0;
    completed_jobs = 0;
    failed_jobs = 0;
    memory_monitor = record { baseline = memory; peak_usage = 0 };
    error_rate = new_error_rate fl now;
    metrics = record {
      average_job_time = 0;
      max_job_time = 0;
      min_job_time = 0;
      total_api_calls = 0;
      peak_workers = pos 0;
      recovered_panics = 0;
    };
    submitting = 0;
    alive = pos 0;
    waiting = [];
    running = [];
    next_ticket = 0;
  }

  -- Start returns false for its error.
  unfoldable pub start : Pool → Pool × Bool
  start p = if p.started then (p, false) else (
    record p {
      started = true;
      alive = p.workers;
      metrics = record (p.metrics) { peak_workers = p.workers };
    },
    true,
  )

  abbrev pub accepts : Pool → Bool
  accepts p = p.started && not p.stopped

  -- The conditions of Submit, in their order, given the memory in use.
  unfoldable pub submit_guards :
      (Text → Text) → (ℕ → ℕ) → ℕ → Check → Pool → Pool × Option SubmitError
  unfolding is_open is_over_limit
  submit_guards to_lower clock memory check p =
      let (v, invalid) = validate_check to_lower clock (some check) p.validator in
      let q = record p { validator = v } in
      if not (accepts p)
      then (p, some not_running)
      else if is_open fl p.error_rate
      then (p, some circuit_open)
      else (elim invalid [
        | some f ↦ (q, some (validation_failed f))
        | none ↦
            if is_over_limit memory p.memory_monitor then (q, some memory_exceeded) else (q, none)
      ])

  -- The first half of Submit: `gives_up` is what ends its wait while the queue is full, `done_first`
  -- whether the `select` takes the end of the pool's context, when that is there.
  unfoldable pub submit_start :
      (Text → Text) → (ℕ → ℕ) → ℕ → Bool → Check → Pool → Pool × Option SubmitError
  unfolding submit_guards
  submit_start to_lower clock memory done_first check p =
      let (q, refused) = submit_guards to_lower clock memory check p in
      let job : Job = record {
        id = pos q.completed_jobs +ℤ q.active_jobs;
        check = check;
        ticket = q.next_ticket;
        cancelled = q.context_done;
      } in
      elim refused [
        | some e ↦ (q, some e)
        | none ↦
            if q.context_done && done_first
            then (q, some pool_cancelled)
            else if leb max_queue_size (length q.jobs)
            then (q, some (if q.context_done then pool_cancelled else queue_full))
            else (
              record q {
                jobs = q.jobs ++ (job ∷ []);
                submitting = q.submitting + 1;
                next_ticket = q.next_ticket + 1;
              },
              none,
            )
      ]

  abbrev pub cancel : ℕ → Job → Job
  cancel ticket j = if j.ticket == ticket then record j { cancelled = true } else j

  -- The second half: the count, and the deferred cancel of the job's context.
  unfoldable pub submit_end : ℕ → Pool → Pool
  submit_end ticket p = if p.submitting == 0 then p else record p {
    active_jobs = p.active_jobs +ℤ pos 1;
    submitting = p.submitting - 1;
    jobs = map (cancel ticket) p.jobs;
    waiting = map (cancel ticket) p.waiting;
    running = map (cancel ticket) p.running;
  }

  abbrev pub busy : Pool → ℕ
  busy p = length p.waiting + length p.running

  -- A worker that is free receives a job; if the pool's context is done, it drops the job and returns.
  unfoldable pub take_from : List Job → Pool → Pool
  take_from [] p = p
  take_from (j ∷ rest) p =
      if p.context_done
      then record p {
        jobs = rest;
        active_jobs = p.active_jobs +ℤ negsuc 0;
        alive = p.alive +ℤ negsuc 0;
      }
      else record p { jobs = rest; waiting = j ∷ p.waiting }

  unfoldable pub take : Pool → Pool
  unfolding take_from
  take p = if leb_ℤ p.alive (pos (busy p)) then p else take_from p.jobs p

  abbrev pub is_full : Pool → Bool
  is_full p = leb max_queue_size (length p.results)

  -- The wait of a job ends with an answer of the rate limiter.
  unfoldable pub wait_ends_for : Option Text → Job → List Job → Pool → Pool
  wait_ends_for none j rest p = record p { waiting = rest; running = j ∷ p.running }
  wait_ends_for (some e) j rest p = record p {
    waiting = rest;
    results =
        p.results
        ++ (record {
          id = j.id;
          result = none;
          error = some (codes "rate limit error: " ++ e);
          duration = 0;
        }
            ∷ []);
    active_jobs = p.active_jobs +ℤ negsuc 0;
    failed_jobs = p.failed_jobs + 1;
  }

  -- The wait of the job at a position ends. `wait` is rateLimiter.Wait at some moment, with a context that
  -- is done or not. Only a refusal is sent as a result: while the channel of results is full, its step is
  -- left to later.
  unfoldable pub wait_ends : (Bool → ℕ → Option Text) → ℕ → ℕ → Pool → Pool
  unfolding wait_ends_for pick
  wait_ends wait moment n p = elim (pick n p.waiting) [
    | none ↦ p
    | some t ↦
        let answer = wait (t.0).cancelled moment in
        if is_some answer && is_full p then p else wait_ends_for answer t.0 t.1 p
  ]

  unfoldable pub update_metrics : ℕ → Pool → Pool
  update_metrics duration p =
      let m = p.metrics in
      let total = p.completed_jobs + p.failed_jobs in
      record p {
        metrics = record m {
          total_api_calls = m.total_api_calls + 1;
          min_job_time =
              if m.min_job_time == 0 || ltb duration m.min_job_time
              then duration
              else m.min_job_time;
          max_job_time = if ltb m.max_job_time duration then duration else m.max_job_time;
          average_job_time =
              if ltb 0 total
              then (m.average_job_time * (total - 1) + duration) / total
              else m.average_job_time;
        };
      }

  -- How a job ends: what the check has done and how long it took, whether the `select` finds the pool's
  -- context done first, and the readings of the clock by the monitor.
  pub record JobEnd : Type 0 where
    pub outcome : Outcome
    pub duration : ℕ
    pub done_first : Bool
    pub now : ℕ
    pub later : ℕ

  -- The counters after a result that has been sent.
  unfoldable pub counted : JobEnd → Option Text → Pool → Pool
  counted e error p = elim error [
    | some x ↦ record p {
      failed_jobs = p.failed_jobs + 1;
      error_rate = record_error fl e.now e.later p.error_rate;
    }
    | none ↦ record p {
      completed_jobs = p.completed_jobs + 1;
      error_rate = record_success fl e.now e.later p.error_rate;
    }
  ]

  abbrev panic_counted : Bool → PoolMetrics → PoolMetrics
  panic_counted has_panicked m =
      if has_panicked then record m { recovered_panics = m.recovered_panics + 1 } else m

  unfoldable pub job_ends_for : JobEnd → Job → List Job → Pool → Pool
  unfolding execute_job update_metrics counted
  job_ends_for e j rest p =
      let (result, error, has_panicked) = execute_job j.check e.outcome in
      let q =
        update_metrics e.duration (record p { metrics = panic_counted has_panicked p.metrics }) in
      let left = record q { running = rest; active_jobs = q.active_jobs +ℤ negsuc 0 } in
      if p.context_done && (e.done_first || is_full p)
      then record left { alive = left.alive +ℤ negsuc 0 }
      else counted e error (record left {
        results =
            left.results
            ++ (record { id = j.id; result = result; error = error; duration = e.duration } ∷ []);
      })

  -- The job at a position ends. While the channel of results is full and the context is not done, its
  -- worker waits.
  unfoldable pub job_ends : JobEnd → ℕ → Pool → Pool
  unfolding job_ends_for pick
  job_ends e n p = elim (pick n p.running) [
    | none ↦ p
    | some t ↦ if is_full p && not p.context_done then p else job_ends_for e t.0 t.1 p
  ]

  -- The reader of GetResults takes the first result.
  unfoldable pub receive : Pool → Pool
  receive p = elim p.results [ [] ↦ p | r ∷ rest ↦ record p { results = rest } ]

  -- Stop returns false for its error. The workers end in later steps.
  unfoldable pub stop : Pool → Pool × Bool
  stop p = if p.stopped then (p, false) else (record p { stopped = true }, true)

  unfoldable pub context_ends : Pool → Pool
  context_ends p =
      let over : Job → Job = λ j. record j { cancelled = true } in
      record p {
        context_done = true;
        jobs = map over p.jobs;
        waiting = map over p.waiting;
        running = map over p.running;
      }

  unfoldable pub is_healthy : ℕ → Pool → Bool
  is_healthy memory p =
      accepts p
      && not (is_open fl p.error_rate)
      && not (is_over_limit memory p.memory_monitor)
      && leb_ℤ p.active_jobs (p.workers +ℤ p.workers)

  -- WaitForCompletion sees all work done.
  unfoldable pub seems_done : Pool → Bool
  seems_done p = eqb_ℤ p.active_jobs (pos 0)

  unfoldable pub total_jobs : Pool → ℕ
  total_jobs p = p.completed_jobs + p.failed_jobs
