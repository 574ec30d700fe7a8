-- ===== src/Pool/Runs.antt =====
-- The pool of internal/diagnostics/worker_pool.go over any steps of its goroutines.
use docker_net_doctor.Prelude.{
  ℕ, suc, ◌+◌, ◌≡◌, refl, Bool, true, false, not, ◌&&◌, Option, some, List, [], ◌∷◌, ◌++◌, arith,
  ap, length, length-append, leb, if-cases, elim-cases, subst,
}
use docker_net_doctor.Prelude.Int.{ℤ, pos, pos_part, neg_part, ◌≤ℤ◌, ◌<ℤ◌}
use docker_net_doctor.Prelude.Text.{Text}
use docker_net_doctor.Prelude.Float.{Float64}
use docker_net_doctor.Security.{Check, SecurityValidator}
use docker_net_doctor.Security.Operations.{validate_check}
use docker_net_doctor.Monitor.{is_open}
use docker_net_doctor.Engine.{bounded_workers}
use docker_net_doctor.Pool.{
  Pool, SubmitError, Job, JobResult, submit_start, submit_guards, accepts, is_over_limit, receive,
  stop, new_secure_worker_pool, max_queue_size, seems_done,
}
use docker_net_doctor.Pool.Steps.{
  Step, starts, stops, takes, receives, context_is_over, submits, submit_returns, waits, ends,
  samples, step, run,
}
use docker_net_doctor.Pool.Accounts.{
  IsAccounted, start-IsAccounted, submit_end-IsAccounted, context_ends-IsAccounted,
  take-IsAccounted,
}
use docker_net_doctor.Pool.Endings.{wait_ends-IsAccounted, job_ends-IsAccounted}

module _ (fl : Float64) where
  -- A change of the validator or of the results that are left concerns no count.
  refused-IsAccounted :
      (w : SecurityValidator) (p : Pool fl)
      → IsAccounted fl p
      → IsAccounted fl (record p { validator = w })
  refused-IsAccounted w p v = record {
    active = v.active;
    busy_alive = v.busy_alive;
    alive_workers = v.alive_workers;
    not_yet = v.not_yet;
    some_workers = v.some_workers;
    queue_bounded = v.queue_bounded;
    results_bounded = v.results_bounded;
    ended_bounded = v.ended_bounded;
  }

  receive-IsAccounted : (p : Pool fl) → IsAccounted fl p → IsAccounted fl (receive fl p)
  unfolding receive
  receive-IsAccounted p v = from p.results refl
    where
      from :
          (rs : List JobResult)
          → p.results ≡ rs
          → IsAccounted fl (elim rs [ [] ↦ p | r ∷ rest ↦ record p { results = rest } ])
      from [] e = v
      from (r ∷ rs) e = record {
        active = v.active;
        busy_alive = v.busy_alive;
        alive_workers = v.alive_workers;
        not_yet = v.not_yet;
        some_workers = v.some_workers;
        queue_bounded = v.queue_bounded;
        results_bounded =
            let l : length p.results ≡ suc (length rs) = ap length e in
            omega (arith, v.results_bounded, l);
        ended_bounded = v.ended_bounded;
      }

  guards-IsAccounted :
      (to_lower : Text → Text) (clock : ℕ → ℕ) (memory : ℕ) (check : Check) (p : Pool fl)
      → IsAccounted fl p
      → IsAccounted fl (submit_guards fl to_lower clock memory check p).0
  unfolding submit_guards
  guards-IsAccounted to_lower clock memory check p v =
      if-cases {A = Pool fl × Option SubmitError} P (not (accepts fl p)) (λ a. v)
        λ b.
          if-cases {A = Pool fl × Option SubmitError} P (is_open fl p.error_rate) (λ a. v)
            λ c.
              elim-cases {B = Pool fl × Option SubmitError} P
                (validate_check to_lower clock (some check) p.validator).1
                (λ d.
                  if-cases {A = Pool fl × Option SubmitError} P
                    (is_over_limit memory p.memory_monitor) (λ a. refused-IsAccounted _ p v)
                    (λ a. refused-IsAccounted _ p v))
                (λ f d. refused-IsAccounted _ p v)
    where
      P : Pool fl × Option SubmitError → Type 0
      P t = IsAccounted fl t.0

  no_jobs : (js : List Job) → length js ≡ 0 → js ≡ []
  no_jobs [] e = refl
  no_jobs (j ∷ js) e = absurd (omega (arith, e))

  enqueued :
      (p : Pool fl) (j : Job)
      → IsAccounted fl p
      → leb max_queue_size (length p.jobs) ≡ false
      → IsAccounted fl (record p {
        jobs = p.jobs ++ (j ∷ []);
        submitting = p.submitting + 1;
        next_ticket = p.next_ticket + 1;
      })
  enqueued p j v room =
      let l = length-append p.jobs (j ∷ []) in
      record {
        active = omega (arith, v.active, l);
        busy_alive = v.busy_alive;
        alive_workers = v.alive_workers;
        not_yet = v.not_yet;
        some_workers = v.some_workers;
        queue_bounded = ground arith;
        results_bounded = v.results_bounded;
        ended_bounded = omega (arith, v.ended_bounded, l);
      }

  submit_start-IsAccounted :
      (to_lower : Text → Text) (clock : ℕ → ℕ) (memory : ℕ) (first : Bool) (check : Check)
      (p : Pool fl)
      → IsAccounted fl p
      → IsAccounted fl (submit_start fl to_lower clock memory first check p).0
  unfolding submit_start
  submit_start-IsAccounted to_lower clock memory first check p v =
      let g = submit_guards fl to_lower clock memory check p in
      let w = guards-IsAccounted to_lower clock memory check p v in
      elim-cases {B = Pool fl × Option SubmitError} P g.1
        (λ n.
          if-cases {A = Pool fl × Option SubmitError} P (g.0.context_done && first) (λ a. w)
            λ b.
              if-cases {A = Pool fl × Option SubmitError} P (leb max_queue_size (length g.0.jobs))
                (λ a. w) λ c. enqueued g.0 _ w c)
        (λ e n. w)
    where
      P : Pool fl × Option SubmitError → Type 0
      P t = IsAccounted fl t.0

  module _ (to_lower : Text → Text) (clock : ℕ → ℕ) (wait : Bool → ℕ → Option Text) where
    step-IsAccounted :
        (s : Step fl) (p : Pool fl)
        → IsAccounted fl p
        → IsAccounted fl (step fl to_lower clock wait s p)
    unfolding step stop
    step-IsAccounted starts p v = start-IsAccounted fl p v
    step-IsAccounted stops p v =
        if-cases {A = Pool fl × Bool} (λ t. IsAccounted fl t.0) p.stopped (λ a. v)
          λ b. record {
            active = v.active;
            busy_alive = v.busy_alive;
            alive_workers = v.alive_workers;
            not_yet = v.not_yet;
            some_workers = v.some_workers;
            queue_bounded = v.queue_bounded;
            results_bounded = v.results_bounded;
            ended_bounded = v.ended_bounded;
          }
    step-IsAccounted takes p v = take-IsAccounted fl p v
    step-IsAccounted receives p v = receive-IsAccounted p v
    step-IsAccounted context_is_over p v = context_ends-IsAccounted fl p v
    step-IsAccounted (submits memory first check) p v =
        submit_start-IsAccounted to_lower clock memory first check p v
    step-IsAccounted (submit_returns ticket) p v = submit_end-IsAccounted fl ticket p v
    step-IsAccounted (waits moment n) p v = wait_ends-IsAccounted fl wait moment n p v
    step-IsAccounted (ends e n) p v = job_ends-IsAccounted fl e n p v
    step-IsAccounted (samples memory) p v = record {
      active = v.active;
      busy_alive = v.busy_alive;
      alive_workers = v.alive_workers;
      not_yet = v.not_yet;
      some_workers = v.some_workers;
      queue_bounded = v.queue_bounded;
      results_bounded = v.results_bounded;
      ended_bounded = v.ended_bounded;
    }

    run_from-IsAccounted :
        (steps : List (Step fl)) (p : Pool fl)
        → IsAccounted fl p
        → IsAccounted fl (run fl to_lower clock wait steps p)
    unfolding run
    run_from-IsAccounted [] p v = v
    run_from-IsAccounted (s ∷ rest) p v =
        run_from-IsAccounted rest (step fl to_lower clock wait s p) (step-IsAccounted s p v)

    new_pool-IsAccounted :
        (is_test : Bool) (cpus count : ℤ) (memory now : ℕ)
        → pos 0 <ℤ cpus
        → IsAccounted fl (new_secure_worker_pool fl is_test cpus count memory now)
    unfolding new_secure_worker_pool bounded_workers
    new_pool-IsAccounted is_test cpus count memory now h =
        let w : pos 0 ≤ℤ bounded_workers cpus count = ground arith in
        record {
          active = refl;
          busy_alive = omega arith;
          alive_workers = w;
          not_yet = λ n. refl;
          some_workers = w;
          queue_bounded = omega arith;
          results_bounded = omega arith;
          ended_bounded = omega arith;
        }

    -- In a pool on a machine that has a processor, after any steps of Submit, the workers, the reader and
    -- Stop in any order: the active jobs are those in the queue and those of the workers, less those
    -- whose Submit has yet to count them; no more workers are busy than there are; both channels keep
    -- within their capacity; and the completed and failed jobs, and those under way, are no more than
    -- were queued.
    pub run-IsAccounted :
        (is_test : Bool) (cpus count : ℤ) (memory now : ℕ) (steps : List (Step fl))
        → pos 0 <ℤ cpus
        → IsAccounted fl (
            run fl to_lower clock wait steps
              (new_secure_worker_pool fl is_test cpus count memory now))
    run-IsAccounted is_test cpus count memory now steps h =
        run_from-IsAccounted steps _ (new_pool-IsAccounted is_test cpus count memory now h)

    -- When WaitForCompletion finds no active job while no call of Submit is under way, the queue is empty
    -- and no worker has a job, whatever the steps before.
    pub seems_done_lem :
        (is_test : Bool) (cpus count : ℤ) (memory now : ℕ) (steps : List (Step fl))
        → pos 0 <ℤ cpus
        → let p =
            run fl to_lower clock wait steps
              (new_secure_worker_pool fl is_test cpus count memory now) in
          seems_done fl p ≡ true
          → p.submitting ≡ 0
          → (p.jobs ≡ []) × (p.waiting ≡ []) × (p.running ≡ [])
    unfolding seems_done
    seems_done_lem is_test cpus count memory now steps h done none_submitting =
        let p =
          run fl to_lower clock wait steps
            (new_secure_worker_pool fl is_test cpus count memory now) in
        let v = run-IsAccounted is_test cpus count memory now steps h in
        let zero_active : p.active_jobs ≡ pos 0 = ground arith in
        let a : pos_part (pos 0) + p.submitting
            ≡ length p.jobs + (length p.waiting + length p.running) + neg_part (pos 0) =
          subst
            (λ i.
              pos_part i + p.submitting
              ≡ length p.jobs + (length p.waiting + length p.running) + neg_part i)
            zero_active v.active in
        (
          no_jobs p.jobs (omega (arith, a, none_submitting)),
          no_jobs p.waiting (omega (arith, a, none_submitting)),
          no_jobs p.running (omega (arith, a, none_submitting)),
        )
