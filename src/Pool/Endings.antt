-- ===== src/Pool/Endings.antt =====
-- The counters of the pool of internal/diagnostics/worker_pool.go where a worker ends a wait or a job.
use docker_net_doctor.Prelude.{
  ℕ, suc, ◌+◌, ◌≤◌, ◌<◌, ◌≡◌, refl, Bool, false, not, ◌&&◌, ◌||◌, Option, none, some, List, [], ◌∷◌,
  ◌++◌, arith, length, length-append, leb, if-cases, elim-cases,
}
use docker_net_doctor.Prelude.Int.{negsuc, pos_part, neg_part}
use docker_net_doctor.Prelude.Text.{Text}
use docker_net_doctor.Prelude.Float.{Float64}
use docker_net_doctor.Pool.{
  is_some, Pool, Job, JobResult, JobEnd, wait_ends, wait_ends_for, job_ends, job_ends_for, counted,
  pick, is_full, update_metrics, max_queue_size, execute_job,
}
use docker_net_doctor.Pool.Accounts.{IsAccounted, length-pick, plus_parts}

module _ (fl : Float64) where
  not_full :
      (r : JobResult) (rs : List JobResult)
      → leb max_queue_size (length rs) ≡ false
      → length (rs ++ (r ∷ [])) ≤ max_queue_size
  not_full r rs h = let l = length-append rs (r ∷ []) in ground arith

  wait_ends_for-IsAccounted :
      (answer : Option Text) (j : Job) (rest : List Job) (p : Pool fl)
      → length p.waiting ≡ suc (length rest)
      → (is_some answer && is_full fl p) ≡ false
      → IsAccounted fl p
      → IsAccounted fl (wait_ends_for fl answer j rest p)
  unfolding wait_ends_for
  wait_ends_for-IsAccounted none j rest p l room v = record {
    active = omega (arith, v.active, l);
    busy_alive = omega (arith, v.busy_alive, l);
    alive_workers = v.alive_workers;
    not_yet = v.not_yet;
    some_workers = v.some_workers;
    queue_bounded = v.queue_bounded;
    results_bounded = v.results_bounded;
    ended_bounded = omega (arith, v.ended_bounded, l);
  }
  wait_ends_for-IsAccounted (some e) j rest p l room v = record {
    active = omega (arith, v.active, l, plus_parts fl p.active_jobs (negsuc 0));
    busy_alive = omega (arith, v.busy_alive, l);
    alive_workers = v.alive_workers;
    not_yet = v.not_yet;
    some_workers = v.some_workers;
    queue_bounded = v.queue_bounded;
    results_bounded = not_full _ p.results room;
    ended_bounded = omega (arith, v.ended_bounded, l);
  }

  pub wait_ends-IsAccounted :
      (wait : Bool → ℕ → Option Text) (moment n : ℕ) (p : Pool fl)
      → IsAccounted fl p
      → IsAccounted fl (wait_ends fl wait moment n p)
  unfolding wait_ends
  wait_ends-IsAccounted wait moment n p v =
      elim-cases (IsAccounted fl) (pick n p.waiting) (λ e. v)
        λ t e.
          if-cases (IsAccounted fl) (is_some (wait (t.0).cancelled moment) && is_full fl p) (λ y. v)
            λ room.
              wait_ends_for-IsAccounted (wait (t.0).cancelled moment) t.0 t.1 p
                (length-pick fl n p.waiting t e) room v

  -- What a job that ends leaves: the result may have been sent or not.
  counted-IsAccounted :
      (e : JobEnd fl) (error : Option Text) (p : Pool fl)
      → p.completed_jobs + p.failed_jobs + length p.jobs + (length p.waiting + length p.running)
        < p.next_ticket
      → IsAccounted fl p
      → IsAccounted fl (counted fl e error p)
  unfolding counted
  counted-IsAccounted e none p h v = record {
    active = v.active;
    busy_alive = v.busy_alive;
    alive_workers = v.alive_workers;
    not_yet = v.not_yet;
    some_workers = v.some_workers;
    queue_bounded = v.queue_bounded;
    results_bounded = v.results_bounded;
    ended_bounded = omega (arith, h);
  }
  counted-IsAccounted e (some x) p h v = record {
    active = v.active;
    busy_alive = v.busy_alive;
    alive_workers = v.alive_workers;
    not_yet = v.not_yet;
    some_workers = v.some_workers;
    queue_bounded = v.queue_bounded;
    results_bounded = v.results_bounded;
    ended_bounded = omega (arith, h);
  }

  job_ends_for-IsAccounted :
      (e : JobEnd fl) (j : Job) (rest : List Job) (p : Pool fl)
      → length p.running ≡ suc (length rest)
      → (is_full fl p && not p.context_done) ≡ false
      → IsAccounted fl p
      → IsAccounted fl (job_ends_for fl e j rest p)
  unfolding job_ends_for update_metrics execute_job
  job_ends_for-IsAccounted e j rest p l room v =
      if-cases (IsAccounted fl) (p.context_done && (e.done_first || is_full fl p))
        (λ y. record {
          active = omega (arith, v.active, l, plus_parts fl p.active_jobs (negsuc 0));
          busy_alive = omega (arith, v.busy_alive, l, plus_parts fl p.alive (negsuc 0));
          alive_workers = omega (arith, v.alive_workers, plus_parts fl p.alive (negsuc 0));
          not_yet = λ n. absurd (omega (arith, l, v.busy_alive, gone n));
          some_workers = v.some_workers;
          queue_bounded = v.queue_bounded;
          results_bounded = v.results_bounded;
          ended_bounded = omega (arith, v.ended_bounded, l);
        })
        (λ n. counted-IsAccounted e _ _ (omega (arith, v.ended_bounded, l)) (record {
          active = omega (arith, v.active, l, plus_parts fl p.active_jobs (negsuc 0));
          busy_alive = omega (arith, v.busy_alive, l);
          alive_workers = v.alive_workers;
          not_yet = v.not_yet;
          some_workers = v.some_workers;
          queue_bounded = v.queue_bounded;
          results_bounded = not_full _ p.results (ground arith);
          ended_bounded = omega (arith, v.ended_bounded, l);
        }))
    where
      gone : p.started ≡ false → pos_part p.alive + neg_part p.alive ≡ 0
      gone n = rw (v.not_yet n) refl

  pub job_ends-IsAccounted :
      (e : JobEnd fl) (n : ℕ) (p : Pool fl) → IsAccounted fl p → IsAccounted fl (job_ends fl e n p)
  unfolding job_ends
  job_ends-IsAccounted e n p v =
      elim-cases (IsAccounted fl) (pick n p.running) (λ h. v)
        λ t h.
          if-cases (IsAccounted fl) (is_full fl p && not p.context_done) (λ y. v)
            λ room. job_ends_for-IsAccounted e t.0 t.1 p (length-pick fl n p.running t h) room v
