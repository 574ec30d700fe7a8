-- ===== src/Pool/Accounts.antt =====
-- The counters of the pool of internal/diagnostics/worker_pool.go over any steps of its goroutines.
use docker_net_doctor.Prelude.{
  ℕ, zero, suc, ◌+◌, ◌≤◌, ◌<◌, ◌≡◌, refl, inl, inr, Bool, true, false, some, List, [], ◌∷◌, arith,
  ap, length, map, Bool-cases, Option-cases, if-cases, subst, ◌==◌,
}
use docker_net_doctor.Prelude.Int.{ℤ, pos, negsuc, pos_part, neg_part, ◌≤ℤ◌, ◌<ℤ◌, ◌+ℤ◌, leb_ℤ}
use docker_net_doctor.Prelude.Float.{Float64}
use docker_net_doctor.Pool.{
  Pool, Job, start, submit_end, take, take_from, context_ends, pick, busy, cancel, max_queue_size,
}

module _ (fl : Float64) where
  -- The number of jobs that ActiveJobs stands for: those in the queue and those that a worker has, less
  -- those whose Submit has yet to count them. No more workers are busy than have been started and have
  -- not returned; both channels keep within their capacity.
  pub record IsAccounted (p : Pool fl) : Type 0 where
    pub active :
        pos_part p.active_jobs + p.submitting
        ≡ length p.jobs + (length p.waiting + length p.running) + neg_part p.active_jobs
    pub busy_alive : pos (length p.waiting + length p.running) ≤ℤ p.alive
    pub alive_workers : p.alive ≤ℤ p.workers
    pub not_yet : p.started ≡ false → p.alive ≡ pos 0
    pub some_workers : pos 0 ≤ℤ p.workers
    pub queue_bounded : length p.jobs ≤ max_queue_size
    pub results_bounded : length p.results ≤ max_queue_size
    pub ended_bounded :
        p.completed_jobs + p.failed_jobs + length p.jobs + (length p.waiting + length p.running)
        ≤ p.next_ticket

  length-map : (f : Job → Job) (js : List Job) → length (map f js) ≡ length js
  length-map f [] = refl
  length-map f (j ∷ js) = ap suc (length-map f js)

  pub length-pick :
      (n : ℕ) (js : List Job) (t : Job × List Job)
      → pick n js ≡ some t
      → length js ≡ suc (length t.1)
  unfolding pick
  length-pick n [] t h = cc
  length-pick zero (j ∷ js) t h = ground arith
  length-pick (suc n) (j ∷ js) t h = elim (Option-cases (pick n js)) [
    | inl e ↦ ground arith
    | inr (u, e) ↦ let l = length-pick n js u e in ground arith
  ]

  -- A sum, by the parts of the two integers.
  pub plus_parts :
      (a b : ℤ)
      → pos_part (a +ℤ b) + (neg_part a + neg_part b) ≡ pos_part a + pos_part b + neg_part (a +ℤ b)
  plus_parts a b = ground arith

  pub start-IsAccounted : (p : Pool fl) → IsAccounted p → IsAccounted (start fl p).0
  unfolding start
  start-IsAccounted p v =
      if-cases (λ (t : Pool fl × Bool). IsAccounted t.0) p.started (λ y. v)
        λ n. record {
          active = v.active;
          busy_alive =
              let z = v.not_yet n in
              let b : pos (busy fl p) ≤ℤ pos 0 = subst (λ a. pos (busy fl p) ≤ℤ a) z v.busy_alive in
              omega (arith, b, v.some_workers);
          alive_workers = omega arith;
          not_yet = λ h. cc;
          some_workers = v.some_workers;
          queue_bounded = v.queue_bounded;
          results_bounded = v.results_bounded;
          ended_bounded = v.ended_bounded;
        }

  pub submit_end-IsAccounted :
      (ticket : ℕ) (p : Pool fl) → IsAccounted p → IsAccounted (submit_end fl ticket p)
  unfolding submit_end
  submit_end-IsAccounted ticket p v =
      let js = length-map (cancel fl ticket) p.jobs in
      let ws = length-map (cancel fl ticket) p.waiting in
      let rs = length-map (cancel fl ticket) p.running in
      if-cases IsAccounted (p.submitting == 0) (λ y. v)
        λ n. record {
          active =
              omega (arith, v.active, js, ws, rs, plus_parts p.active_jobs (pos 1), some_left n);
          busy_alive = omega (arith, v.busy_alive, ws, rs);
          alive_workers = v.alive_workers;
          not_yet = v.not_yet;
          some_workers = v.some_workers;
          queue_bounded = omega (arith, v.queue_bounded, js);
          results_bounded = v.results_bounded;
          ended_bounded = omega (arith, v.ended_bounded, js, ws, rs);
        }
    where
      some_left : (p.submitting == 0) ≡ false → 0 < p.submitting
      some_left n = ground arith

  pub context_ends-IsAccounted : (p : Pool fl) → IsAccounted p → IsAccounted (context_ends fl p)
  unfolding context_ends
  context_ends-IsAccounted p v =
      let over : Job → Job = λ j. record j { cancelled = true } in
      let js = length-map over p.jobs in
      let ws = length-map over p.waiting in
      let rs = length-map over p.running in
      record {
        active = omega (arith, v.active, js, ws, rs);
        busy_alive = omega (arith, v.busy_alive, ws, rs);
        alive_workers = v.alive_workers;
        not_yet = v.not_yet;
        some_workers = v.some_workers;
        queue_bounded = omega (arith, v.queue_bounded, js);
        results_bounded = v.results_bounded;
        ended_bounded = omega (arith, v.ended_bounded, js, ws, rs);
      }

  -- A worker that is there has been started.
  has_started : (p : Pool fl) → IsAccounted p → pos 0 <ℤ p.alive → p.started ≡ true
  has_started p v h = elim (Bool-cases p.started) [
    | inl y ↦ y
    | inr n ↦ absurd (omega (arith, subst (λ a. pos 0 <ℤ a) (v.not_yet n) h))
  ]

  take_from-IsAccounted :
      (js : List Job) (p : Pool fl)
      → p.jobs ≡ js
      → pos (busy fl p) <ℤ p.alive
      → IsAccounted p
      → IsAccounted (take_from fl js p)
  unfolding take_from
  take_from-IsAccounted [] p e h v = v
  take_from-IsAccounted (j ∷ js) p e h v =
      let l : length p.jobs ≡ suc (length js) = ap length e in
      let on = has_started p v (omega (arith, h)) in
      if-cases IsAccounted p.context_done
        (λ y. record {
          active = omega (arith, v.active, l, plus_parts p.active_jobs (negsuc 0));
          busy_alive = omega (arith, h, plus_parts p.alive (negsuc 0));
          alive_workers = omega (arith, v.alive_workers, plus_parts p.alive (negsuc 0));
          not_yet = λ n. cc;
          some_workers = v.some_workers;
          queue_bounded = omega (arith, v.queue_bounded, l);
          results_bounded = v.results_bounded;
          ended_bounded = omega (arith, v.ended_bounded, l);
        })
        (λ n. record {
          active = omega (arith, v.active, l);
          busy_alive = omega (arith, h);
          alive_workers = v.alive_workers;
          not_yet = v.not_yet;
          some_workers = v.some_workers;
          queue_bounded = omega (arith, v.queue_bounded, l);
          results_bounded = v.results_bounded;
          ended_bounded = omega (arith, v.ended_bounded, l);
        })

  pub take-IsAccounted : (p : Pool fl) → IsAccounted p → IsAccounted (take fl p)
  unfolding take
  take-IsAccounted p v =
      if-cases IsAccounted (leb_ℤ p.alive (pos (busy fl p))) (λ y. v)
        (λ n. take_from-IsAccounted p.jobs p refl (ground arith) v)
