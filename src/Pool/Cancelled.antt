-- ===== src/Pool/Cancelled.antt =====
-- What becomes of jobs whose context Submit (internal/diagnostics/worker_pool.go) has cancelled, as it
-- does on its return, and of a parallel Run of internal/diagnostics/engine.go over them.
use docker_net_doctor.Prelude.{
  ℕ, zero, suc, ◌≤◌, ◌≡◌, refl, Bool, true, ◌&&◌, Option, none, some, List, [], ◌∷◌, ◌++◌, arith,
  length, All, ◌==◌, if-cases, elim-cases, ap, ◌∙◌, subst, map, &&_iff,
}
use mathlib.Core.List.{append-nil}
use docker_net_doctor.Prelude.Int.{ℤ, pos, leb_ℤ}
use docker_net_doctor.Prelude.Text.{Text}
use docker_net_doctor.Prelude.Float.{Float64}
use docker_net_doctor.Security.{Check}
use docker_net_doctor.Limiter.{Bucket, LimitError}
use docker_net_doctor.Engine.Runs.{
  Event, received, closed, timed_out, context_done, Visit, DiagnosticEngine, PoolFigures, collect,
  complete, waiting, Collected, kept, run_parallel, reported, conclude,
}
use docker_net_doctor.Engine.Runs
use docker_net_doctor.Engine.{CheckResult}
use docker_net_doctor.Engine.Summaries.{calculate_summary_lem}
use docker_net_doctor.Engine.Collecting.{run-parallel}
use docker_net_doctor.Pool.{
  is_some, Pool, Job, JobResult, start, submit_start, submit_guards, submit_end, take, take_from,
  wait_ends, wait_ends_for, job_ends, receive, stop, context_ends, pick, is_full, cancel,
  new_secure_worker_pool, busy,
}
use docker_net_doctor.Pool.Steps.{
  Step, starts, stops, takes, receives, context_is_over, submits, submit_returns, waits, ends,
  samples, step, run, arriving,
}

-- A result of a job that carries no CheckResult.
abbrev pub IsNil : Event → Type 0
IsNil (received r d) = r ≡ none
IsNil _ = ⊥

All-append : (xs ys : List Event) → All IsNil xs → All IsNil ys → All IsNil (xs ++ ys)
All-append [] ys a b = b
All-append (x ∷ xs) ys (h, a) b = (h, All-append xs ys a b)

collect-nil :
    (events : List Event) (left : ℕ) (results : List CheckResult)
    → All IsNil events
    → left ≤ length events
    → collect events left results ≡ complete results
unfolding collect
collect-nil events zero results a le = refl
collect-nil [] (suc left) results a le = absurd (omega (arith, le))
collect-nil (received (some r) d ∷ rest) (suc left) results a le = cc
collect-nil (received none d ∷ rest) (suc left) results a le =
    ap (collect rest left) (append-nil results)
    ∙ collect-nil rest left results a.1 (omega (arith, le))
collect-nil (closed ∷ rest) (suc left) results a le = absurd a.0
collect-nil (timed_out ∷ rest) (suc left) results a le = absurd a.0
collect-nil (context_done ∷ rest) (suc left) results a le = absurd a.0

module _ (fl : Float64) where
  -- Nothing runs or has been completed, and no result that waits for the reader carries a CheckResult.
  record IsBarren (p : Pool fl) : Type 0 where
    idle : p.running ≡ []
    none_completed : p.completed_jobs ≡ 0
    nil_results : All (λ r. r.result ≡ none) p.results

  nil-append :
      (rs : List JobResult) (r : JobResult)
      → All (λ r. r.result ≡ none) rs
      → r.result ≡ none
      → All (λ r. r.result ≡ none) (rs ++ (r ∷ []))
  nil-append [] r a e = (e, tt)
  nil-append (s ∷ rs) r (b, a) e = (b, nil-append rs r a e)

  module _ (to_lower : Text → Text) (clock : ℕ → ℕ) (wait : Bool → ℕ → Option Text)
      (cancelled_fails : (n : ℕ) → (e : Text) × (wait true n ≡ some e)) where
    -- A wait for the limiter whose job's context is done when it starts, which it is once the job's
    -- Submit has returned.
    abbrev pub late_step : Step fl → Pool fl → Bool
    late_step (waits moment n) p = elim (pick n p.waiting) [
      | none ↦ true
      | some t ↦ (t.0).cancelled
    ]
    late_step _ p = true

    abbrev pub all_late : List (Step fl) → Pool fl → Bool
    all_late [] p = true
    all_late (s ∷ rest) p = late_step s p && all_late rest (step fl to_lower clock wait s p)

    -- What the reader receives over a sequence of steps.
    unfoldable pub delivered : List (Step fl) → Pool fl → List Event
    delivered [] p = []
    delivered (s ∷ rest) p =
        arriving fl to_lower clock wait s p ++ delivered rest (step fl to_lower clock wait s p)

    wait_ends-IsBarren :
        (moment n : ℕ) (p : Pool fl)
        → late_step (waits moment n) p ≡ true
        → IsBarren p
        → IsBarren (wait_ends fl wait moment n p)
    unfolding wait_ends wait_ends_for
    wait_ends-IsBarren moment n p late v =
        elim-cases IsBarren (pick n p.waiting) (λ e. v)
          λ t e.
            if-cases IsBarren (is_some (wait (t.0).cancelled moment) && is_full fl p) (λ y. v)
              λ room.
                let c : (t.0).cancelled ≡ true = was_cancelled t e in
                rw (c, (cancelled_fails moment).1)
                  (record {
                    idle = v.idle;
                    none_completed = v.none_completed;
                    nil_results = nil-append p.results _ v.nil_results refl;
                  })
      where
        was_cancelled : (t : Job × List Job) → pick n p.waiting ≡ some t → (t.0).cancelled ≡ true
        was_cancelled t e = ground arith

    submit-IsBarren :
        (memory : ℕ) (first : Bool) (check : Check) (p : Pool fl)
        → IsBarren p
        → IsBarren (submit_start fl to_lower clock memory first check p).0
    unfolding submit_start submit_guards
    submit-IsBarren memory first check p v = ground arith

    receive-IsBarren : (p : Pool fl) → IsBarren p → IsBarren (receive fl p)
    unfolding receive
    receive-IsBarren p v = from p.results refl
      where
        from :
            (rs : List JobResult)
            → p.results ≡ rs
            → IsBarren (elim rs [ [] ↦ p | r ∷ rest ↦ record p { results = rest } ])
        from [] e = v
        from (r ∷ rs) e = record {
          idle = v.idle;
          none_completed = v.none_completed;
          nil_results = (subst (λ l. All (λ x. x.result ≡ none) l) e v.nil_results).1;
        }

    take_from-IsBarren : (js : List Job) (p : Pool fl) → IsBarren p → IsBarren (take_from fl js p)
    unfolding take_from
    take_from-IsBarren [] p v = v
    take_from-IsBarren (j ∷ js) p v =
        if-cases IsBarren p.context_done
          (λ y. record {
            idle = v.idle;
            none_completed = v.none_completed;
            nil_results = v.nil_results;
          })
          (λ n. record {
            idle = v.idle;
            none_completed = v.none_completed;
            nil_results = v.nil_results;
          })

    none_running : (n : ℕ) (js : List Job) (t : Job × List Job) → js ≡ [] → pick n js ≡ some t → ⊥
    unfolding pick
    none_running n [] t e h = cc
    none_running n (j ∷ js) t e h = cc

    step-IsBarren :
        (s : Step fl) (p : Pool fl)
        → late_step s p ≡ true
        → IsBarren p
        → IsBarren (step fl to_lower clock wait s p)
    unfolding step start stop submit_end take take_from job_ends context_ends pick
    step-IsBarren starts p l v = ground arith
    step-IsBarren stops p l v = ground arith
    step-IsBarren takes p l v =
        if-cases IsBarren (leb_ℤ p.alive (pos (busy fl p))) (λ y. v)
          (λ n. take_from-IsBarren p.jobs p v)
    step-IsBarren receives p l v = receive-IsBarren p v
    step-IsBarren context_is_over p l v = record {
      idle = ap (map {A = Job} (λ j. record j { cancelled = true })) v.idle;
      none_completed = v.none_completed;
      nil_results = v.nil_results;
    }
    step-IsBarren (submits memory first check) p l v = submit-IsBarren memory first check p v
    step-IsBarren (submit_returns ticket) p l v =
        if-cases IsBarren (p.submitting == 0) (λ y. v)
          λ n. record {
            idle = ap (map (cancel fl ticket)) v.idle;
            none_completed = v.none_completed;
            nil_results = v.nil_results;
          }
    step-IsBarren (waits moment n) p l v = wait_ends-IsBarren moment n p l v
    step-IsBarren (ends e n) p l v =
        elim-cases IsBarren (pick n p.running) (λ h. v)
          λ t h. absurd (none_running n p.running t v.idle h)
    step-IsBarren (samples memory) p l v = record {
      idle = v.idle;
      none_completed = v.none_completed;
      nil_results = v.nil_results;
    }

    arriving-IsNil :
        (s : Step fl) (p : Pool fl) → IsBarren p → All IsNil (arriving fl to_lower clock wait s p)
    arriving-IsNil starts p v = tt
    arriving-IsNil stops p v = tt
    arriving-IsNil takes p v = tt
    arriving-IsNil receives p v = from p.results v.nil_results
      where
        from :
            (rs : List JobResult)
            → All (λ r. r.result ≡ none) rs
            → All IsNil (elim rs [ [] ↦ [] | r ∷ rest ↦ received r.result r.duration ∷ [] ])
        from [] a = tt
        from (r ∷ rs) a = (a.0, tt)
    arriving-IsNil context_is_over p v = tt
    arriving-IsNil (submits memory first check) p v = tt
    arriving-IsNil (submit_returns ticket) p v = tt
    arriving-IsNil (waits moment n) p v = tt
    arriving-IsNil (ends e n) p v = tt
    arriving-IsNil (samples memory) p v = tt

    delivered-IsNil :
        (steps : List (Step fl)) (p : Pool fl)
        → all_late steps p ≡ true
        → IsBarren p
        → All IsNil (delivered steps p) × ((run fl to_lower clock wait steps p).completed_jobs ≡ 0)
    unfolding delivered run
    delivered-IsNil [] p l v = (tt, v.none_completed)
    delivered-IsNil (s ∷ rest) p l v =
        let (a, b) =
          (&&_iff (late_step s p) (all_late rest (step fl to_lower clock wait s p))).0 l in
        let (h, c) =
          delivered-IsNil rest (step fl to_lower clock wait s p) b (step-IsBarren s p a v) in
        (All-append (arriving fl to_lower clock wait s p) _ (arriving-IsNil s p v) h, c)

    -- The jobs whose wait for the rate limiter starts once their Submit has returned are lost, as the
    -- limiter fails for a context that is done: over any steps in which every wait is such a one, a new
    -- pool completes no job and delivers no result. A parallel Run that has received as many of its
    -- answers as it has checks then reports, with no result of its own, as if there were no checks.
    pub late_jobs_are_lost :
        {b : Bucket fl.Float} (show_limit : LimitError b.Error → Text)
        (visit : ℕ → Visit fl b show_limit) (is_test : Bool) (cpus count : ℤ) (memory now : ℕ)
        (steps : List (Step fl)) (e : DiagnosticEngine fl b show_limit)
        (figures : PoolFigures fl b show_limit) (total : ℕ)
        → let p = new_secure_worker_pool fl is_test cpus count memory now in
          all_late steps p ≡ true
          → e.config.parallel ≡ true
          → length e.checks ≤ length (delivered steps p)
          → ((run fl to_lower clock wait steps p).completed_jobs ≡ 0)
            × ((t : DiagnosticEngine fl b show_limit) × (Runs.run fl b show_limit visit
                    (delivered steps p)
                    figures
                    total
                    e
                  ≡ reported t)
                × (t.results ≡ e.results)
                × (t.summary.total_checks ≡ length e.results))
    unfolding new_secure_worker_pool run_parallel conclude
    late_jobs_are_lost {b} show_limit visit is_test cpus count memory now steps e figures total late
          parallel enough =
        let p = new_secure_worker_pool fl is_test cpus count memory now in
        let (nils, none_completed) =
          delivered-IsNil steps p late
            (record { idle = refl; none_completed = refl; nil_results = tt }) in
        let c = collect-nil (delivered steps p) (length e.checks) e.results nils enough in
        (
          none_completed,
          rw
              (
                run-parallel fl b show_limit visit e (delivered steps p) figures total parallel,
                run_parallel,
                c,
              )
              (_, refl, refl, (calculate_summary_lem e.checks e.results).2),
        )
