-- ===== src/Engine/Sequence.antt =====
-- How Run of internal/diagnostics/engine.go ends.
use docker_net_doctor.Prelude.{
  ℕ, ◌+◌, ◌≡◌, refl, ◌≢◌, inl, inr, ◌⊎◌, true, false, not, ◌&&◌, Option, none, some, List, [], ◌∷◌,
  ◌++◌, arith, length, Bool-cases, Option-cases, ap, ◌∙◌, sym, length-append,
}
use mathlib.Core.List.{append-nil, append_assoc}
use docker_net_doctor.Prelude.Int.{ℤ}
use docker_net_doctor.Prelude.Text.{Text}
use docker_net_doctor.Prelude.Float.{Float64}
use docker_net_doctor.Security.{Check}
use docker_net_doctor.Limiter.{Bucket, LimitError, RateLimiter, wait, active}
use docker_net_doctor.Engine.{
  CheckResult, Outcome, panicked, failed, no_result, returned, run_check_safely,
  should_stop_on_failure,
}
use docker_net_doctor.Engine.Summaries.{calculate_summary_lem}
use docker_net_doctor.Engine.Runs.{
  Visit, rate_limited, sequential_from, run_sequential, DiagnosticEngine, Ended, reported, crashed,
  run, conclude, Event, PoolFigures,
}

run_check_safely-some :
    (c : Check) (o : Outcome) (d : ℕ) → o ≢ panicked → run_check_safely c o d ≢ none
unfolding run_check_safely
run_check_safely-some c panicked d h = λ e. h refl
run_check_safely-some c (failed t) d h = λ e. cc
run_check_safely-some c no_result d h = λ e. cc
run_check_safely-some c (returned r) d h = λ e. cc

not_stopped :
    (r : CheckResult) (c : Check)
    → (not r.success && should_stop_on_failure c) ≡ false
    → (r.success ≡ true) ⊎ (should_stop_on_failure c ≡ false)
not_stopped r c on = elim (Bool-cases r.success) [
  | inl good ↦ inl good
  | inr bad ↦ inr (ground arith)
]

module _ (fl : Float64) (b : Bucket fl.Float) (show_limit : LimitError b.Error → Text)
    (visit : ℕ → Visit fl b show_limit) where
  -- The limiter after the wait of a visit, and its answer.
  abbrev pub waited : ℕ → RateLimiter fl b → RateLimiter fl b × Option (LimitError b.Error)
  waited i rl = wait fl b (visit i).ctx (visit i).waited (visit i).now rl

  -- What runCheckSafely returns in a visit.
  abbrev pub checked : ℕ → Check → Option CheckResult
  checked i c = run_check_safely c (visit i).outcome (visit i).inner

  -- The result of a check with the duration that runSequential measures.
  abbrev pub timed : ℕ → CheckResult → CheckResult
  timed i r = record r { duration = (visit i).outer }

  -- The results for checks from a position on, with the limiter there.
  pub data Reports : ℕ → RateLimiter fl b → List Check → List CheckResult → Type 0 where
    ended : {i : ℕ} {rl : RateLimiter fl b} → Reports i rl [] []
    refused :
        {i : ℕ} {rl : RateLimiter fl b} {c : Check} {cs : List Check} {rs : List CheckResult}
        {e : LimitError b.Error}
        → (waited i rl).1 ≡ some e
        → Reports (i + 1) (waited i rl).0 cs rs
        → Reports i rl (c ∷ cs) (rate_limited fl b show_limit c e ∷ rs)
    stopped :
        {i : ℕ} {rl : RateLimiter fl b} {c : Check} {cs : List Check} {r : CheckResult}
        → (waited i rl).1 ≡ none
        → checked i c ≡ some r
        → r.success ≡ false
        → should_stop_on_failure c ≡ true
        → Reports i rl (c ∷ cs) (timed i r ∷ [])
    went_on :
        {i : ℕ} {rl : RateLimiter fl b} {c : Check} {cs : List Check} {r : CheckResult}
        {rs : List CheckResult}
        → (waited i rl).1 ≡ none
        → checked i c ≡ some r
        → (r.success ≡ true) ⊎ (should_stop_on_failure c ≡ false)
        → Reports (i + 1) (waited i rl).0 cs rs
        → Reports i rl (c ∷ cs) (timed i r ∷ rs)

  -- A loop that ends with further results.
  record Ends (i : ℕ) (rl : RateLimiter fl b) (cs : List Check) (results : List CheckResult)
      (o : Option (RateLimiter fl b × List CheckResult)) : Type 0 where
    limiter : RateLimiter fl b
    added : List CheckResult
    same : o ≡ some (limiter, results ++ added)
    reports : Reports i rl cs added

  further :
      {i : ℕ} {rl t : RateLimiter fl b} {c : Check} {cs : List Check} {results : List CheckResult}
      {o : Option (RateLimiter fl b × List CheckResult)} (r : CheckResult)
      → ((rs : List CheckResult) → Reports (i + 1) t cs rs → Reports i rl (c ∷ cs) (r ∷ rs))
      → Ends (i + 1) t cs (results ++ (r ∷ [])) o
      → Ends i rl (c ∷ cs) results o
  further {results = results} r f h = record {
    limiter = h.limiter;
    added = r ∷ h.added;
    same = h.same ∙ ap (λ l. some (h.limiter, l)) (append_assoc results (r ∷ []) h.added);
    reports = f h.added h.reports;
  }

  module _ (calm : (i : ℕ) → (visit i).outcome ≢ panicked) where
    sequential_from-Ends :
        (i : ℕ) (cs : List Check) (rl : RateLimiter fl b) (results : List CheckResult)
        → Ends i rl cs results (sequential_from fl b show_limit visit i cs rl results)
    unfolding sequential_from
    sequential_from-Ends i [] rl results = record {
      limiter = rl;
      added = [];
      same = ap (λ l. some (rl, l)) (sym (append-nil results));
      reports = ended;
    }
    sequential_from-Ends i (c ∷ cs) rl results =
        let t = (waited i rl).0 in
        let go : (r : CheckResult)
            → ((rs : List CheckResult) → Reports (i + 1) t cs rs → Reports i rl (c ∷ cs) (r ∷ rs))
            → Ends i rl (c ∷ cs) results
                (sequential_from fl b show_limit visit (i + 1) cs t (results ++ (r ∷ []))) =
          λ r f. further r f (sequential_from-Ends (i + 1) cs t (results ++ (r ∷ []))) in
        elim (Option-cases (waited i rl).1) [
          | inr (e, w) ↦
              rw (sequential_from, w) (go (rate_limited fl b show_limit c e) (λ rs h. refused w h))
          | inl w ↦ elim (Option-cases (checked i c)) [
            | inl n ↦ absurd (run_check_safely-some c (visit i).outcome (visit i).inner (calm i) n)
            | inr (r, s) ↦ elim (Bool-cases (not r.success && should_stop_on_failure c)) [
              | inl stop ↦
                  rw (sequential_from, w, s, stop)
                    (record {
                      limiter = t;
                      added = timed i r ∷ [];
                      same = refl;
                      reports = stopped w s (ground arith) (ground arith);
                    })
              | inr on ↦
                  rw (sequential_from, w, s, on)
                    (go (timed i r) (λ rs h. went_on w s (not_stopped r c on) h))
            ]
          ]
        ]

  -- A run that reports: the results are those before it and one for each check that it visits.
  pub record Reported (e : DiagnosticEngine fl b show_limit) (o : Ended fl b show_limit)
      : Type 0 where
    pub final : DiagnosticEngine fl b show_limit
    pub added : List CheckResult
    pub same : o ≡ reported final
    pub results_added : final.results ≡ e.results ++ added
    pub one_each : Reports 0 e.rate_limiter e.checks added
    pub counted :
        final.summary.passed_checks + final.summary.failed_checks ≡ length e.results + length added

  -- A sequential Run during which no check panics reports. It adds one result for each check in their
  -- order: the refusal, exactly if the rate limiter refuses the wait, and else what the check has
  -- returned, with the duration measured. It stops after the first failure that the check has returned
  -- itself of a check that stops a run, and at no other result; and the summary counts these results and
  -- those of earlier runs.
  pub run-Reported :
      (e : DiagnosticEngine fl b show_limit) (events : List Event)
      (figures : PoolFigures fl b show_limit) (total : ℕ)
      → e.config.parallel ≡ false
      → ((i : ℕ) → (visit i).outcome ≢ panicked)
      → Reported e (run fl b show_limit visit events figures total e)
  unfolding run run_sequential conclude
  run-Reported e events figures total s calm =
      let h = sequential_from-Ends calm 0 e.checks e.rate_limiter e.results in
      let (sums, passes, n, issues, none_warned) =
        calculate_summary_lem e.checks (e.results ++ h.added) in
      rw (run, s, h.same)
        (record {
          final = _;
          added = h.added;
          same = refl;
          results_added = refl;
          one_each = h.reports;
          counted = sym sums ∙ n ∙ length-append e.results h.added;
        })

  -- Visits of checks that neither panic nor stop the run.
  abbrev pub Passes : ℕ → List Check → Type 0
  Passes i [] = Unit {0}
  Passes i (c ∷ cs) =
      ((visit i).outcome ≢ panicked) × (should_stop_on_failure c ≡ false) × Passes (i + 1) cs

  module _
      (grants : (l : b.Limiter) (ctx : b.Context) (t : Option ℤ)
        → (b.wait_token l ctx t).1 ≡ none) where
    wait-none :
        (ctx : b.Context) (waited now : ℕ) (rl : RateLimiter fl b)
        → (wait fl b ctx waited now rl).1 ≡ none
    unfolding wait
    wait-none ctx waited now rl = elim (Option-cases (active fl b rl)) [
      | inl off ↦ rw (wait, off) refl
      | inr (l, on) ↦ rw (wait, on, grants l ctx _) refl
    ]

    crashes_after :
        (before : List Check) (c : Check) (after : List Check) (i : ℕ) (rl : RateLimiter fl b)
        (results : List CheckResult)
        → Passes i before
        → (visit (i + length before)).outcome ≡ panicked
        → sequential_from fl b show_limit visit i (before ++ (c ∷ after)) rl results ≡ none
    unfolding sequential_from run_check_safely
    crashes_after [] c after i rl results p h =
        let v = visit i in
        let h' : v.outcome ≡ panicked = ap (λ j. (visit j).outcome) (omega arith) ∙ h in
        rw (sequential_from, wait-none v.ctx v.waited v.now rl, h') refl
    crashes_after (d ∷ ds) c after i rl results (calm, on, p) h =
        let v = visit i in
        let h' : (visit (i + 1 + length ds)).outcome ≡ panicked =
          ap (λ j. (visit j).outcome) (omega arith) ∙ h in
        let later = λ (rs : List CheckResult).
          crashes_after ds c after (i + 1) (wait fl b v.ctx v.waited v.now rl).0 rs p h' in
        elim (Option-cases (run_check_safely d v.outcome v.inner)) [
          | inl n ↦ absurd (run_check_safely-some d v.outcome v.inner calm n)
          | inr (r, s) ↦ elim (Bool-cases r.success) [
            | inl good ↦ rw (sequential_from, wait-none v.ctx v.waited v.now rl, s, good) (later _)
            | inr bad ↦
                rw (sequential_from, wait-none v.ctx v.waited v.now rl, s, bad, on) (later _)
          ]
        ]

    -- A sequential Run whose rate limiter refuses no wait, and which reaches a check that panics, as no
    -- check before it panics or may stop the run, ends in a panic itself and reports nothing.
    pub run-crashed :
        (e : DiagnosticEngine fl b show_limit) (events : List Event)
        (figures : PoolFigures fl b show_limit) (total : ℕ) (before : List Check) (c : Check)
        (after : List Check)
        → e.config.parallel ≡ false
        → e.checks ≡ before ++ (c ∷ after)
        → Passes 0 before
        → (visit (length before)).outcome ≡ panicked
        → run fl b show_limit visit events figures total e ≡ crashed
    unfolding run run_sequential
    run-crashed e events figures total before c after s same p h =
        let h' : (visit (0 + length before)).outcome ≡ panicked =
          ap (λ j. (visit j).outcome) (omega arith) ∙ h in
        rw (run, s, same, crashes_after before c after 0 e.rate_limiter e.results p h') refl
