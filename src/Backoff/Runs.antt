-- ===== src/Backoff/Runs.antt =====
-- How Execute of internal/diagnostics/retry_policy.go ends.
use docker_net_doctor.Prelude.{
  ℕ, zero, suc, ◌+◌, ◌<◌, ◌≡◌, refl, inl, inr, Bool, true, false, Option, none, some, [], arith,
  Bool-cases, Option-cases,
}
use docker_net_doctor.Prelude.Int.{ℤ, pos_part}
use docker_net_doctor.Prelude.Text.{Text, codes}
use docker_net_doctor.Prelude.Float.{Float64}
use docker_net_doctor.Errors.{Error, wrapped}
use docker_net_doctor.Backoff.{RetryPolicyConfig, is_retryable, calculate_backoff_delay}
use docker_net_doctor.Backoff.Counts.{ended, Counts, retried-Counts, update_success_rate-Counts}
use docker_net_doctor.Backoff.Execute.{
  Result, ok, err, RetryMetrics, Environment, Run, over_budget, interrupted, budget_error,
  final_error, exhausted, retry_from, execute_run, retried, waited, one_failed, one_succeeded,
}

module _ {ℓ} {A : Type ℓ} (fl : Float64) (show_int show_duration : ℤ → Text)
    (c : RetryPolicyConfig fl) (env : Environment fl) (operation : ℕ → A × Option Error) where
  abbrev pub retries_on : Error → Bool
  retries_on e = is_retryable fl show_int c e

  -- The retry at an attempt takes place: the budget is left and the delay passes.
  abbrev pub TakesPlace : ℕ → Type 0
  TakesPlace a =
      (over_budget fl show_int show_duration c env a ≡ false)
      × (interrupted fl show_int show_duration c env a ≡ none)

  -- Retries that take place and fail with errors to retry, from an attempt and the error before it to
  -- another attempt and the error before that.
  pub data Fails : ℕ → Error → ℕ → Error → Type ℓ where
    here : {a : ℕ} {last : Error} → Fails a last a last
    again :
        {a b : ℕ} {last e end : Error}
        → TakesPlace a
        → (operation a).1 ≡ some e
        → retries_on e ≡ true
        → Fails (a + 1) e b end
        → Fails a last b end

  -- How the loop ends at an attempt with that many retries left, after an error: with a result, and a
  -- number of calls of the operation in all.
  pub data Ends (a left : ℕ) (last : Error) : Result A → ℕ → Type ℓ where
    used_up : left ≡ 0 → Ends a left last (err (final_error fl show_int show_duration c env last)) a
    over :
        0 < left
        → over_budget fl show_int show_duration c env a ≡ true
        → Ends a left last (err (budget_error fl show_int show_duration c env a last)) a
    ended_by_context :
        {e : Error}
        → 0 < left
        → over_budget fl show_int show_duration c env a ≡ false
        → interrupted fl show_int show_duration c env a ≡ some e
        → Ends a left last (err e) a
    succeeds :
        0 < left
        → TakesPlace a
        → (operation a).1 ≡ none
        → Ends a left last (ok (operation a).0) (a + 1)
    is_fatal :
        {e : Error}
        → 0 < left
        → TakesPlace a
        → (operation a).1 ≡ some e
        → retries_on e ≡ false
        → Ends a left last (err (final_error fl show_int show_duration c env e)) (a + 1)

  -- A loop from an attempt, with so many retries left and an error before it. It counts a retry for
  -- each of its calls, and one end.
  pub record Loop (a left : ℕ) (last : Error) (m : RetryMetrics fl) (r : Run fl A) : Type ℓ where
    pub attempt : ℕ
    pub remaining : ℕ
    pub error_before : Error
    pub budget : attempt + remaining ≡ a + left
    pub failures : Fails a last attempt error_before
    pub ending : Ends attempt remaining error_before r.result r.calls
    pub retries_counted : r.metrics.total_retries + a ≡ m.total_retries + r.calls
    pub end_counted : ended fl r.metrics ≡ ended fl m + 1

  retry_from-Loop :
      (left a : ℕ) (last : Error) (m : RetryMetrics fl)
      → Loop a left last m (retry_from fl show_int show_duration c env operation left a last m)
  unfolding retry_from exhausted
  retry_from-Loop zero a last m = record {
    attempt = a;
    remaining = 0;
    error_before = last;
    budget = refl;
    failures = here;
    ending = used_up refl;
    retries_counted =
        let (n, e) = update_success_rate-Counts fl (one_failed fl m) in omega (arith, n);
    end_counted = let (n, e) = update_success_rate-Counts fl (one_failed fl m) in omega (arith, e);
  }
  retry_from-Loop (suc left) a last m =
      elim (Bool-cases (over_budget fl show_int show_duration c env a)) [
        | inl o ↦ rw (retry_from, o) (stops (over (omega arith) o) refl (omega arith))
        | inr n ↦ elim (Option-cases (interrupted fl show_int show_duration c env a)) [
          | inr (e, i) ↦
              rw (retry_from, n, i) (stops (ended_by_context (omega arith) n i) refl (omega arith))
          | inl w ↦ elim (Option-cases (operation a).1) [
            | inl f ↦
                rw (retry_from, n, w, f)
                  (stops (succeeds (omega arith) (n, w) f)
                    (counted (update_success_rate-Counts fl (one_succeeded fl after)).0)
                    (omega (
                      arith,
                      (update_success_rate-Counts fl (one_succeeded fl after)).1,
                      after_counts.1,
                    )))
            | inr (e, f) ↦ elim (Bool-cases (retries_on e)) [
              | inr no_more ↦
                  rw (retry_from, n, w, f, no_more)
                    (stops (is_fatal (omega arith) (n, w) f no_more)
                      (counted (update_success_rate-Counts fl (one_failed fl after)).0)
                      (omega (
                        arith,
                        (update_success_rate-Counts fl (one_failed fl after)).1,
                        after_counts.1,
                      )))
              | inl more ↦
                  rw (retry_from, n, w, f, more)
                    (let tail = retry_from-Loop left (a + 1) e after in
                      record {
                        attempt = tail.attempt;
                        remaining = tail.remaining;
                        error_before = tail.error_before;
                        budget = omega (arith, tail.budget);
                        failures = again (n, w) f more tail.failures;
                        ending = tail.ending;
                        retries_counted = omega (arith, tail.retries_counted, after_counts.0);
                        end_counted = omega (arith, tail.end_counted, after_counts.1);
                      })
            ]
          ]
        ]
      ]
    where
      after : RetryMetrics fl
      after =
          retried fl (env.duration a) last
            (waited fl (calculate_backoff_delay fl c (env.random a) a) m)

      after_counts : Counts fl after (m.total_retries + 1) (ended fl m)
      after_counts =
          retried-Counts fl (env.duration a) last
            (waited fl (calculate_backoff_delay fl c (env.random a) a) m)

      counted : {n : ℕ} → n ≡ after.total_retries → n + a ≡ m.total_retries + (a + 1)
      counted e = omega (arith, e, after_counts.0)

      stops :
          {r : Run fl A}
          → Ends a (suc left) last r.result r.calls
          → r.metrics.total_retries + a ≡ m.total_retries + r.calls
          → ended fl r.metrics ≡ ended fl m + 1
          → Loop a (suc left) last m r
      stops ends retries end = record {
        attempt = a;
        remaining = suc left;
        error_before = last;
        budget = refl;
        failures = here;
        ending = ends;
        retries_counted = retries;
        end_counted = end;
      }

  -- How Execute ends: its first call succeeds, or fails with an error that is not to be retried, or
  -- fails with one that is, and then the loop of retries ends.
  pub data Executes (m : RetryMetrics fl) (r : Run fl A) : Type ℓ where
    at_once :
        (operation 0).1 ≡ none
        → r.result ≡ ok (operation 0).0
        → r.calls ≡ 1
        → (r.metrics.total_retries ≡ m.total_retries) × (ended fl r.metrics ≡ ended fl m + 1)
        → Executes m r
    not_retryable :
        {e : Error}
        → (operation 0).1 ≡ some e
        → retries_on e ≡ false
        → r.result ≡ err (wrapped (codes "error is not retryable: ") e [])
        → r.calls ≡ 1
        → r.metrics ≡ m
        → Executes m r
    after_retries :
        {e : Error}
        → (operation 0).1 ≡ some e
        → retries_on e ≡ true
        → Loop 1 (pos_part c.max_retries) e m r
        → Executes m r

  -- Execute returns after no more than the retries that its settings allow, in one of these ways: the
  -- first call succeeds; it fails for good; or the retries up to some attempt all take place and fail
  -- with errors to retry, and then none are left, or the budget is used up, or the context is done, or
  -- the next one succeeds, or it fails for good. The result and the number of calls say which; the
  -- metrics count every retry, and one end of the run unless the first call failed for good.
  pub execute_run-Executes :
      (m : RetryMetrics fl) → Executes m (execute_run fl show_int show_duration c env operation m)
  unfolding execute_run
  execute_run-Executes m = elim (Option-cases (operation 0).1) [
    | inl f ↦ rw (execute_run, f) (at_once f refl refl (refl, omega arith))
    | inr (e, f) ↦ elim (Bool-cases (retries_on e)) [
      | inr no_more ↦ rw (execute_run, f, no_more) (not_retryable f no_more refl refl refl)
      | inl more ↦
          rw (execute_run, f, more)
            (after_retries f more (retry_from-Loop (pos_part c.max_retries) 1 e m))
    ]
  ]
