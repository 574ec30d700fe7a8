-- ===== src/Backoff/Execute.antt =====
-- Execute of internal/diagnostics/retry_policy.go and its metrics. A run is given what its environment
-- does at each attempt: `random` is the random number for the delay, `elapsed` what time.Since has at
-- the check of the budget, `done` the error of the context if it is done before the delay has passed,
-- `duration` how long the retry takes; `total` is the time.Since at the end. Counters are unbounded.
use docker_net_doctor.Prelude.{
  ℕ, zero, suc, ◌+◌, Bool, true, false, not, ◌&&◌, Option, none, some, List, [], ◌∷◌, ◌++◌, ltb,
  if◌then◌else◌,
}
use docker_net_doctor.Prelude.Int.{ℤ, pos, ltb_ℤ, leb_ℤ, pos_part, quot, ◌+ℤ◌, mul_ℤ, wrap64}
use docker_net_doctor.Prelude.Dict.{Eq, lookup, insert}
use docker_net_doctor.Prelude.Text.{Text, codes}
use docker_net_doctor.Prelude.Float.{Float64}
use docker_net_doctor.Errors.{
  ErrorType, ErrorType-eq, ErrorCode-eq, connection, resource, Error, diagnostic, diagnosed,
  wrapped,
}
use docker_net_doctor.Backoff.{
  RetryPolicyConfig, default_config, with_defaults, calculate_backoff_delay, is_retryable,
}

-- `m[k]++` on a Go map: a missing key counts as 0.
abbrev pub increment {ℓ} : {K : Type ℓ} ⦃e : Eq K⦄ → K → List (K × ℕ) → List (K × ℕ)
increment k m = insert k (elim (lookup k m) [ none ↦ 1 | some n ↦ n + 1 ]) m

pub data Result {ℓ} (A : Type ℓ) : Type ℓ where
  ok : A → Result A
  err : Error → Result A

module _ (fl : Float64) where
  pub record RetryMetrics : Type 0 where
    pub total_retries : ℕ
    pub successful_retries : ℕ
    pub failed_retries : ℕ
    pub total_retry_time : ℤ
    pub average_retry_time : ℤ
    pub max_retry_time : ℤ
    pub total_backoff_time : ℤ
    pub average_backoff_time : ℤ
    pub max_backoff_time : ℤ
    pub retries_by_error_type : List (ErrorType × ℕ)
    pub retries_by_error_code : List (ℤ × ℕ)
    pub first_attempt_success : ℕ
    pub retry_success_rate : fl.Float

  abbrev pub no_metrics : RetryMetrics
  no_metrics = record {
    total_retries = 0;
    successful_retries = 0;
    failed_retries = 0;
    total_retry_time = pos 0;
    average_retry_time = pos 0;
    max_retry_time = pos 0;
    total_backoff_time = pos 0;
    average_backoff_time = pos 0;
    max_backoff_time = pos 0;
    retries_by_error_type = [];
    retries_by_error_code = [];
    first_attempt_success = 0;
    retry_success_rate = fl.decimal 0 0;
  }

  pub record RetryPolicy : Type 0 where
    pub config : RetryPolicyConfig fl
    pub metrics : RetryMetrics

  abbrev given : Option (RetryPolicyConfig fl) → RetryPolicyConfig fl
  given none = default_config fl
  given (some c) = c

  unfoldable pub new_retry_policy : Option (RetryPolicyConfig fl) → RetryPolicy
  new_retry_policy c = record { config = with_defaults fl (given c); metrics = no_metrics }

  unfoldable pub update_success_rate : RetryMetrics → RetryMetrics
  update_success_rate m =
      let ended = m.successful_retries + m.failed_retries in
      record m {
        retry_success_rate =
            if ltb 0 ended
            then fl.div (fl.of_int (pos m.successful_retries)) (fl.of_int (pos ended))
            else m.retry_success_rate;
        average_retry_time =
            if ltb 0 m.total_retries
            then quot m.total_retry_time m.total_retries
            else m.average_retry_time;
        average_backoff_time =
            if ltb 0 m.total_retries
            then quot m.total_backoff_time m.total_retries
            else m.average_backoff_time;
      }

  abbrev pub max_ℤ : ℤ → ℤ → ℤ
  max_ℤ a b = if ltb_ℤ b a then a else b

  abbrev pub waited : ℤ → RetryMetrics → RetryMetrics
  waited delay m = record m {
    total_backoff_time = m.total_backoff_time +ℤ delay;
    max_backoff_time = max_ℤ delay m.max_backoff_time;
  }

  -- The counters by kind, for a last error that is a *DiagnosticError.
  unfoldable pub by_kind : Error → RetryMetrics → RetryMetrics
  by_kind (diagnostic d) m = record m {
    retries_by_error_type = increment d.type m.retries_by_error_type;
    retries_by_error_code = increment d.code m.retries_by_error_code;
  }
  by_kind (diagnosed d e) m = record m {
    retries_by_error_type = increment d.type m.retries_by_error_type;
    retries_by_error_code = increment d.code m.retries_by_error_code;
  }
  by_kind _ m = m

  unfoldable pub retried : ℤ → Error → RetryMetrics → RetryMetrics
  unfolding by_kind
  retried duration last m = by_kind last (record m {
    total_retries = m.total_retries + 1;
    total_retry_time = m.total_retry_time +ℤ duration;
    max_retry_time = max_ℤ duration m.max_retry_time;
  })

  abbrev pub one_failed : RetryMetrics → RetryMetrics
  one_failed m = record m { failed_retries = m.failed_retries + 1 }

  abbrev pub one_succeeded : RetryMetrics → RetryMetrics
  one_succeeded m = record m { successful_retries = m.successful_retries + 1 }

  pub record Environment : Type 0 where
    pub random : ℕ → fl.Float
    pub elapsed : ℕ → ℤ
    pub done : ℕ → Option Error
    pub duration : ℕ → ℤ
    pub total : ℤ

  -- The end of a run of Execute, with the number of calls of the operation.
  pub record Run {ℓ} (A : Type ℓ) : Type ℓ where
    pub result : Result A
    pub metrics : RetryMetrics
    pub calls : ℕ

  module _ (show_int show_duration : ℤ → Text) (c : RetryPolicyConfig fl) (env : Environment) where
    abbrev pub over_budget : ℕ → Bool
    over_budget attempt =
        ltb_ℤ (pos 0) c.max_retry_budget && leb_ℤ c.max_retry_budget (env.elapsed attempt)

    -- The error of the context that ends the wait before an attempt.
    abbrev pub interrupted : ℕ → Option Error
    interrupted attempt = if c.respect_context then env.done attempt else none

    abbrev pub budget_error : ℕ → Error → Error
    budget_error attempt last =
        wrapped
          (codes "retry budget exhausted after "
            ++ show_duration (env.elapsed attempt)
            ++ codes ": ")
          last []

    abbrev pub final_error : Error → Error
    final_error last =
        wrapped
          (codes "operation failed after "
            ++ show_int c.max_retries
            ++ codes " retries in "
            ++ show_duration env.total
            ++ codes ": ")
          last []

    module _ {ℓ} {A : Type ℓ} (operation : ℕ → A × Option Error) where
      -- What follows the loop.
      unfoldable pub exhausted : ℕ → Error → RetryMetrics → Run A
      unfolding update_success_rate
      exhausted calls last m = record {
        result = err (final_error last);
        metrics = update_success_rate (one_failed m);
        calls = calls;
      }

      -- The loop from an attempt on, with the rounds that are left.
      unfoldable pub retry_from : ℕ → ℕ → Error → RetryMetrics → Run A
      unfolding exhausted update_success_rate retried
      retry_from zero attempt last m = exhausted attempt last m
      retry_from (suc rounds) attempt last m =
          let n =
            retried (env.duration attempt) last
              (waited (calculate_backoff_delay fl c (env.random attempt) attempt) m) in
          let (value, failed) = operation attempt in
          let next = retry_from rounds (attempt + 1) in
          if over_budget attempt
          then record {
            result = err (budget_error attempt last);
            metrics = one_failed m;
            calls = attempt;
          }
          else (elim (interrupted attempt) [
            | some e ↦ record { result = err e; metrics = one_failed m; calls = attempt }
            | none ↦ elim failed [
              | none ↦ record {
                result = ok value;
                metrics = update_success_rate (one_succeeded n);
                calls = attempt + 1;
              }
              | some e ↦
                  if is_retryable fl show_int c e then next e n else exhausted (attempt + 1) e n
            ]
          ])

      -- `attempt <= MaxRetries` holds of MaxRetries attempts from 1 on, of none if it is negative.
      unfoldable pub execute_run : RetryMetrics → Run A
      unfolding retry_from
      execute_run m =
          let (value, failed) = operation 0 in
          elim failed [
            | none ↦ record {
              result = ok value;
              metrics = record m { first_attempt_success = m.first_attempt_success + 1 };
              calls = 1;
            }
            | some e ↦
                if is_retryable fl show_int c e
                then retry_from (pos_part c.max_retries) 1 e m
                else record {
                  result = err (wrapped (codes "error is not retryable: ") e []);
                  metrics = m;
                  calls = 1;
                }
          ]

  module _ {ℓ} {A : Type ℓ} (show_int show_duration : ℤ → Text) (rp : RetryPolicy) where
    unfoldable pub execute : Environment → (ℕ → A × Option Error) → RetryPolicy × Result A
    execute env operation =
        let r = execute_run show_int show_duration rp.config env operation rp.metrics in
        (record rp { metrics = r.metrics }, r.result)

    -- MaxRetries is set for the call and put back after it.
    unfoldable pub execute_with_custom_retries :
        Environment → (ℕ → A × Option Error) → ℤ → RetryPolicy × Result A
    execute_with_custom_retries env operation max_retries =
        let c = record rp.config { max_retries = max_retries } in
        let r = execute_run show_int show_duration c env operation rp.metrics in
        (record rp { metrics = r.metrics }, r.result)

  unfoldable pub get_metrics : RetryPolicy → RetryPolicy × RetryMetrics
  get_metrics rp = let m = update_success_rate rp.metrics in (record rp { metrics = m }, m)

  unfoldable pub reset : RetryPolicy → RetryPolicy
  reset rp = record rp { metrics = no_metrics }

  unfoldable pub update_config : Option (RetryPolicyConfig fl) → RetryPolicy → RetryPolicy
  update_config none rp = rp
  update_config (some c) rp = record rp { config = with_defaults fl c }

  unfoldable pub is_healthy : RetryPolicy → Bool
  is_healthy rp =
      let m = rp.metrics in
      if ltb (m.successful_retries + m.failed_retries) 10
      then true
      else if fl.lt m.retry_success_rate (fl.decimal 1 1)
      then false
      else not
          (ltb_ℤ (wrap64 (mul_ℤ rp.config.max_delay rp.config.max_retries)) m.average_retry_time)

  pub data Advice : Type 0 where
    low_success_rate short_delays connection_retries resource_retries : Advice

  abbrev when : Bool → Advice → List Advice
  when b a = if b then a ∷ [] else []

  abbrev count_of : ErrorType → RetryMetrics → ℕ
  count_of t m = elim (lookup t m.retries_by_error_type) [ none ↦ 0 | some n ↦ n ]

  unfoldable pub get_recommendations : RetryPolicy → List Advice
  get_recommendations rp =
      let m = rp.metrics in
      when (fl.lt m.retry_success_rate (fl.decimal 3 1) && ltb 20 m.total_retries) low_success_rate
      ++ when (ltb_ℤ m.average_backoff_time (quot rp.config.base_delay 2)) short_delays
      ++ when (ltb_ℤ (quot (pos m.total_retries) 2) (pos (count_of connection m)))
          connection_retries
      ++ when (ltb_ℤ (quot (pos m.total_retries) 4) (pos (count_of resource m))) resource_retries
