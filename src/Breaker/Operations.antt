-- ===== src/Breaker/Operations.antt =====
-- The methods of internal/diagnostics/circuit_breaker.go, and the use of the breaker by
-- ExecuteWithRecovery of internal/diagnostics/error_recovery.go.
use docker_net_doctor.Prelude.{
  ℕ, ◌+◌, Bool, true, false, ◌&&◌, Option, none, some, List, [], ◌∷◌, ◌==◌, ltb, if◌then◌else◌,
}
use docker_net_doctor.Prelude.Int.{ℤ, pos, ltb_ℤ, leb_ℤ, quot}
use docker_net_doctor.Prelude.Clock.{time_sub, time_add}
use docker_net_doctor.Prelude.Float.{Float64}
use docker_net_doctor.Breaker.{
  CircuitState, closed, opened, half_open, zero_all, Config, Breaker, or_default, float_rate,
  reset_failure_count, transition_to_open, transition_to_closed, transition_to_half_open,
  should_open_circuit,
}

module _ (fl : Float64) where
  open fl use {Float}

  -- The switch of CanExecute.
  can_execute_in : CircuitState → Breaker fl → ℕ → ℕ → Breaker fl × Bool
  unfolding reset_failure_count transition_to_half_open
  can_execute_in closed cb now later = (
    if ltb_ℤ (pos 0) cb.config.reset_timeout
          && ltb_ℤ cb.config.reset_timeout (time_sub now cb.last_fail_time)
        then reset_failure_count fl cb
        else cb,
    true,
  )
  can_execute_in opened cb now later =
      if leb_ℤ cb.config.recovery_timeout (time_sub now cb.last_state_change)
      then (let t = transition_to_half_open fl cb later in
          (record t { half_open_request_count = t.half_open_request_count + 1 }, true))
      else (cb, false)
  can_execute_in half_open cb now later =
      if ltb_ℤ (pos cb.half_open_request_count) cb.config.half_open_max_requests
      then (record cb { half_open_request_count = cb.half_open_request_count + 1 }, true)
      else (cb, false)

  unfoldable pub can_execute : Breaker fl → ℕ → ℕ → Breaker fl × Bool
  unfolding can_execute_in
  can_execute cb now later =
      can_execute_in cb.state
        (record cb { last_request_time = now; total_requests = cb.total_requests + 1 }) now later

  -- The switch of RecordSuccess.
  record_success_in : CircuitState → Breaker fl → ℕ → Breaker fl
  unfolding transition_to_open transition_to_closed transition_to_half_open
  record_success_in closed cb later =
      if should_open_circuit fl cb then transition_to_open fl cb later else cb
  record_success_in half_open cb later =
      let t = record cb { success_count = cb.success_count + 1 } in
      if leb_ℤ t.config.consecutive_successes (pos t.success_count)
      then transition_to_closed fl t later
      else t
  record_success_in opened cb later = transition_to_half_open fl cb later

  unfoldable pub record_success : Breaker fl → ℕ → Breaker fl
  unfolding record_success_in
  record_success cb later =
      record_success_in cb.state
        (record cb { total_successes = cb.total_successes + 1; consecutive_failures = 0 }) later

  -- The switch of RecordFailure.
  record_failure_in : CircuitState → Breaker fl → ℕ → Breaker fl
  unfolding transition_to_open
  record_failure_in closed cb later =
      if should_open_circuit fl cb then transition_to_open fl cb later else cb
  record_failure_in half_open cb later = transition_to_open fl cb later
  record_failure_in opened cb later = cb

  unfoldable pub record_failure : Breaker fl → ℕ → ℕ → Breaker fl
  unfolding record_failure_in
  record_failure cb now later =
      record_failure_in cb.state
        (record cb {
          failure_count = cb.failure_count + 1;
          total_failures = cb.total_failures + 1;
          consecutive_failures = cb.consecutive_failures + 1;
          last_fail_time = now;
        })
        later

  unfoldable pub reset : Breaker fl → ℕ → Breaker fl
  reset cb now = record cb {
    state = closed;
    failure_count = 0;
    success_count = 0;
    half_open_request_count = 0;
    consecutive_failures = 0;
    total_requests = 0;
    total_failures = 0;
    total_successes = 0;
    last_state_change = now;
    last_fail_time = 0;
    last_request_time = 0;
    state_transitions = zero_all cb.state_transitions;
  }

  unfoldable pub update_config : Breaker fl → Option (Config fl) → Breaker fl
  update_config cb none = cb
  update_config cb (some c) = record cb {
    config = record c {
      consecutive_successes = or_default fl c.consecutive_successes (pos 3);
      half_open_max_requests = or_default fl c.half_open_max_requests (pos 2);
    };
  }

  unfoldable pub force_open : Breaker fl → ℕ → Breaker fl
  unfolding transition_to_open
  force_open cb later = transition_to_open fl cb later

  unfoldable pub force_close : Breaker fl → ℕ → Breaker fl
  unfolding transition_to_closed
  force_close cb later = transition_to_closed fl cb later

  healthy_in : CircuitState → Breaker fl → Bool
  healthy_in closed cb =
      if leb_ℤ cb.config.min_requests_threshold (pos cb.total_requests)
      then fl.lt (float_rate fl cb.total_failures cb.total_requests) (fl.decimal 5 1)
      else ltb_ℤ (pos cb.consecutive_failures) (quot cb.config.failure_threshold 2)
  healthy_in half_open cb = ltb 0 cb.success_count
  healthy_in opened cb = false

  unfoldable pub is_healthy : Breaker fl → Bool
  unfolding healthy_in
  is_healthy cb = healthy_in cb.state cb

  health_in : CircuitState → Breaker fl → Float
  health_in closed cb =
      if cb.total_requests == 0
      then fl.decimal 1 0
      else fl.mul (float_rate fl cb.total_successes cb.total_requests) (
          fl.sub (fl.decimal 1 0) (
            fl.mul
              (fl.div (fl.of_int (pos cb.consecutive_failures))
                (fl.of_int cb.config.failure_threshold))
              (fl.decimal 5 1)))
  health_in half_open cb =
      if cb.success_count == 0
      then fl.decimal 3 1
      else fl.add (fl.decimal 3 1) (
          fl.div (fl.mul (fl.decimal 4 1) (fl.of_int (pos cb.success_count)))
            (fl.of_int cb.config.consecutive_successes))
  health_in opened cb = fl.decimal 0 0

  unfoldable pub get_health_score : Breaker fl → Float
  unfolding health_in
  get_health_score cb = health_in cb.state cb

  pub record Metrics : Type 0 where
    pub breaker : Breaker fl  -- the counters, times and transitions, which are copied as they are
    pub failure_rate : Float
    pub request_rate : Float
    pub time_in_current_state : ℤ
    pub healthy : Bool
    pub estimated_recovery_time : ℕ

  recovery_time_in : CircuitState → Breaker fl → ℕ
  recovery_time_in opened cb = time_add cb.last_state_change cb.config.recovery_timeout
  recovery_time_in _ cb = 0

  unfoldable pub get_metrics : Breaker fl → ℕ → Metrics
  unfolding recovery_time_in
  get_metrics cb now = record {
    breaker = cb;
    failure_rate =
        if ltb 0 cb.total_requests
        then float_rate fl cb.total_failures cb.total_requests
        else fl.decimal 0 0;
    request_rate =
        let duration = time_sub now cb.last_state_change in
        if cb.last_request_time == 0
        then fl.decimal 0 0
        else if ltb_ℤ (pos 0) duration
        then fl.div (fl.of_int (pos cb.total_requests)) (fl.to_seconds duration)
        else fl.decimal 0 0;
    time_in_current_state = time_sub now cb.last_state_change;
    healthy = is_healthy cb;
    estimated_recovery_time = recovery_time_in cb.state cb;
  }

  -- The breaker's part of ExecuteWithRecovery: an admitted operation is followed by the record of
  -- its outcome, a refused one by nothing. `start` to `stop` are the readings of the clock, and
  -- `succeeds` says whether the operation, run under the retry policy, returned a nil error.
  pub record Attempt : Type 0 where
    pub start : ℕ
    pub start_later : ℕ
    pub stop : ℕ
    pub stop_later : ℕ
    pub succeeds : Bool

  record_outcome : Breaker fl → Attempt → Breaker fl
  record_outcome cb a =
      if a.succeeds then record_success cb a.stop_later else record_failure cb a.stop a.stop_later

  unfoldable pub guarded_attempt : Breaker fl → Attempt → Breaker fl × Bool
  unfolding record_outcome
  guarded_attempt cb a =
      let (t, admitted) = can_execute cb a.start a.start_later in
      (if admitted then record_outcome t a else t, admitted)

  unfoldable pub run_attempts : Breaker fl → List Attempt → Breaker fl
  run_attempts cb [] = cb
  run_attempts cb (a ∷ rest) = run_attempts (guarded_attempt cb a).0 rest
