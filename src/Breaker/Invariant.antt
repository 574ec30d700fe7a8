-- ===== src/Breaker/Invariant.antt =====
-- The invariant between two calls of circuit_breaker.go, and the edges of its state diagram.
use docker_net_doctor.Prelude.{
  ℕ, ◌+◌, ◌≤◌, ◌≡◌, Bool, true, false, Option, none, some, All, List, [], ◌∷◌, arith,
}
use docker_net_doctor.Prelude.Int.{pos, ◌≤ℤ◌, ◌<ℤ◌}
use docker_net_doctor.Prelude.Float.{Float64}
use docker_net_doctor.Breaker.{
  CircuitState, closed, opened, half_open, Config, Breaker, should_open_circuit,
  new_circuit_breaker, or_default,
}
use docker_net_doctor.Breaker.Operations.{
  can_execute, record_success, record_failure, reset, force_open, force_close, update_config,
}

-- A call with its readings of the clock.
pub data Call (fl : Float64) : Type 0 where
  can_executes : ℕ → ℕ → Call fl
  succeeds : ℕ → Call fl
  fails : ℕ → ℕ → Call fl
  resets forces_open forces_close : ℕ → Call fl
  updates : Option (Config fl) → Call fl

-- A call that an administrator makes.
abbrev pub is_forced : {fl : Float64} → Call fl → Bool
is_forced (resets now) = true
is_forced (forces_open now) = true
is_forced (forces_close now) = true
is_forced (updates c) = true
is_forced _ = false

infix 40 ◌⟶◌
pub data ◌⟶◌ : CircuitState → CircuitState → Type 0 where
  stay : {s : CircuitState} → s ⟶ s
  trip : closed ⟶ opened
  probe : opened ⟶ half_open
  relapse : half_open ⟶ opened
  recover : half_open ⟶ closed

ruleset edges = (stay, trip, probe, relapse, recover)

module _ (fl : Float64) where
  unfoldable pub step : Breaker fl → Call fl → Breaker fl
  step cb (can_executes now later) = (can_execute fl cb now later).0
  step cb (succeeds later) = record_success fl cb later
  step cb (fails now later) = record_failure fl cb now later
  step cb (resets now) = reset fl cb now
  step cb (forces_open later) = force_open fl cb later
  step cb (forces_close later) = force_close fl cb later
  step cb (updates c) = update_config fl cb c

  unfoldable pub run : Breaker fl → List (Call fl) → Breaker fl
  run cb [] = cb
  run cb (c ∷ cs) = run (step cb c) cs

  -- Settings under which the breaker can open, whose threshold and limits are at most those of `c`.
  pub record IsWithin (c d : Config fl) : Type 0 where
    pub threshold_positive : pos 0 <ℤ d.failure_threshold
    pub threshold_le : d.failure_threshold ≤ℤ c.failure_threshold
    pub successes_positive : pos 0 <ℤ d.consecutive_successes
    pub successes_le : d.consecutive_successes ≤ℤ c.consecutive_successes
    pub requests_positive : pos 0 <ℤ d.half_open_max_requests
    pub requests_le : d.half_open_max_requests ≤ℤ c.half_open_max_requests

  -- The settings that an update puts in place are such.
  abbrev pub UpdatesWithin : Config fl → Call fl → Type 0
  UpdatesWithin c (updates (some d)) = IsWithin c (record d {
    consecutive_successes = or_default fl d.consecutive_successes (pos 3);
    half_open_max_requests = or_default fl d.half_open_max_requests (pos 2);
  })
  UpdatesWithin c _ = Unit

  pub record Inv (c : Config fl) (cb : Breaker fl) : Type 0 where
    pub within : IsWithin c cb.config
    pub below_threshold : cb.state ≡ closed → pos cb.failure_count <ℤ c.failure_threshold
    pub below_successes : cb.state ≡ half_open → pos cb.success_count <ℤ c.consecutive_successes
    pub probes_bounded :
        cb.state ≡ half_open → pos cb.half_open_request_count ≤ℤ c.half_open_max_requests
    pub streak_le : cb.consecutive_failures ≤ cb.failure_count

  should_open_false :
      (cb : Breaker fl)
      → should_open_circuit fl cb ≡ false
      → pos cb.failure_count <ℤ cb.config.failure_threshold
  unfolding should_open_circuit
  should_open_false cb h = ground arith

  -- The breaker as RecordFailure leaves it before the switch.
  abbrev failed : Breaker fl → ℕ → Breaker fl
  failed cb now = record cb {
    failure_count = cb.failure_count + 1;
    total_failures = cb.total_failures + 1;
    consecutive_failures = cb.consecutive_failures + 1;
    last_fail_time = now;
  }

  module _ {c : Config fl} (cb : Breaker fl) (v : Inv c cb) where
    can_execute-Inv : (now later : ℕ) → Inv c (can_execute fl cb now later).0
    unfolding can_execute
    can_execute-Inv now later = ground arith

    record_success-Inv : (later : ℕ) → Inv c (record_success fl cb later)
    unfolding record_success
    record_success-Inv later = ground arith

    record_failure-Inv : (now later : ℕ) → Inv c (record_failure fl cb now later)
    unfolding record_failure
    record_failure-Inv now later = ground (arith, should_open_false (failed cb now))

    update_config-Inv :
        (d : Option (Config fl)) → UpdatesWithin c (updates d) → Inv c (update_config fl cb d)
    unfolding update_config
    update_config-Inv none w = v
    update_config-Inv (some d) w = record {
      within = w;
      below_threshold = v.below_threshold;
      below_successes = v.below_successes;
      probes_bounded = v.probes_bounded;
      streak_le = v.streak_le;
    }

    step-Inv : (call : Call fl) → UpdatesWithin c call → Inv c (step cb call)
    unfolding step reset force_open force_close
    step-Inv (can_executes now later) w = can_execute-Inv now later
    step-Inv (succeeds later) w = record_success-Inv later
    step-Inv (fails now later) w = record_failure-Inv now later
    step-Inv (resets now) w = ground arith
    step-Inv (forces_open later) w = ground arith
    step-Inv (forces_close later) w = ground arith
    step-Inv (updates d) w = update_config-Inv d w

  run_from-Inv :
      {c : Config fl} (cb : Breaker fl) (calls : List (Call fl))
      → All (UpdatesWithin c) calls
      → Inv c cb
      → Inv c (run cb calls)
  unfolding run
  run_from-Inv cb [] w v = v
  run_from-Inv cb (call ∷ calls) w v =
      run_from-Inv (step cb call) calls w.1 (step-Inv cb v call w.0)

  -- Over any calls on a new breaker whose settings, the first and those of every UpdateConfig, are positive
  -- and at most some limits: the failures stay below the limit of the threshold while it is closed, the
  -- successes below that of the successes it wants and the admitted requests within that of the requests
  -- while it is half-open, and the failures in a row are no more than the failures.
  pub run-Inv :
      (c : Config fl) (config : Option (Config fl)) (now : ℕ) (calls : List (Call fl))
      → IsWithin c (new_circuit_breaker fl config now).config
      → All (UpdatesWithin c) calls
      → Inv c (run (new_circuit_breaker fl config now) calls)
  unfolding new_circuit_breaker
  run-Inv c config now calls first w =
      run_from-Inv (new_circuit_breaker fl config now) calls w (record {
        within = first;
        below_threshold = λ h. omega (arith, first.threshold_positive, first.threshold_le);
        below_successes = λ h. cc;
        probes_bounded = λ h. cc;
        streak_le = omega arith;
      })

  -- A call that nobody forces follows an edge of the state diagram.
  pub step-⟶ :
      (cb : Breaker fl) (call : Call fl) → is_forced call ≡ false → cb.state ⟶ (step cb call).state
  unfolding step can_execute record_success record_failure
  step-⟶ cb (can_executes now later) h = grind (arith, edges)
  step-⟶ cb (succeeds later) h = grind (arith, edges)
  step-⟶ cb (fails now later) h = grind (arith, edges)
  step-⟶ cb (resets now) h = cc
  step-⟶ cb (forces_open later) h = cc
  step-⟶ cb (forces_close later) h = cc
  step-⟶ cb (updates c) h = cc
