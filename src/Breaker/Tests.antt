-- ===== src/Breaker/Tests.antt =====
-- The breaker's theorems at concrete breakers, under the default settings and under repaired ones.
use docker_net_doctor.Prelude.{ℕ, ◌+◌, ◌≡◌, refl, ◌≢◌, none, some, List, Bool, true, [], ◌∷◌, arith}
use docker_net_doctor.Prelude.Int.{pos}
use docker_net_doctor.Prelude.Clock.{time_sub, seconds}
use docker_net_doctor.Prelude.Fraction.{fractions}
use docker_net_doctor.Breaker.{
  closed, opened, half_open, Config, Breaker, default_config, new_circuit_breaker,
}
use docker_net_doctor.Breaker.Operations.{
  can_execute, record_success, Attempt, guarded_attempt, run_attempts,
}
use docker_net_doctor.Breaker.Invariant.{
  Call, can_executes, fails, resets, updates, run, Inv, run-Inv,
}
use docker_net_doctor.Breaker.Recovery.{open_never_closes, recovery_closes}
use docker_net_doctor.Breaker.Outage.{fail_all, failures_trip}

abbrev fresh : Breaker fractions
fresh = record {
  config = default_config fractions;
  state = closed;
  last_fail_time = 0;
  last_state_change = 100;
  failure_count = 0;
  success_count = 0;
  half_open_request_count = 0;
  consecutive_failures = 0;
  total_requests = 0;
  total_failures = 0;
  total_successes = 0;
  last_request_time = 0;
  state_transitions = [];
}

abbrev tripped : Breaker fractions
tripped = record fresh { state = opened; failure_count = 5 }

abbrev probed : Breaker fractions
probed = record fresh { state = half_open; success_count = 2; half_open_request_count = 2 }

abbrev repaired : Breaker fractions
repaired = record tripped {
  config = record (default_config fractions) { consecutive_successes = pos 2 };
}

-- An attempt that starts a number of seconds after the zero time and succeeds or fails.
abbrev at_second : ℕ → Bool → Attempt fractions
at_second n good = record {
  start = seconds n;
  start_later = seconds n + 1;
  stop = seconds n + 2;
  stop_later = seconds n + 3;
  succeeds = good;
}

fresh_is_new : new_circuit_breaker fractions none 100 ≡ fresh
unfolding new_circuit_breaker
fresh_is_new = refl

-- Settings that want fewer successes.
abbrev laxer : Config fractions
laxer = record (default_config fractions) { consecutive_successes = pos 1 }

-- Settings are within themselves and, here, the laxer ones within the default ones.
abbrev calls : List (Call fractions)
calls = fails 7 8 ∷ can_executes 9 9 ∷ updates (some laxer) ∷ resets 10 ∷ []

run-Inv_example :
    Inv fractions
      (default_config fractions)
      (run fractions (new_circuit_breaker fractions none 100) calls)
unfolding new_circuit_breaker
run-Inv_example =
    run-Inv fractions (default_config fractions) none 100 calls
      (record {
        threshold_positive = omega arith;
        threshold_le = omega arith;
        successes_positive = omega arith;
        successes_le = omega arith;
        requests_positive = omega arith;
        requests_le = omega arith;
      })
      (
        tt,
        (
          tt,
          (
            record {
              threshold_positive = omega arith;
              threshold_le = omega arith;
              successes_positive = omega arith;
              successes_le = omega arith;
              requests_positive = omega arith;
              requests_le = omega arith;
            },
            (tt, tt),
          ),
        ),
      )

-- The default settings ask for three successes and admit two requests.
open_never_closes_example :
    let tries = at_second 40 true ∷ at_second 41 true ∷ at_second 99 true ∷ [] in
    (run_attempts fractions tripped tries).state ≢ closed
open_never_closes_example =
    open_never_closes fractions tripped
      (at_second 40 true ∷ at_second 41 true ∷ at_second 99 true ∷ []) refl (omega arith)
      (omega arith)

recovery_closes_example :
    ((run_attempts fractions repaired (at_second 40 true ∷ at_second 41 true ∷ [])).state ≡ closed)
    × ((run_attempts fractions repaired (at_second 40 true ∷ at_second 41 true ∷ [])).failure_count
        ≡ 0)
unfolding time_sub
recovery_closes_example =
    recovery_closes fractions repaired (at_second 40 true) (at_second 41 true ∷ []) refl refl refl
      (omega arith) (refl, (refl, tt))

failures_trip_example :
    let failing = record fresh { failure_count = 3 } in
    (run fractions failing (fail_all fractions ((7, 8) ∷ (9, 9) ∷ []))).state ≡ opened
failures_trip_example =
    failures_trip fractions (record fresh { failure_count = 3 }) 7 8 ((9, 9) ∷ []) refl
      (omega arith)

-- Two good probes leave a breaker with the default settings half-open.
default_probes_run :
    (run_attempts fractions tripped (at_second 40 true ∷ at_second 41 true ∷ [])).state ≡ half_open
unfolding run_attempts guarded_attempt can_execute record_success time_sub
default_probes_run = refl
