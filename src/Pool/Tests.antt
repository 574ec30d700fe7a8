-- ===== src/Pool/Tests.antt =====
-- The theorems on internal/diagnostics/worker_pool.go at a pool to which one check is submitted.
use docker_net_doctor.Prelude.{
  ℕ, zero, suc, ◌+◌, ◌≤◌, ◌≡◌, refl, Bool, true, false, Option, none, some, List, [], ◌∷◌, arith,
  length,
}
use docker_net_doctor.Prelude.Int.{pos}
use docker_net_doctor.Prelude.Text.{Text, codes, has_prefix, text_eq}
use docker_net_doctor.Prelude.Fraction.{Fraction, fractions}
use docker_net_doctor.Security.{Check}
use docker_net_doctor.Security.Operations.{
  validate_check, new_security_validator_test_mode, is_test_check_name,
}
use docker_net_doctor.Limiter.{Bucket, LimitError}
use docker_net_doctor.Engine.{Outcome, failed, returned}
use docker_net_doctor.Engine.Runs.{Visit, DiagnosticEngine, PoolFigures, new_engine, reported}
use docker_net_doctor.Engine.Runs
use docker_net_doctor.Pool.{Pool, JobEnd, new_secure_worker_pool, seems_done}
use docker_net_doctor.Pool.Steps.{
  Step, starts, takes, receives, submits, submit_returns, waits, ends, run, step,
}
use docker_net_doctor.Pool.Accounts.{IsAccounted}
use docker_net_doctor.Pool.Runs.{run-IsAccounted, seems_done_lem}
use docker_net_doctor.Pool.Cancelled.{all_late, delivered, late_jobs_are_lost}

abbrev same_text : Text → Text
same_text t = t

abbrev ticks : ℕ → ℕ
ticks n = n

-- A limiter that only refuses a context that is done.
abbrev wait : Bool → ℕ → Option Text
wait true n = some (codes "context canceled")
wait false n = none

abbrev new : Pool fractions
new = new_secure_worker_pool fractions true (pos 8) (pos 2) 1000 50

-- A check that a validator in test mode lets pass by its name.
abbrev daemon : Check
daemon = record {
  name = codes "check";
  description = codes "Checking Docker daemon connectivity and API accessibility";
  severity = pos 3;
}

abbrev good_end : JobEnd fractions
good_end = record {
  outcome = returned (record {
    check_name = codes "daemon_connectivity";
    success = true;
    message = codes "OK";
    duration = 0;
  });
  duration = 9;
  done_first = false;
  now = 60;
  later = 61;
}

-- The worker is faster than Submit, so the job succeeds.
abbrev fast : List (Step fractions)
fast =
    starts
    ∷ submits 2000 false daemon
    ∷ takes
    ∷ waits 0 0
    ∷ submit_returns 0
    ∷ ends good_end 0
    ∷ receives
    ∷ []

-- Submit returns first.
abbrev slow : List (Step fractions)
slow = starts ∷ submits 2000 false daemon ∷ submit_returns 0 ∷ takes ∷ waits 0 0 ∷ receives ∷ []

cancelled : (n : ℕ) → (e : Text) × (wait true n ≡ some e)
cancelled n = (codes "context canceled", refl)

fast_done : seems_done fractions (run fractions same_text ticks wait fast new) ≡ true
unfolding run step seems_done new_secure_worker_pool validate_check new_security_validator_test_mode
    is_test_check_name has_prefix text_eq
fast_done = refl

fast_quiet : (run fractions same_text ticks wait fast new).submitting ≡ 0
unfolding run step new_secure_worker_pool validate_check new_security_validator_test_mode
    is_test_check_name has_prefix text_eq
fast_quiet = refl

slow_late : all_late fractions same_text ticks wait cancelled slow new ≡ true
unfolding run step new_secure_worker_pool validate_check new_security_validator_test_mode
    is_test_check_name has_prefix text_eq cancelled
slow_late = refl

slow_delivers : 1 ≤ length (delivered fractions same_text ticks wait cancelled slow new)
unfolding delivered step new_secure_worker_pool validate_check new_security_validator_test_mode
    is_test_check_name has_prefix text_eq
slow_delivers = omega arith

run-IsAccounted_example : IsAccounted fractions (run fractions same_text ticks wait fast new)
run-IsAccounted_example =
    run-IsAccounted fractions same_text ticks wait true (pos 8) (pos 2) 1000 50 fast (omega arith)

seems_done_lem_example :
    let p = run fractions same_text ticks wait fast new in
    (p.jobs ≡ []) × (p.waiting ≡ []) × (p.running ≡ [])
seems_done_lem_example =
    seems_done_lem fractions same_text ticks wait true (pos 8) (pos 2) 1000 50 fast (omega arith)
      fast_done fast_quiet

abbrev bucket : Bucket Fraction
bucket = record {
  Context = Unit {0};
  Limiter = ℕ;
  Error = Unit {0};
  new_limiter = λ rate burst. 0;
  wait_token = λ n ctx timeout. (n + 1, none);
  allow = λ n. (n + 1, true);
  Reservation = ℕ;
  reserve_token = λ n. (n, n);
}

abbrev no_text : LimitError (Unit {0}) → Text
no_text e = []

abbrev engine : DiagnosticEngine fractions bucket no_text
engine = record (new_engine fractions bucket no_text (pos 8) none) { checks = daemon ∷ [] }

abbrev figures : PoolFigures fractions bucket no_text
figures = record {
  total_api_calls = 1;
  rate_limit_hits = 0;
  peak_memory_mb = record { top = 1; bottom = 1 };
}

abbrev no_visit : ℕ → Visit fractions bucket no_text
no_visit n = record {
  ctx = tt;
  waited = 0;
  now = n;
  outcome = Outcome.no_result;
  inner = 0;
  outer = 0;
}

late_jobs_are_lost_example :
    ((run fractions same_text ticks wait slow new).completed_jobs ≡ 0)
    × ((t : DiagnosticEngine fractions bucket no_text) × (Runs.run fractions bucket no_text no_visit
            (delivered fractions same_text ticks wait cancelled slow new)
            figures
            50
            engine
          ≡ reported t)
        × (t.results ≡ engine.results)
        × (t.summary.total_checks ≡ length engine.results))
unfolding new_engine
late_jobs_are_lost_example =
    late_jobs_are_lost fractions same_text ticks wait cancelled no_text no_visit true (pos 8)
      (pos 2) 1000 50 slow engine figures 50 slow_late refl slow_delivers

abbrev bad_end : JobEnd fractions
bad_end = record {
  outcome = failed (codes "no daemon");
  duration = 9;
  done_first = false;
  now = 60;
  later = 61;
}

-- So many checks that fail, one after another.
abbrev failing : ℕ → List (Step fractions)
failing zero = []
failing (suc n) =
    submits 2000 false daemon
    ∷ takes
    ∷ waits 0 0
    ∷ submit_returns n
    ∷ ends bad_end 0
    ∷ receives
    ∷ failing n

abbrev outage : List (Step fractions)
outage = starts ∷ failing 10
