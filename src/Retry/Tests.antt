-- ===== src/Retry/Tests.antt =====
-- The retry theorems at concrete operations.
use docker_net_doctor.Prelude.{
  ℕ, ◌+◌, ◌≡◌, refl, true, false, Option, none, some, [], ◌∷◌, ltb, if◌then◌else◌,
}
use docker_net_doctor.Prelude.Int.{pos}
use docker_net_doctor.Prelude.Text.{codes, text_eq}
use docker_net_doctor.Retry.{
  Err, ok, RetryPolicy, rounds_of, new_default_retry_policy, is_retryable, contains, find_from,
  find_substring, execute_from, execute,
}
use docker_net_doctor.Retry.Attempts.{Ended, execute-Ended}

abbrev refused : Err
refused = record { message = codes "dial tcp: connection refused by peer" }

-- An operation that fails twice and then succeeds.
abbrev flaky : ℕ → Option Err
flaky k = if ltb k 2 then some refused else none

abbrev flaky_value : ℕ → ℕ × Option Err
flaky_value k = (k + 40, flaky k)

abbrev patient : ℕ → Option Err
patient k = none

abbrev policy : RetryPolicy
policy = record {
  max_retries = pos 3;
  initial_backoff = pos 100;
  max_backoff = pos 5000;
  retryable_errors = codes "timeout" ∷ codes "connection refused" ∷ [];
}

flaky_runs : execute policy patient flaky ≡ record { result = ok tt; calls = 3 }
unfolding execute execute_from rounds_of is_retryable contains find_substring find_from text_eq
flaky_runs = refl

default_retries_refused : is_retryable new_default_retry_policy refused ≡ true
unfolding new_default_retry_policy is_retryable contains find_substring find_from text_eq
default_retries_refused = refl

-- The search tells upper from lower case.
case_matters : contains (codes "Connection refused") (codes "connection refused") ≡ false
unfolding contains find_substring find_from text_eq
case_matters = refl

execute-Ended_example : Ended policy patient flaky (execute policy patient flaky)
execute-Ended_example = execute-Ended policy patient flaky refl
