-- ===== src/Retry.antt =====
-- internal/docker/retry_policy.go: retrying of Docker calls. An operation is a function from the
-- number of the attempt to what it returns; `cancelled` says, for the wait after an attempt, whether
-- ctx.Done() wins the select, and with which error; how long the wait is (calculateBackoff) is left
-- open. Error messages are byte strings.
pub mod Search
pub mod Attempts
mod Tests
use docker_net_doctor.Prelude.{
  ℕ, zero, suc, ◌+◌, ◌-◌, ◌*◌, Bool, true, false, ◌&&◌, ◌||◌, Option, none, some, List, [], ◌∷◌,
  ◌++◌, ◌==◌, ltb, leb, if◌then◌else◌, length, take, drop, any,
}
use docker_net_doctor.Prelude.Int.{ℤ, pos, negsuc, ltb_ℤ, pos_part, ◌<ℤ◌}
use docker_net_doctor.Prelude.Text.{Text, codes, text_eq}
use docker_net_doctor.Prelude.Float.{Float64}

-- s[i : i+n].
abbrev slice : ℕ → ℕ → Text → Text
slice i n s = take n (drop i s)

-- The loop of findSubstring from index `i` on, with the rounds that are left.
find_from : ℕ → ℕ → Text → Text → Bool
find_from zero i s sub = false
find_from (suc rounds) i s sub =
    let rest = find_from rounds (i + 1) s sub in
    if text_eq (slice i (length sub) s) sub then true else rest

-- `i <= len(s)-len(substr)` holds of len(s)+1-len(substr) indices, of none if that is negative.
pub find_substring : Text → Text → Bool
unfolding find_from
find_substring s sub = find_from (length s + 1 - length sub) 0 s sub

pub contains : Text → Text → Bool
contains s sub =
    leb (length sub) (length s)
    && (text_eq s sub
        || (ltb (length sub) (length s)
            && (text_eq (slice 0 (length sub) s) sub
                || text_eq (slice (length s - length sub) (length sub) s) sub
                || find_substring s sub)))

-- What an operation or a context reports: `err.Error()`.
pub record Err : Type 0 where
  pub message : Text

-- The errors that Execute makes itself wrap another: `fmt.Errorf("...: %w", err)`.
pub data Failure : Type 0 where
  fatal : Err → Failure  -- a non-retryable error, as it is
  retry_cancelled : Err → Failure
  exhausted : ℤ → Option Err → Failure  -- the retries and the last error, if there is one

pub data Result {ℓ} (A : Type ℓ) : Type ℓ where
  ok : A → Result A
  err : Failure → Result A

-- The keys of RetryableErrors are the patterns: isRetryable reads no value of the map.
pub record RetryPolicy : Type 0 where
  pub max_retries : ℤ
  pub initial_backoff : ℤ
  pub max_backoff : ℤ
  pub retryable_errors : List Text

abbrev milliseconds : ℕ → ℕ
milliseconds n = n * 1000000

pub new_default_retry_policy : RetryPolicy
new_default_retry_policy = record {
  max_retries = pos 3;
  initial_backoff = pos (milliseconds 100);
  max_backoff = pos (milliseconds 5000);
  retryable_errors =
      codes "connection refused"
      ∷ codes "connection reset"
      ∷ codes "timeout"
      ∷ codes "EOF"
      ∷ codes "broken pipe"
      ∷ codes "service unavailable"
      ∷ codes "too many requests"
      ∷ codes "resource temporarily unavailable"
      ∷ [];
}

-- isRetryable of an error that is not nil.
pub is_retryable : RetryPolicy → Err → Bool
is_retryable r e = any (contains e.message) r.retryable_errors

-- The loops ask `attempt <= r.MaxRetries`: that many rounds from attempt 0 on.
pub rounds_of : RetryPolicy → ℕ
rounds_of r = if ltb_ℤ r.max_retries (pos 0) then 0 else pos_part r.max_retries + 1

-- A result with the number of times that the operation was called.
pub record Outcome {ℓ} (A : Type ℓ) : Type ℓ where
  pub result : Result A
  pub calls : ℕ

module _ (r : RetryPolicy) (cancelled : ℕ → Option Err) where
  -- The loop of Execute from an attempt on, with the rounds that are left; `operation` returns the
  -- error or nil.
  execute_from : (ℕ → Option Err) → ℕ → ℕ → Option Err → Outcome (Unit {0})
  execute_from operation zero attempt last = record {
    result = err (exhausted r.max_retries last);
    calls = attempt;
  }
  execute_from operation (suc rounds) attempt last =
      let next = execute_from operation rounds (attempt + 1) in
      elim (operation attempt) [
        | none ↦ record { result = ok tt; calls = attempt + 1 }
        | some e ↦
            if is_retryable r e
            then (if pos_part r.max_retries == attempt
                then record { result = err (exhausted r.max_retries (some e)); calls = attempt + 1 }
                else (elim (cancelled attempt) [
                  | none ↦ next (some e)
                  | some c ↦ record { result = err (retry_cancelled c); calls = attempt + 1 }
                ]))
            else record { result = err (fatal e); calls = attempt + 1 }
      ]

  pub execute : (ℕ → Option Err) → Outcome (Unit {0})
  unfolding execute_from
  execute operation = execute_from operation (rounds_of r) 0 none

  -- The same loop of ExecuteWithValue, whose operation returns a value or an error.
  execute_value_from {ℓ} : {A : Type ℓ} → (ℕ → A × Option Err) → ℕ → ℕ → Option Err → Outcome A
  execute_value_from operation zero attempt last = record {
    result = err (exhausted r.max_retries last);
    calls = attempt;
  }
  execute_value_from operation (suc rounds) attempt last =
      let next = execute_value_from operation rounds (attempt + 1) in
      let (value, failed) = operation attempt in
      elim failed [
        | none ↦ record { result = ok value; calls = attempt + 1 }
        | some e ↦
            if is_retryable r e
            then (if pos_part r.max_retries == attempt
                then record { result = err (exhausted r.max_retries (some e)); calls = attempt + 1 }
                else (elim (cancelled attempt) [
                  | none ↦ next (some e)
                  | some c ↦ record { result = err (retry_cancelled c); calls = attempt + 1 }
                ]))
            else record { result = err (fatal e); calls = attempt + 1 }
      ]

  pub execute_with_value {ℓ} : {A : Type ℓ} → (ℕ → A × Option Err) → Outcome A
  unfolding execute_value_from
  execute_with_value operation = execute_value_from operation (rounds_of r) 0 none
