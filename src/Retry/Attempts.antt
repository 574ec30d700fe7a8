-- ===== src/Retry/Attempts.antt =====
-- What Execute and ExecuteWithValue of internal/docker/retry_policy.go return, and after how many
-- calls of the operation.
use docker_net_doctor.Prelude.{
  ℕ, zero, suc, ◌+◌, ◌≤◌, ◌<◌, ◌≡◌, refl, ◌⊎◌, inl, inr, true, false, Option, none, some, arith,
  Bool-cases, Option-cases, ◌==◌, ==_iff, sym, subst, ◌-◌,
}
use docker_net_doctor.Prelude.Int.{pos, ◌≤ℤ◌, ◌<ℤ◌, pos_part}
use docker_net_doctor.Retry.{
  Err, fatal, retry_cancelled, exhausted, Result, ok, err, RetryPolicy, is_retryable, rounds_of,
  Outcome, execute_from, execute, execute_value_from, execute_with_value,
}

module _ (r : RetryPolicy) (cancelled : ℕ → Option Err) where
  -- Attempt `j` fails with a retryable error, and the wait after it is not cut short.
  abbrev pub IsRetried : (ℕ → Option Err) → ℕ → Type 0
  IsRetried operation j =
      (e : Err) × (operation j ≡ some e) × (is_retryable r e ≡ true) × (cancelled j ≡ none)

  -- How attempt `k` ends the loop, with the result of the whole.
  pub data Ends (operation : ℕ → Option Err) (k : ℕ) : Result (Unit {0}) → Type 0 where
    by_success : operation k ≡ none → Ends operation k (ok tt)
    by_fatal :
        (e : Err)
        → operation k ≡ some e
        → is_retryable r e ≡ false
        → Ends operation k (err (fatal e))
    by_exhaustion :
        (e : Err)
        → operation k ≡ some e
        → is_retryable r e ≡ true
        → r.max_retries ≡ pos k
        → Ends operation k (err (exhausted r.max_retries (some e)))
    by_cancellation :
        (e c : Err)
        → operation k ≡ some e
        → is_retryable r e ≡ true
        → cancelled k ≡ some c
        → pos k <ℤ r.max_retries
        → Ends operation k (err (retry_cancelled c))

  abbrev pub Ended : (ℕ → Option Err) → Outcome (Unit {0}) → Type 0
  Ended operation out =
      (k : ℕ) × (out.calls ≡ k + 1)
      × (pos k ≤ℤ r.max_retries)
      × ((j : ℕ) → j < k → IsRetried operation j)
      × Ends operation k out.result

  module _ (operation : ℕ → Option Err) {n : ℕ} (max : r.max_retries ≡ pos n) where
    extend :
        (k : ℕ)
        → ((j : ℕ) → j < k → IsRetried operation j)
        → IsRetried operation k
        → (j : ℕ) → j < k + 1
        → IsRetried operation j
    extend k before now j h = elim (Bool-cases (j == k)) [
      | inl e ↦ let e' : j ≡ k = (==_iff j k).0 e in rw e' now
      | inr e ↦ before j (ground arith)
    ]

    within : (k : ℕ) → k ≤ n → pos k ≤ℤ r.max_retries
    within k h = rw max (omega arith)

    below : (k : ℕ) → k < n → pos k <ℤ r.max_retries
    below k h = rw max (omega arith)

    last_attempt : (k : ℕ) → pos_part r.max_retries == k ≡ true → r.max_retries ≡ pos k
    last_attempt k h = ground arith

    not_last : (k : ℕ) → k ≤ n → pos_part r.max_retries == k ≡ false → k < n
    not_last k h e = ground arith

    -- The first attempt of the rounds that are left either ends the loop or is retried, and then it
    -- was not the last.
    execute_step :
        (rounds attempt : ℕ) (last : Option Err)
        → attempt ≤ n
        → let out = execute_from r cancelled operation (suc rounds) attempt last in
          ((out.calls ≡ attempt + 1) × Ends operation attempt out.result)
          ⊎ ((e : Err) × (out ≡ execute_from r cancelled operation rounds (attempt + 1) (some e))
              × IsRetried operation attempt
              × (attempt < n))
    unfolding execute_from
    execute_step rounds attempt last h = elim (Option-cases (operation attempt)) [
      | inl e ↦ rw (e, execute_from) (inl (refl, by_success e))
      | inr (x, e) ↦ elim (Bool-cases (is_retryable r x)) [
        | inr f ↦ rw (e, execute_from, f) (inl (refl, by_fatal x e f))
        | inl t ↦ elim (Bool-cases (pos_part r.max_retries == attempt)) [
          | inl m ↦
              rw (e, execute_from, t, m) (inl (refl, by_exhaustion x e t (last_attempt attempt m)))
          | inr m ↦ elim (Option-cases (cancelled attempt)) [
            | inl c ↦
                rw (e, execute_from, t, m, c)
                  (inr (x, refl, (x, refl, t, refl), not_last attempt h m))
            | inr (y, c) ↦
                rw (e, execute_from, t, m, c)
                  (inl (refl, by_cancellation x y e t c (below attempt (not_last attempt h m))))
          ]
        ]
      ]
    ]

    execute_from-Ended :
        (rounds attempt : ℕ) (last : Option Err)
        → attempt + rounds ≡ n + 1
        → attempt ≤ n
        → ((j : ℕ) → j < attempt → IsRetried operation j)
        → Ended operation (execute_from r cancelled operation rounds attempt last)
    execute_from-Ended zero attempt last h le before = absurd (omega arith)
    execute_from-Ended (suc rounds) attempt last h le before =
        elim (execute_step rounds attempt last le) [
          | inl (calls, ends) ↦ (attempt, calls, within attempt le, before, ends)
          | inr (e, same, retried, lt) ↦ subst (Ended operation) (sym same) (
              execute_from-Ended rounds (attempt + 1) (some e) (omega arith) (omega arith)
                (extend attempt before retried))
        ]

  rounds-max : {n : ℕ} → r.max_retries ≡ pos n → rounds_of r ≡ n + 1
  unfolding rounds_of
  rounds-max max = ground arith

  -- With a number of retries that is not negative, Execute calls the operation k+1 times for one k
  -- up to that number: every attempt before k failed with a retryable error and was waited out, and
  -- attempt k succeeded, or failed for good, or was the last, or was cancelled in its wait, and the
  -- result says which.
  pub execute-Ended :
      (operation : ℕ → Option Err) {n : ℕ}
      → r.max_retries ≡ pos n
      → Ended operation (execute r cancelled operation)
  unfolding execute
  execute-Ended operation {n} max = rw (rounds-max max) (
      execute_from-Ended operation max (n + 1) 0 none (omega arith) (omega arith)
        (λ j h. elim h [ ]))

  -- With a negative number of retries the operation is never called, and the failure that is
  -- reported wraps no error.
  execute_negative :
      (operation : ℕ → Option Err)
      → r.max_retries <ℤ pos 0
      → execute r cancelled operation
        ≡ record { result = err (exhausted r.max_retries none); calls = 0 }
  unfolding execute rounds_of execute_from
  execute_negative operation h = ground arith

  abbrev pub forget {ℓ} : {A : Type ℓ} → Result A → Result (Unit {0})
  forget (ok a) = ok tt
  forget (err f) = err f

  -- What ExecuteWithValue returns, given what its operation returned at the last call.
  module _ {ℓ} {A : Type ℓ} (operation : ℕ → A × Option Err) where
    abbrev pub Agrees : Outcome A → Outcome (Unit {0}) → Type ℓ
    Agrees out plain =
        (out.calls ≡ plain.calls)
        × (forget out.result ≡ plain.result)
        × ((a : A) → out.result ≡ ok a → a ≡ (operation (out.calls - 1)).0)

    execute_value_from-Agrees :
        (rounds attempt : ℕ) (last : Option Err)
        → Agrees
            (execute_value_from r cancelled operation rounds attempt last)
            (execute_from r cancelled (λ k. (operation k).1) rounds attempt last)
    unfolding execute_from execute_value_from
    execute_value_from-Agrees zero attempt last = (refl, refl, λ a e. cc)
    execute_value_from-Agrees (suc rounds) attempt last =
        elim (Option-cases (operation attempt).1) [
          | inl e ↦ ground arith
          | inr (x, e) ↦ ground (arith, execute_value_from-Agrees rounds (attempt + 1) (some x))
        ]

    -- ExecuteWithValue makes as many calls as Execute does of the operation without its value, and
    -- ends as Execute does; a value that it returns is that of the last call.
    pub execute_with_value-Agrees :
        Agrees
          (execute_with_value r cancelled operation)
          (execute r cancelled (λ k. (operation k).1))
    unfolding execute execute_with_value
    execute_with_value-Agrees = execute_value_from-Agrees (rounds_of r) 0 none
