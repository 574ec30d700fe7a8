-- ===== src/Breaker/Outage.antt =====
-- Tripping and failing fast, over circuit_breaker.go.
use docker_net_doctor.Prelude.{
  ℕ, suc, ◌+◌, ◌<◌, ◌≡◌, refl, ◌⊎◌, inl, inr, false, List, [], ◌∷◌, arith, length, All, map, ap,
  ◌∙◌,
}
use docker_net_doctor.Prelude.Int.{pos, ◌≤ℤ◌, ◌<ℤ◌}
use docker_net_doctor.Prelude.Clock.{time_sub-lt}
use docker_net_doctor.Prelude.Float.{Float64}
use docker_net_doctor.Breaker.{closed, opened, Breaker, should_open_circuit}
use docker_net_doctor.Breaker.Operations.{
  can_execute, record_failure, Attempt, guarded_attempt, run_attempts,
}
use docker_net_doctor.Breaker.Invariant.{Call, fails, step, run}

module _ (fl : Float64) where
  abbrev pub fail_all : List (ℕ × ℕ) → List (Call fl)
  fail_all = map λ t. fails t.0 t.1

  failure_step :
      (cb : Breaker fl) (now later : ℕ)
      → (cb.state ≡ closed) ⊎ (cb.state ≡ opened)
      → let t = record_failure fl cb now later in
        (t.state ≡ opened)
        ⊎ ((t.state ≡ closed)
            × (t.config ≡ cb.config)
            × (t.failure_count ≡ suc cb.failure_count)
            × (pos t.failure_count <ℤ cb.config.failure_threshold))
  unfolding record_failure should_open_circuit
  failure_step cb now later h = ground arith

  opened_stays :
      (cb : Breaker fl) (times : List (ℕ × ℕ))
      → cb.state ≡ opened
      → (run fl cb (fail_all times)).state ≡ opened
  unfolding run step record_failure
  opened_stays cb [] e = e
  opened_stays cb ((now, later) ∷ rest) e =
      opened_stays (record_failure fl cb now later) rest (ground arith)

  -- A closed breaker that counts as many failures as its threshold, those it remembers included, with
  -- no call of another kind between them, is open.
  pub failures_trip :
      (cb : Breaker fl) (now later : ℕ) (rest : List (ℕ × ℕ))
      → cb.state ≡ closed
      → cb.config.failure_threshold ≤ℤ pos (cb.failure_count + suc (length rest))
      → (run fl cb (fail_all ((now, later) ∷ rest))).state ≡ opened
  unfolding run step
  failures_trip cb now later [] e h = elim (failure_step cb now later (inl e)) [
    | inl o ↦ o
    | inr (_, _, n, lt) ↦ absurd (ground arith)
  ]
  failures_trip cb now later ((now', later') ∷ rest) e h =
      elim (failure_step cb now later (inl e)) [
        | inl o ↦ opened_stays (record_failure fl cb now later) ((now', later') ∷ rest) o
        | inr (s, c, n, lt) ↦
            failures_trip (record_failure fl cb now later) now' later' rest s
              (rw (c, n) (omega arith))
      ]

  -- An attempt is early while the recovery timeout has not passed since a time.
  abbrev pub AllEarly : ℕ → ℕ → List (Attempt fl) → Type 0
  AllEarly since timeout tries = All (λ a. a.start < since + timeout) tries

  early_refused :
      (cb : Breaker fl) (a : Attempt fl) (timeout : ℕ)
      → cb.state ≡ opened
      → cb.config.recovery_timeout ≡ pos timeout
      → a.start < cb.last_state_change + timeout
      → let t = guarded_attempt fl cb a in
        (t.1 ≡ false)
        × (t.0.state ≡ opened)
        × (t.0.config ≡ cb.config)
        × (t.0.last_state_change ≡ cb.last_state_change)
        × (t.0.failure_count ≡ cb.failure_count)
  unfolding guarded_attempt can_execute
  early_refused cb a timeout e w h =
      ground (arith, time_sub-lt a.start cb.last_state_change timeout h)

  fails_fast :
      (cb : Breaker fl) (tries : List (Attempt fl)) (a : Attempt fl) (timeout since failures : ℕ)
      → cb.state ≡ opened
      → cb.config.recovery_timeout ≡ pos timeout
      → cb.last_state_change ≡ since
      → cb.failure_count ≡ failures
      → AllEarly since timeout tries
      → a.start < since + timeout
      → let t = run_attempts fl cb tries in
        (t.state ≡ opened)
        × (t.last_state_change ≡ since)
        × (t.failure_count ≡ failures)
        × ((guarded_attempt fl t a).1 ≡ false)
  unfolding run_attempts
  fails_fast cb [] a timeout since failures e w l f early h =
      (e, l, f, (early_refused cb a timeout e w (omega arith)).0)
  fails_fast cb (b ∷ rest) a timeout since failures e w l f (early, more) h =
      let (_, e', c', l', f') = early_refused cb b timeout e w (omega arith) in
      fails_fast (guarded_attempt fl cb b).0 rest a timeout since failures e'
        (ap (λ c. c.recovery_timeout) c' ∙ w) (l' ∙ l) (f' ∙ f) more h

  -- Until its recovery timeout has passed an open breaker stays open with the time of its change and
  -- its count of failures, however many attempts are made, and refuses the next one.
  pub open_fails_fast :
      (cb : Breaker fl) (tries : List (Attempt fl)) (a : Attempt fl) (timeout : ℕ)
      → cb.state ≡ opened
      → cb.config.recovery_timeout ≡ pos timeout
      → AllEarly cb.last_state_change timeout tries
      → a.start < cb.last_state_change + timeout
      → let t = run_attempts fl cb tries in
        (t.state ≡ opened)
        × (t.last_state_change ≡ cb.last_state_change)
        × (t.failure_count ≡ cb.failure_count)
        × ((guarded_attempt fl t a).1 ≡ false)
  open_fails_fast cb tries a timeout e w = fails_fast cb tries a timeout _ _ e w refl refl
