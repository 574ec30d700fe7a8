-- ===== src/Breaker/Recovery.antt =====
-- A single caller that goes through ExecuteWithRecovery (error_recovery.go) after an outage, over the
-- half-open state of circuit_breaker.go.
use docker_net_doctor.Prelude.{
  ℕ, suc, ◌+◌, ◌≤◌, ◌<◌, ◌≡◌, refl, ◌≢◌, true, false, List, [], ◌∷◌, arith, length, All,
}
use docker_net_doctor.Prelude.Int.{pos, ◌≤ℤ◌, ◌<ℤ◌, leb_ℤ}
use docker_net_doctor.Prelude.Clock.{time_sub}
use docker_net_doctor.Prelude.Float.{Float64}
use docker_net_doctor.Breaker.{closed, opened, half_open, Config, Breaker}
use docker_net_doctor.Breaker.Operations.{
  can_execute, record_success, record_failure, Attempt, guarded_attempt, run_attempts,
}

module _ (fl : Float64) where
  -- Where a breaker stays when a half-open period admits fewer requests than it wants successes.
  record IsTrapped (c : Config fl) (cb : Breaker fl) : Type 0 where
    same_config : cb.config ≡ c
    not_closed : cb.state ≢ closed
    earned : cb.state ≡ half_open → cb.success_count ≤ cb.half_open_request_count
    bounded : cb.state ≡ half_open → pos cb.half_open_request_count ≤ℤ c.half_open_max_requests

  module _ {c : Config fl} (some_probe : pos 0 <ℤ c.half_open_max_requests)
      (too_few : c.half_open_max_requests <ℤ c.consecutive_successes) where
    attempt-IsTrapped :
        (cb : Breaker fl) (a : Attempt fl)
        → IsTrapped c cb
        → IsTrapped c (guarded_attempt fl cb a).0
    unfolding guarded_attempt can_execute record_success record_failure
    attempt-IsTrapped cb a t = ground arith

    attempts-IsTrapped :
        (cb : Breaker fl) (tries : List (Attempt fl))
        → IsTrapped c cb
        → IsTrapped c (run_attempts fl cb tries)
    unfolding run_attempts
    attempts-IsTrapped cb [] t = t
    attempts-IsTrapped cb (a ∷ rest) t =
        attempts-IsTrapped (guarded_attempt fl cb a).0 rest (attempt-IsTrapped cb a t)

  -- An open breaker whose half-open period admits at least one request, but fewer than the successes
  -- that it wants, is never closed again by a single caller, however many attempts it makes, whenever
  -- it makes them and whatever becomes of them.
  pub open_never_closes :
      (cb : Breaker fl) (tries : List (Attempt fl))
      → cb.state ≡ opened
      → pos 0 <ℤ cb.config.half_open_max_requests
      → cb.config.half_open_max_requests <ℤ cb.config.consecutive_successes
      → (run_attempts fl cb tries).state ≢ closed
  open_never_closes cb tries e p q =
      (attempts-IsTrapped p q cb tries (record {
        same_config = refl;
        not_closed = λ h. cc;
        earned = λ h. cc;
        bounded = λ h. cc;
      })).not_closed

  refused :
      (cb : Breaker fl) (a : Attempt fl)
      → cb.state ≡ half_open
      → cb.config.half_open_max_requests ≤ℤ pos cb.half_open_request_count
      → let t = guarded_attempt fl cb a in
        (t.0.state ≡ half_open)
        × (t.0.config.half_open_max_requests ≤ℤ pos t.0.half_open_request_count)
        × (t.1 ≡ false)
  unfolding guarded_attempt can_execute
  refused cb a e h = ground arith

  -- A half-open breaker that has admitted all its requests stays half-open and refuses every later
  -- attempt of a single caller, whatever time has passed.
  pub half_open_stuck :
      (cb : Breaker fl) (tries : List (Attempt fl)) (a : Attempt fl)
      → cb.state ≡ half_open
      → cb.config.half_open_max_requests ≤ℤ pos cb.half_open_request_count
      → let t = run_attempts fl cb tries in
        (t.state ≡ half_open) × ((guarded_attempt fl t a).1 ≡ false)
  unfolding run_attempts
  half_open_stuck cb [] a e h = (e, (refused cb a e h).2)
  half_open_stuck cb (b ∷ rest) a e h =
      let (e', h', _) = refused cb b e h in half_open_stuck (guarded_attempt fl cb b).0 rest a e' h'

  -- A half-open breaker with `k` successes out of `k` admitted requests.
  record IsProbing (c : Config fl) (k : ℕ) (cb : Breaker fl) : Type 0 where
    same_config : cb.config ≡ c
    probing : cb.state ≡ half_open
    successes : cb.success_count ≡ k
    requests : cb.half_open_request_count ≡ k

  abbrev AllSucceed : List (Attempt fl) → Type 0
  AllSucceed tries = All (λ a. a.succeeds ≡ true) tries

  module _ {c : Config fl} (m : ℕ) (wants : c.consecutive_successes ≡ pos m)
      (room : pos m ≤ℤ c.half_open_max_requests) where
    probe_again :
        (cb : Breaker fl) (k : ℕ) (a : Attempt fl)
        → IsProbing c k cb
        → suc k < m
        → a.succeeds ≡ true
        → IsProbing c (suc k) (guarded_attempt fl cb a).0
    unfolding guarded_attempt can_execute record_success
    probe_again cb k a p h s = ground arith

    probe_last :
        (cb : Breaker fl) (k : ℕ) (a : Attempt fl)
        → IsProbing c k cb
        → suc k ≡ m
        → a.succeeds ≡ true
        → let t = (guarded_attempt fl cb a).0 in (t.state ≡ closed) × (t.failure_count ≡ 0)
    unfolding guarded_attempt can_execute record_success
    probe_last cb k a p h s = ground arith

    probes_close :
        (cb : Breaker fl) (k : ℕ) (a : Attempt fl) (rest : List (Attempt fl))
        → IsProbing c k cb
        → AllSucceed (a ∷ rest)
        → suc k + length rest ≡ m
        → let t = run_attempts fl cb (a ∷ rest) in (t.state ≡ closed) × (t.failure_count ≡ 0)
    unfolding run_attempts
    probes_close cb k a [] p (s, ss) h = probe_last cb k a p (omega arith) s
    probes_close cb k a (b ∷ rest) p (s, ss) h =
        probes_close (guarded_attempt fl cb a).0 (suc k) b rest
          (probe_again cb k a p (omega arith) s) ss (omega arith)

    first_probe :
        (cb : Breaker fl) (a : Attempt fl)
        → cb.config ≡ c
        → cb.state ≡ opened
        → leb_ℤ c.recovery_timeout (time_sub a.start cb.last_state_change) ≡ true
        → a.succeeds ≡ true
        → 1 < m
        → IsProbing c 1 (guarded_attempt fl cb a).0
    unfolding guarded_attempt can_execute record_success
    first_probe cb a e o t s h = ground arith

    only_probe :
        (cb : Breaker fl) (a : Attempt fl)
        → cb.config ≡ c
        → cb.state ≡ opened
        → leb_ℤ c.recovery_timeout (time_sub a.start cb.last_state_change) ≡ true
        → a.succeeds ≡ true
        → 1 ≡ m
        → let t = (guarded_attempt fl cb a).0 in (t.state ≡ closed) × (t.failure_count ≡ 0)
    unfolding guarded_attempt can_execute record_success
    only_probe cb a e o t s h = ground arith

  -- Where the half-open period admits as many requests as it wants successes, an open breaker whose
  -- recovery timeout has passed by the first attempt is closed, with its failures forgotten, by as
  -- many successful attempts in a row as the settings ask for.
  pub recovery_closes :
      (cb : Breaker fl) (a : Attempt fl) (rest : List (Attempt fl))
      → cb.state ≡ opened
      → leb_ℤ cb.config.recovery_timeout (time_sub a.start cb.last_state_change) ≡ true
      → cb.config.consecutive_successes ≡ pos (suc (length rest))
      → cb.config.consecutive_successes ≤ℤ cb.config.half_open_max_requests
      → AllSucceed (a ∷ rest)
      → let t = run_attempts fl cb (a ∷ rest) in (t.state ≡ closed) × (t.failure_count ≡ 0)
  unfolding run_attempts
  recovery_closes cb a [] e t w r (s, ss) =
      only_probe {c = cb.config} 1 w (rw w at r) cb a refl e t s refl
  recovery_closes cb a (b ∷ rest) e t w r (s, ss) =
      probes_close {c = cb.config} (suc (suc (length rest))) w (rw w at r)
        (guarded_attempt fl cb a).0 1 b rest
        (first_probe {c = cb.config} (suc (suc (length rest))) w (rw w at r) cb a refl e t s
          (omega arith))
        ss (omega arith)
