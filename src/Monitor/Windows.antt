-- ===== src/Monitor/Windows.antt =====
-- When the error-rate monitor of internal/diagnostics/worker_pool.go is open.
use docker_net_doctor.Prelude.{
  ℕ, suc, ◌+◌, ◌≤◌, ◌<◌, ◌≡◌, refl, true, false, List, [], ◌∷◌, arith, length,
}
use docker_net_doctor.Prelude.Int.{ltb_ℤ}
use docker_net_doctor.Prelude.Clock.{time_sub}
use docker_net_doctor.Prelude.Float.{Float64}
use docker_net_doctor.Monitor.{
  ErrorRateMonitor, new_error_rate, check_window, update_circuit_state, record_error,
  record_success, is_open, Ended, record_end,
}

module _ (fl : Float64) where
  -- The ends of jobs, in the order in which they are recorded.
  unfoldable pub record_ends : List (Ended fl) → ErrorRateMonitor fl → ErrorRateMonitor fl
  record_ends [] e = e
  record_ends (j ∷ js) e = record_ends js (record_end fl j e)

  abbrev pub seen : ErrorRateMonitor fl → ℕ
  seen e = e.error_count + e.success_count

  check_window_cases :
      (now later : ℕ) (e : ErrorRateMonitor fl)
      → let t = check_window fl now later e in
        (seen t ≤ seen e) × (e.circuit_open ≡ false → t.circuit_open ≡ false)
  unfolding check_window
  check_window_cases now later e = ground arith

  update_cases :
      (e : ErrorRateMonitor fl)
      → let t = update_circuit_state fl e in
        (seen t ≡ seen e) × (seen e < 10 → t.circuit_open ≡ e.circuit_open)
  unfolding update_circuit_state
  update_cases e = ground arith

  end_cases :
      (j : Ended fl) (e : ErrorRateMonitor fl)
      → let t = record_end fl j e in
        (seen t ≤ suc (seen e)) × (seen e < 9 → e.circuit_open ≡ false → t.circuit_open ≡ false)
  unfolding record_end record_error record_success
  end_cases j e =
      let t = check_window fl j.now j.later e in
      ground (
        arith,
        check_window_cases j.now j.later e,
        update_cases (record t { error_count = t.error_count + 1 }),
        update_cases (record t { success_count = t.success_count + 1 }),
      )

  few_ends :
      (js : List (Ended fl)) (e : ErrorRateMonitor fl)
      → e.circuit_open ≡ false
      → seen e + length js < 10
      → (record_ends js e).circuit_open ≡ false
  unfolding record_ends
  few_ends [] e c h = c
  few_ends (j ∷ js) e c h =
      let (grows, stays) = end_cases j e in
      few_ends js (record_end fl j e) (stays (omega arith) c) (omega (arith, grows))

  -- A new monitor stays closed over fewer than ten ends of jobs, even if every one of them failed.
  pub few_ends_stay_closed :
      (start : ℕ) (js : List (Ended fl))
      → length js < 10
      → is_open fl (record_ends js (new_error_rate fl start)) ≡ false
  unfolding new_error_rate is_open
  few_ends_stay_closed start js h = few_ends js (new_error_rate fl start) refl (omega (arith, h))

  -- The first end of a job that is recorded after the window has passed closes the circuit, whatever
  -- it was, and is the only one that is counted from then on.
  pub window_forgets :
      (j : Ended fl) (e : ErrorRateMonitor fl)
      → ltb_ℤ e.window (time_sub j.now e.last_reset) ≡ true
      → let t = record_end fl j e in
        (is_open fl t ≡ false) × (seen t ≡ 1) × (t.last_reset ≡ j.later)
  unfolding record_end record_error record_success check_window update_circuit_state is_open
  window_forgets j e passed = ground arith
