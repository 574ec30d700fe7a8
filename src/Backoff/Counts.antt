-- ===== src/Backoff/Counts.antt =====
-- The counters of internal/diagnostics/retry_policy.go through the steps of Execute.
use docker_net_doctor.Prelude.{ℕ, ◌+◌, ◌≡◌, refl}
use docker_net_doctor.Prelude.Int.{ℤ}
use docker_net_doctor.Prelude.Float.{Float64}
use docker_net_doctor.Errors.{
  Error, canceled, deadline_exceeded, plain, diagnostic, diagnosed, wrapped,
}
use docker_net_doctor.Backoff.Execute.{RetryMetrics, retried, update_success_rate, by_kind}

module _ (fl : Float64) where
  -- The runs that the metrics count as ended.
  abbrev pub ended : RetryMetrics fl → ℕ
  ended m = m.first_attempt_success + m.successful_retries + m.failed_retries

  abbrev pub Counts : RetryMetrics fl → ℕ → ℕ → Type 0
  Counts m retries ends = (m.total_retries ≡ retries) × (ended m ≡ ends)

  by_kind-Counts :
      (last : Error) (m : RetryMetrics fl) → Counts (by_kind fl last m) m.total_retries (ended m)
  unfolding by_kind
  by_kind-Counts canceled m = (refl, refl)
  by_kind-Counts deadline_exceeded m = (refl, refl)
  by_kind-Counts (plain t) m = (refl, refl)
  by_kind-Counts (diagnostic d) m = (refl, refl)
  by_kind-Counts (diagnosed d e) m = (refl, refl)
  by_kind-Counts (wrapped t e u) m = (refl, refl)

  pub retried-Counts :
      (duration : ℤ) (last : Error) (m : RetryMetrics fl)
      → Counts (retried fl duration last m) (m.total_retries + 1) (ended m)
  unfolding retried
  retried-Counts duration last m = by_kind-Counts last _

  pub update_success_rate-Counts :
      (m : RetryMetrics fl) → Counts (update_success_rate fl m) m.total_retries (ended m)
  unfolding update_success_rate
  update_success_rate-Counts m = (refl, refl)
