-- ===== src/Recovery/Managed.antt =====
-- The error recovery (internal/diagnostics/error_recovery.go) over the cleanup manager that
-- NewErrorRecovery makes for it (internal/diagnostics/resource_cleanup.go). The manager is in an unexported
-- field, and nothing in the package tracks a resource.
use docker_net_doctor.Prelude.{ℕ, ◌+◌, ◌≡◌, false, Option, none, some, []}
use docker_net_doctor.Prelude.Int.{ℤ, pos}
use docker_net_doctor.Prelude.Text.{Text}
use docker_net_doctor.Prelude.Float.{Float64}
use docker_net_doctor.Errors.{Error}
use docker_net_doctor.Cleanup.{CleanupConfig, ResourceCleanupManager, new_resource_cleanup_manager}
use docker_net_doctor.Cleanup.Operations.{
  Surroundings, cleanup_after_error, perform_cleanup, perform_aggressive_cleanup,
  perform_final_cleanup, shutdown,
}
use docker_net_doctor.Recovery.Operations.{
  Cleaner, RecoveryConfig, ErrorRecovery, given, new_error_recovery,
}
use docker_net_doctor.Recovery.Calls

-- The settings of the manager: what is not set is zero.
unfoldable pub manager_config : RecoveryConfig → CleanupConfig
manager_config c = record {
  timeout = c.cleanup_timeout;
  auto_cleanup = c.auto_cleanup;
  dry_run = false;
  preserve_debug_data = c.preserve_debug_data;
  cleanup_retention = pos 0;
  resource_max_age = pos 0;
  require_confirmation = false;
  allow_force_cleanup = false;
  backup_before_cleanup = false;
  max_concurrent_cleanups = pos 0;
  cleanup_batch_size = pos 0;
  enable_periodic_cleanup = false;
  periodic_cleanup_interval = pos 0;
}

-- A manager with the number of its calls so far.
abbrev Counted : Type 0
Counted = ResourceCleanupManager × ℕ

-- The outcome of a call. With the settings above none panics; the interface would go on without it.
abbrev answer : Counted → Option (ResourceCleanupManager × Option Error) → Counted × Option Error
answer (m, i) none = ((m, i + 1), none)
answer (m, i) (some (t, e)) = ((t, i + 1), e)

module _ (show_int : ℤ → Text) where
  -- The manager behind the interface: `env` gives the surroundings of each call.
  abbrev pub manager_cleaner : (ℕ → Surroundings) → Cleaner
  manager_cleaner env = record {
    Manager = Counted;
    cleanup_after_error = λ d c. answer c (cleanup_after_error show_int d (env c.1) c.0);
    perform_cleanup = λ c. answer c (perform_cleanup show_int (env c.1) c.0);
    perform_aggressive_cleanup = λ c. answer c (perform_aggressive_cleanup show_int (env c.1) c.0);
    perform_final_cleanup = λ c. answer c (perform_final_cleanup show_int (env c.1) c.0);
    shutdown_manager = λ c. answer c (shutdown show_int (env c.1) c.0);
  }

  -- A manager that tracks nothing and has cleaned nothing up.
  pub record IsEmpty (m : ResourceCleanupManager) : Type 0 where
    pub no_containers : m.tracked_containers ≡ []
    pub no_networks : m.tracked_networks ≡ []
    pub no_volumes : m.tracked_volumes ≡ []
    pub none_cleaned : m.metrics.resources_cleaned_up ≡ 0

  -- A cleanup that succeeds and leaves the manager empty.
  abbrev Done : Option (ResourceCleanupManager × Option Error) → Type 0
  Done none = ⊥
  Done (some (t, e)) = IsEmpty t × (e ≡ none)

  module _ (fl : Float64) (env : ℕ → Surroundings) where
    -- What NewErrorRecovery returns.
    abbrev pub new_managed : ℕ → Option RecoveryConfig → ErrorRecovery fl (manager_cleaner env)
    new_managed now config =
        let k = manager_cleaner env in
        new_error_recovery fl k
          (new_resource_cleanup_manager (some (manager_config (given fl k config))), 0) now config
