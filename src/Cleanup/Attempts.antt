-- ===== src/Cleanup/Attempts.antt =====
-- The cleanups of a manager without a Docker client (internal/diagnostics/resource_cleanup.go), as the
-- program makes it: which resources they try, and what they answer and record.
use docker_net_doctor.Prelude.{
  ℕ, ◌≡◌, ◌≢◌, ◌⊎◌, Bool, true, false, Option, none, some, List, [], ◌∷◌, ◌++◌, map, keep, length,
}
use docker_net_doctor.Prelude.Int.{ℤ}
use docker_net_doctor.Prelude.Text.{Text}
use docker_net_doctor.Errors.{Error}
use docker_net_doctor.Cleanup.{
  TrackedResource, CleanupOperation, ResourceCleanupManager, get_all_tracked_resources,
}
use docker_net_doctor.Cleanup.Operations.{
  Surroundings, result_of, panics, batch_size, no_progress, Progress, run_batches, latest,
}
use mathlib.Core.List.{Perm}
use mathlib.Core.List.Perm

module _ (show_int : ℤ → Text) where
  -- What no call changes of a manager that has no client.
  record IsIdle (m : ResourceCleanupManager) : Type 0 where
    clientless : m.has_client ≡ false
    sound : panics m ≡ false

  -- The outcome of a cleanup that tries the resources that pass a test. Each is tried once, in some order;
  -- the history records them with their results; what was tracked still is; there is no error in a dry run
  -- or if none passes, and else there is one.
  pub record Tries (p : TrackedResource → Bool) (m : ResourceCleanupManager)
      (outcome : Option (ResourceCleanupManager × Option Error)) : Type 0 where
    pub final : ResourceCleanupManager
    pub error : Option Error
    pub operation : CleanupOperation
    pub ends : outcome ≡ some (final, error)
    pub chosen : operation.resources ≡ keep p (get_all_tracked_resources m)
    pub one_each : Perm operation.results (map (result_of m) operation.resources)
    pub recorded : final.cleanup_history ≡ latest show_int (m.cleanup_history ++ (operation ∷ []))
    pub still_tracked : get_all_tracked_resources final ≡ get_all_tracked_resources m
    pub forgiven : (m.config.dry_run ≡ true) ⊎ (operation.resources ≡ []) → error ≡ none
    pub reported : m.config.dry_run ≡ false → operation.resources ≢ [] → error ≢ none

  module _ (m : ResourceCleanupManager) (h : IsIdle m) (env : Surroundings)
      (calm : (i : ℕ) → env.done i ≡ none) where
    module _ (rs : List TrackedResource) where
      start : Progress
      start = no_progress show_int m

      end : Progress
      unfolding start
      end = run_batches env (batch_size m) (length rs) 0 rs start
