-- ===== src/Cleanup/Clientless.antt =====
-- What the cleanups of a manager do that has no client, as every manager of
-- internal/diagnostics/resource_cleanup.go: NewResourceCleanupManager sets none.
use docker_net_doctor.Prelude.{
  ◌≡◌, refl, subst, inl, inr, false, ◌&&◌, Option, some, List, [], ◌∷◌, keep, arith, Option-cases,
}
use docker_net_doctor.Prelude.Int.{ℤ}
use docker_net_doctor.Prelude.Text.{Text, Text-eq}
use docker_net_doctor.Errors.{ErrorCode-eq}
use docker_net_doctor.Cleanup.{
  TrackedResource, CleanupConfig, ResourceCleanupManager, new_resource_cleanup_manager,
  track_resource, untrack_resource, is_removed,
}
use docker_net_doctor.Cleanup.Operations.{
  result_of, cleanup_resource, panics, update_cleanup_metrics, record_cleanup_operation,
}
use docker_net_doctor.Cleanup.Calls.{
  Call, track, untrack, after_error, manually, aggressively, finally, stop, is_tracking, call, run,
  Keeps, Every, call-keeps, call-total, call_sound,
}

-- A manager without a client that tracks what another one tracks.
pub record Tracks (n m : ResourceCleanupManager) : Type 0 where
  pub clientless : m.has_client ≡ false
  pub containers : m.tracked_containers ≡ n.tracked_containers
  pub networks : m.tracked_networks ≡ n.tracked_networks
  pub volumes : m.tracked_volumes ≡ n.tracked_volumes

nothing_removed :
    (r : TrackedResource) (m : ResourceCleanupManager)
    → m.has_client ≡ false
    → ((result_of m r).success && is_removed (result_of m r).action) ≡ false
unfolding result_of
nothing_removed r m h = ground (arith, h)

track-Tracks :
    (r : TrackedResource) (n m : ResourceCleanupManager)
    → Tracks n m
    → Tracks (track_resource r n) (track_resource r m)
unfolding track_resource
track-Tracks r n m h = record {
  clientless = ground (arith, h.clientless);
  containers = ground (arith, h.containers);
  networks = ground (arith, h.networks);
  volumes = ground (arith, h.volumes);
}

untrack-Tracks :
    (id : Text) (t : ℤ) (n m : ResourceCleanupManager)
    → Tracks n m
    → Tracks (untrack_resource id t n) (untrack_resource id t m)
unfolding untrack_resource
untrack-Tracks id t n m h = record {
  clientless = ground (arith, h.clientless);
  containers = ground (arith, h.containers);
  networks = ground (arith, h.networks);
  volumes = ground (arith, h.volumes);
}

module _ (show_int : ℤ → Text) where
  pub Tracks-keeps : (n : ResourceCleanupManager) → Keeps show_int (Tracks n)
  unfolding cleanup_resource update_cleanup_metrics record_cleanup_operation
  Tracks-keeps n = record {
    cleaned = λ r m h. rw (cleanup_resource, nothing_removed r m h.clientless) h;
    counted_up = λ now results m a h. record {
      clientless = h.clientless;
      containers = h.containers;
      networks = h.networks;
      volumes = h.volumes;
    };
    recorded = λ o m h. record {
      clientless = h.clientless;
      containers = h.containers;
      networks = h.networks;
      volumes = h.volumes;
    };
    stopped_now = λ m h. record {
      clientless = h.clientless;
      containers = h.containers;
      networks = h.networks;
      volumes = h.volumes;
    };
  }

  -- Two runs of which the one leaves the cleanups out.
  abbrev Alike : List Call → ResourceCleanupManager → ResourceCleanupManager → Type 0
  Alike calls m n =
      (t : ResourceCleanupManager) × ((u : ResourceCleanupManager) × (run show_int calls m ≡ some t)
        × (run show_int (keep is_tracking calls) n ≡ some u)
        × Tracks u t)

  -- A cleanup, and the calls after it.
  cleanup-Alike :
      (c : Call) (cs : List Call) (m n : ResourceCleanupManager)
      → is_tracking c ≡ false
      → panics m ≡ false
      → Tracks n m
      → ((t : ResourceCleanupManager) → panics t ≡ false → Tracks n t → Alike cs t n)
      → Alike (c ∷ cs) m n
  unfolding run
  cleanup-Alike c cs m n e s h rest =
      let kept = call-keeps show_int (Tracks n) (Tracks-keeps n) c m e h in
      let sound = call_sound show_int c m s in
      elim (Option-cases (call show_int c m)) [
        | inl none_left ↦ absurd (call-total show_int c m s none_left)
        | inr (t, y) ↦
            rw (run, y, e)
              (rest t (subst (Every (λ u. panics u ≡ false)) y sound)
                (subst (Every (Tracks n)) y kept))
      ]

  run-Alike :
      (calls : List Call) (m n : ResourceCleanupManager)
      → panics m ≡ false
      → Tracks n m
      → Alike calls m n
  unfolding run
  run-Alike [] m n s h = (m, (n, refl, refl, h))
  run-Alike (track r ∷ cs) m n s h =
      run-Alike cs (track_resource r m) (track_resource r n) (call_sound show_int (track r) m s)
        (track-Tracks r n m h)
  run-Alike (untrack id t ∷ cs) m n s h =
      run-Alike cs (untrack_resource id t m) (untrack_resource id t n)
        (call_sound show_int (untrack id t) m s) (untrack-Tracks id t n m h)
  run-Alike (after_error d env ∷ cs) m n s h =
      cleanup-Alike (after_error d env) cs m n refl s h (λ t x y. run-Alike cs t n x y)
  run-Alike (manually env ∷ cs) m n s h =
      cleanup-Alike (manually env) cs m n refl s h (λ t x y. run-Alike cs t n x y)
  run-Alike (aggressively env ∷ cs) m n s h =
      cleanup-Alike (aggressively env) cs m n refl s h (λ t x y. run-Alike cs t n x y)
  run-Alike (finally env ∷ cs) m n s h =
      cleanup-Alike (finally env) cs m n refl s h (λ t x y. run-Alike cs t n x y)
  run-Alike (stop env ∷ cs) m n s h =
      cleanup-Alike (stop env) cs m n refl s h (λ t x y. run-Alike cs t n x y)

  -- No cleanup of a manager that NewResourceCleanupManager has made ever removes anything: with settings
  -- under which no cleanup panics, any calls leave tracked what the calls of TrackResource and
  -- UntrackResource among them alone leave tracked.
  pub cleanups_remove_nothing :
      (config : Option CleanupConfig) (calls : List Call)
      → panics (new_resource_cleanup_manager config) ≡ false
      → (t : ResourceCleanupManager) × ((u : ResourceCleanupManager) × (run show_int calls
              (new_resource_cleanup_manager config)
            ≡ some t)
          × (run show_int (keep is_tracking calls) (new_resource_cleanup_manager config) ≡ some u)
          × (t.tracked_containers ≡ u.tracked_containers)
          × (t.tracked_networks ≡ u.tracked_networks)
          × (t.tracked_volumes ≡ u.tracked_volumes))
  unfolding new_resource_cleanup_manager
  cleanups_remove_nothing config calls sound =
      let new = new_resource_cleanup_manager config in
      let (t, (u, x, y, h)) =
        run-Alike calls new new sound
          (record { clientless = refl; containers = refl; networks = refl; volumes = refl }) in
      (t, (u, x, y, h.containers, h.networks, h.volumes))
