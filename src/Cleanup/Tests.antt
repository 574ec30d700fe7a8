-- ===== src/Cleanup/Tests.antt =====
-- The theorems on internal/diagnostics/resource_cleanup.go at managers that track a temporary container
-- and a protected network.
use docker_net_doctor.Prelude.{◌≡◌, refl, true, false, none, some, List, [], ◌∷◌, map, keep}
use docker_net_doctor.Prelude.Int.{ℤ, negsuc}
use docker_net_doctor.Prelude.Schedule.{arrange}
use docker_net_doctor.Prelude.Text.{Text, codes}
use docker_net_doctor.Cleanup.{
  container_type, network_type, TrackedResource, ResourceCleanupManager, default_cleanup_config,
  new_resource_cleanup_manager, get_all_tracked_resources,
}
use docker_net_doctor.Cleanup.Operations.{
  Surroundings, panics, perform_aggressive_cleanup, result_of, process_batch,
}
use docker_net_doctor.Cleanup.Calls.{Call, track, untrack, manually, stop, is_tracking, run}
use docker_net_doctor.Cleanup.Accounts.{IsAccounted, calls-IsAccounted}
use docker_net_doctor.Cleanup.Clientless.{cleanups_remove_nothing}

abbrev no_text : ℤ → Text
no_text n = []

abbrev web : TrackedResource
web = record {
  id = codes "c1";
  name = codes "web";
  type = container_type;
  created_at = 0;
  last_used = 0;
  tags = [];
  protected = false;
  diagnostic = false;
  temporary = true;
  created_by = [];
  depends_on = [];
  depended_by = [];
}

abbrev bridge : TrackedResource
bridge = record web {
  id = codes "n1";
  name = codes "bridge";
  type = network_type;
  protected = true;
  temporary = false;
}

abbrev quiet : Surroundings
quiet = record {
  started = 5;
  clocks = record { chosen = 5; looked = λ r. 6 };
  ended = 9;
  now = 8;
  done = λ i. none;
  results_order = λ i. 1 ∷ [];
  errors_order = λ i. [];
}

-- The manager that the code makes, with no client.
abbrev calls : List Call
calls =
    track web ∷ track bridge ∷ manually quiet ∷ untrack (codes "n1") network_type ∷ stop quiet ∷ []

default_sound : panics (new_resource_cleanup_manager none) ≡ false
unfolding new_resource_cleanup_manager
default_sound = refl

calls-IsAccounted_example :
    (t : ResourceCleanupManager) × ((run no_text calls (new_resource_cleanup_manager none) ≡ some t)
      × IsAccounted t)
calls-IsAccounted_example = calls-IsAccounted no_text none calls default_sound

abbrev tracking : ResourceCleanupManager
tracking = record (new_resource_cleanup_manager none) {
  tracked_containers = (codes "c1", web) ∷ [];
  tracked_networks = (codes "n1", bridge) ∷ [];
  metrics = record ((new_resource_cleanup_manager none).metrics) { resources_tracked = 2 };
}

cleanups_remove_nothing_example :
    (t : ResourceCleanupManager) × ((u : ResourceCleanupManager) × (run no_text calls
          (new_resource_cleanup_manager none)
        ≡ some t)
      × (run no_text (keep is_tracking calls) (new_resource_cleanup_manager none) ≡ some u)
      × (t.tracked_containers ≡ u.tracked_containers)
      × (t.tracked_networks ≡ u.tracked_networks)
      × (t.tracked_volumes ≡ u.tracked_volumes))
cleanups_remove_nothing_example = cleanups_remove_nothing no_text none calls default_sound

-- A cleanup of both, the second of which finishes first.
both_fail :
    map
      (λ r. r.error)
      (process_batch quiet 0 (web ∷ bridge ∷ []) (new_resource_cleanup_manager none)).1
    ≡ codes "docker client not available" ∷ codes "docker client not available" ∷ []
unfolding process_batch new_resource_cleanup_manager result_of arrange
both_fail = refl

-- A batch size below zero is a panic when there is something to clean.
negative_batch :
    perform_aggressive_cleanup no_text quiet
      (record tracking { config = record default_cleanup_config { cleanup_batch_size = negsuc 0 } })
    ≡ none
unfolding perform_aggressive_cleanup new_resource_cleanup_manager get_all_tracked_resources
negative_batch = refl
