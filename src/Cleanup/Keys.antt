-- ===== src/Cleanup/Keys.antt =====
-- How the maps of a cleanup manager (internal/diagnostics/resource_cleanup.go) are keyed.
use docker_net_doctor.Prelude.{◌≡◌, List, All}
use docker_net_doctor.Prelude.Int.{ℤ}
use docker_net_doctor.Prelude.Dict.{Unique}
use docker_net_doctor.Prelude.Text.{Text, Text-eq}
use docker_net_doctor.Cleanup.{
  container_type, network_type, volume_type, TrackedResource, ResourceCleanupManager,
}

-- Every entry stands under the identifier of its resource, in the map of its type, and no key twice.
abbrev pub Keyed : ℤ → List (Text × TrackedResource) → Type 0
Keyed t l = All (λ e. (e.1.id ≡ e.0) × (e.1.type ≡ t)) l × Unique l

pub record IsKeyed (m : ResourceCleanupManager) : Type 0 where
  pub containers : Keyed container_type m.tracked_containers
  pub networks : Keyed network_type m.tracked_networks
  pub volumes : Keyed volume_type m.tracked_volumes
