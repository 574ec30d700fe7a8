-- ===== src/Cleanup.antt =====
-- internal/diagnostics/resource_cleanup.go: tracked resources, strategies, the choice of the resources to
-- clean, and the cleanup of one resource. What runs a whole cleanup stands in Cleanup/Operations. A type
-- of resource is its number. The identifiers of operations, texts of the clock, are left out.
pub mod Operations
pub mod Single
pub mod Batches
pub mod Keys
pub mod Calls
pub mod Accounts
pub mod Clientless
pub mod Attempts
mod Tests
use docker_net_doctor.Prelude.{
  ℕ, ◌+◌, Bool, true, false, not, ◌&&◌, ◌||◌, Option, none, some, List, [], ◌∷◌, ◌++◌, map, any,
  keep, if◌then◌else◌,
}
use docker_net_doctor.Prelude.Int.{ℤ, pos, ltb_ℤ, eqb_ℤ}
use docker_net_doctor.Prelude.Clock.{time_sub, seconds}
use docker_net_doctor.Prelude.Dict.{lookup, insert, delete, has_key}
use docker_net_doctor.Prelude.Text.{Text, codes, Text-eq}
use docker_net_doctor.Errors.{ErrorType, resource, connection, network, DiagnosticError, Error}
use docker_net_doctor.Errors.Codes.{code_resource_exhaustion}

abbrev pub container_type : ℤ
container_type = pos 0

abbrev pub network_type : ℤ
network_type = pos 1

abbrev pub volume_type : ℤ
volume_type = pos 2

abbrev pub image_type : ℤ
image_type = pos 3

abbrev pub secret_type : ℤ
secret_type = pos 4

abbrev pub config_type : ℤ
config_type = pos 5

unfoldable pub type_string : ℤ → Text
type_string t =
    if eqb_ℤ t container_type
    then codes "container"
    else if eqb_ℤ t network_type
    then codes "network"
    else if eqb_ℤ t volume_type
    then codes "volume"
    else if eqb_ℤ t image_type
    then codes "image"
    else if eqb_ℤ t secret_type
    then codes "secret"
    else if eqb_ℤ t config_type
    then codes "config"
    else codes "unknown"

pub record CleanupConfig : Type 0 where
  pub timeout : ℤ
  pub auto_cleanup : Bool
  pub dry_run : Bool
  pub preserve_debug_data : Bool
  pub cleanup_retention : ℤ
  pub resource_max_age : ℤ
  pub require_confirmation : Bool
  pub allow_force_cleanup : Bool
  pub backup_before_cleanup : Bool
  pub max_concurrent_cleanups : ℤ
  pub cleanup_batch_size : ℤ
  pub enable_periodic_cleanup : Bool
  pub periodic_cleanup_interval : ℤ

abbrev pub default_cleanup_config : CleanupConfig
default_cleanup_config = record {
  timeout = pos (seconds 30);
  auto_cleanup = true;
  dry_run = false;
  preserve_debug_data = false;
  cleanup_retention = pos (seconds 86400);
  resource_max_age = pos (seconds 7200);
  require_confirmation = false;
  allow_force_cleanup = false;
  backup_before_cleanup = false;
  max_concurrent_cleanups = pos 3;
  cleanup_batch_size = pos 10;
  enable_periodic_cleanup = true;
  periodic_cleanup_interval = pos (seconds 3600);
}

pub record TrackedResource : Type 0 where
  pub id : Text
  pub name : Text
  pub type : ℤ
  pub created_at : ℕ
  pub last_used : ℕ
  pub tags : List (Text × Text)
  pub protected : Bool
  pub diagnostic : Bool
  pub temporary : Bool
  pub created_by : Text
  pub depends_on : List Text
  pub depended_by : List Text

pub data CleanupTrigger : Type 0 where
  error_recovery periodic manual emergency on_shutdown : CleanupTrigger

unfoldable pub trigger_string : CleanupTrigger → Text
trigger_string error_recovery = codes "error_recovery"
trigger_string periodic = codes "periodic"
trigger_string manual = codes "manual"
trigger_string emergency = codes "emergency"
trigger_string on_shutdown = codes "shutdown"

pub data CleanupAction : Type 0 where
  removed stopped skipped failed backed_up : CleanupAction

unfoldable pub action_string : CleanupAction → Text
action_string removed = codes "removed"
action_string stopped = codes "stopped"
action_string skipped = codes "skipped"
action_string failed = codes "failed"
action_string backed_up = codes "backed_up"

abbrev pub is_removed : CleanupAction → Bool
is_removed removed = true
is_removed _ = false

pub record ResourceCleanupResult : Type 0 where
  pub resource : TrackedResource
  pub success : Bool
  pub error : Text
  pub action : CleanupAction
  pub time_taken : ℤ
  pub size_freed : ℤ

pub record CleanupOperation : Type 0 where
  pub start_time : ℕ
  pub end_time : ℕ
  pub duration : ℤ
  pub trigger : CleanupTrigger
  pub resources : List TrackedResource
  pub results : List ResourceCleanupResult
  pub success : Bool
  pub error : Text
  pub dry_run : Bool

-- The averages and the health stand in what GetMetrics returns.
pub record CleanupMetrics : Type 0 where
  pub total_cleanups : ℕ
  pub successful_cleanups : ℕ
  pub failed_cleanups : ℕ
  pub resources_tracked : ℕ
  pub resources_cleaned_up : ℕ
  pub resources_skipped : ℕ
  pub total_cleanup_time : ℤ
  pub max_cleanup_time : ℤ
  pub cleanups_by_type : List (ℤ × ℕ)
  pub storage_freed : ℤ
  pub last_successful_cleanup : ℕ

-- `has_client` says that the client is not nil, `stopped` also that the channel stopCh is closed.
pub record ResourceCleanupManager : Type 0 where
  pub has_client : Bool
  pub config : CleanupConfig
  pub tracked_containers : List (Text × TrackedResource)
  pub tracked_networks : List (Text × TrackedResource)
  pub tracked_volumes : List (Text × TrackedResource)
  pub cleanup_history : List CleanupOperation
  pub metrics : CleanupMetrics
  pub stopped : Bool

abbrev pub given : Option CleanupConfig → CleanupConfig
given none = default_cleanup_config
given (some c) = c

-- Nothing in the repository sets the client of a manager.
unfoldable pub new_resource_cleanup_manager : Option CleanupConfig → ResourceCleanupManager
new_resource_cleanup_manager config = record {
  has_client = false;
  config = given config;
  tracked_containers = [];
  tracked_networks = [];
  tracked_volumes = [];
  cleanup_history = [];
  metrics = record {
    total_cleanups = 0;
    successful_cleanups = 0;
    failed_cleanups = 0;
    resources_tracked = 0;
    resources_cleaned_up = 0;
    resources_skipped = 0;
    total_cleanup_time = pos 0;
    max_cleanup_time = pos 0;
    cleanups_by_type = [];
    storage_freed = pos 0;
    last_successful_cleanup = 0;
  };
  stopped = false;
}

abbrev Tracked : Type 0
Tracked = List (Text × TrackedResource)

-- The switch over the type of a resource, around a change of one map.
abbrev pub in_map : ℤ → (Tracked → Tracked) → ResourceCleanupManager → ResourceCleanupManager
in_map t f m =
    if eqb_ℤ t container_type
    then record m { tracked_containers = f m.tracked_containers }
    else if eqb_ℤ t network_type
    then record m { tracked_networks = f m.tracked_networks }
    else if eqb_ℤ t volume_type
    then record m { tracked_volumes = f m.tracked_volumes }
    else m

unfoldable pub track_resource : TrackedResource → ResourceCleanupManager → ResourceCleanupManager
track_resource r m =
    let t = in_map r.type (insert r.id r) m in
    record t {
      metrics = record (t.metrics) { resources_tracked = (t.metrics).resources_tracked + 1 };
    }

unfoldable pub untrack_resource : Text → ℤ → ResourceCleanupManager → ResourceCleanupManager
untrack_resource id t m = in_map t (delete id) m

unfoldable pub get_all_tracked_resources : ResourceCleanupManager → List TrackedResource
get_all_tracked_resources m =
    map (λ e. e.1) m.tracked_containers
    ++ (map (λ e. e.1) m.tracked_networks ++ map (λ e. e.1) m.tracked_volumes)

unfoldable pub get_temporary_resources : ResourceCleanupManager → List TrackedResource
unfolding get_all_tracked_resources
get_temporary_resources m = keep (λ r. r.temporary) (get_all_tracked_resources m)

unfoldable pub resource_exists : Text → ResourceCleanupManager → Bool
resource_exists id m =
    has_key id m.tracked_containers || has_key id m.tracked_networks || has_key id m.tracked_volumes

-- `now` is the clock when the resource is looked at.
unfoldable pub is_orphaned_resource : ℕ → TrackedResource → ResourceCleanupManager → Bool
unfolding resource_exists
is_orphaned_resource now r m =
    ltb_ℤ m.config.resource_max_age (time_sub now r.last_used)
    || any (λ d. not (resource_exists d m)) r.depends_on

pub record CleanupStrategy : Type 0 where
  pub cleanup_temporary : Bool
  pub cleanup_orphaned : Bool
  pub cleanup_expired : Bool
  pub cleanup_running : Bool
  pub ignore_protected : Bool
  pub preserve_diagnostic : Bool

-- The strategy of PerformCleanup.
abbrev pub manual_strategy : CleanupConfig → CleanupStrategy
manual_strategy c = record {
  cleanup_temporary = true;
  cleanup_orphaned = true;
  cleanup_expired = true;
  cleanup_running = false;
  ignore_protected = false;
  preserve_diagnostic = c.preserve_debug_data;
}

unfoldable pub select_cleanup_strategy : DiagnosticError → CleanupConfig → CleanupStrategy
select_cleanup_strategy d c =
    let base : CleanupStrategy = record {
      cleanup_temporary = true;
      cleanup_orphaned = false;
      cleanup_expired = false;
      cleanup_running = false;
      ignore_protected = false;
      preserve_diagnostic = c.preserve_debug_data;
    } in
    elim (d.type) [
      | resource ↦ record base {
        cleanup_orphaned = true;
        cleanup_expired = true;
        cleanup_running = eqb_ℤ d.code code_resource_exhaustion;
      }
      | connection ↦ record base { cleanup_orphaned = true }
      | network ↦ record base { cleanup_orphaned = true; cleanup_expired = true }
      | _ ↦ record base { cleanup_expired = true }
    ]

-- The clock when the resources are chosen, and when each is looked at for being an orphan.
pub record Clocks : Type 0 where
  pub chosen : ℕ
  pub looked : TrackedResource → ℕ

-- The body of the loop of getResourcesForCleanup.
unfoldable pub should_clean :
    Clocks → CleanupStrategy → ResourceCleanupManager → TrackedResource → Bool
unfolding is_orphaned_resource
should_clean clocks s m r =
    let age = m.config.resource_max_age in
    let wanted : Bool =
      (s.cleanup_temporary && r.temporary)
      || (s.cleanup_expired && ltb_ℤ (pos 0) age && ltb_ℤ age (time_sub clocks.chosen r.created_at))
      || (s.cleanup_orphaned && is_orphaned_resource (clocks.looked r) r m) in
    let spared : Bool = if r.protected && not s.ignore_protected then false else wanted in
    if r.diagnostic && s.preserve_diagnostic then false else spared

unfoldable pub get_resources_for_cleanup :
    Clocks → CleanupStrategy → ResourceCleanupManager → List TrackedResource
unfolding should_clean get_all_tracked_resources
get_resources_for_cleanup clocks s m = keep (should_clean clocks s m) (get_all_tracked_resources m)
